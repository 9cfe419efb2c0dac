-- ===== src/Harness/Identifiers.antt =====
-- unit-tests/pyth/helpers.ts: the identifiers of the prices that the unit tests use.
use stacks_pyth_bridge.Prelude.{List, [], ◌∷◌}
use stacks_pyth_bridge.Prelude.Bytes.{Bytes, be_bytes}

abbrev pub btc_price_identifier : Bytes
btc_price_identifier =
    be_bytes 32 0xe62df6c8b4a85fe1a67db44dc12de5db330f7ac66b72dc658afedf0f4a415b43

abbrev pub stx_price_identifier : Bytes
stx_price_identifier =
    be_bytes 32 0xec7a775f46379b5e943c3526b1c8d54cd49749176b0b98e02dde68d1bd335c17

abbrev bat_price_identifier : Bytes
bat_price_identifier =
    be_bytes 32 0x8e860fb74e60e5736b455d82f60b3728049c348e94961add5f961b02fdee2535

abbrev dai_price_identifier : Bytes
dai_price_identifier =
    be_bytes 32 0xb0948a5e5313200c632b51bb5ca32f6de0d36e9950a942d19751e833f70dabfd

abbrev usdc_price_identifier : Bytes
usdc_price_identifier =
    be_bytes 32 0xeaa020c61cc479712813461ce153894a96a6c00b21ed0cfc2798d1f9a9e9c94a

abbrev usdt_price_identifier : Bytes
usdt_price_identifier =
    be_bytes 32 0x2b89b9dc8fdf9f34709a5b106b472f0f39bb6ca9ce04b0fd7f2e971688e2e53b

abbrev wbtc_price_identifier : Bytes
wbtc_price_identifier =
    be_bytes 32 0xc9d8b075a5c69303365ae23633d4e085199bf5c520a3b90fed1322a0342ffc33

abbrev tbtc_price_identifier : Bytes
tbtc_price_identifier =
    be_bytes 32 0x56a3121958b01f99fdc4e1fd01e81050602c7ace3a571918bb55c6a96657cca9

abbrev pub price_identifiers : List Bytes
price_identifiers =
    btc_price_identifier ∷ stx_price_identifier ∷ bat_price_identifier ∷ dai_price_identifier
    ∷ usdc_price_identifier ∷ usdt_price_identifier ∷ wbtc_price_identifier ∷ tbtc_price_identifier
    ∷ []
