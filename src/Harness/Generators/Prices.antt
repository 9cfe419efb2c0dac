-- ===== src/Harness/Generators/Prices.antt =====
-- unit-tests/pyth/helpers.ts, fc_ext.priceUpdate: what a random price update is drawn from.
use stacks_pyth_bridge.Prelude.{ℕ, zero, suc, ◌+◌, ◌≡◌, ◌⊎◌, inl, inr, Option, none, some}
use stacks_pyth_bridge.Prelude.Int.{ℤ, pos, negsuc}
use stacks_pyth_bridge.Harness.Generators.{FastCheck, fixed_number}
use stacks_pyth_bridge.Harness.Pnau.{PriceUpdate, PriceUpdateOptions}

module _ (fc : FastCheck) where
  -- The parts of the tuple. The exponent is drawn from naturals, or it is the one that is given.
  pub record PriceUpdateArbitraries : Type 0 where
    pub price : fc.Arbitrary ℤ
    pub conf : fc.Arbitrary ℕ
    pub ema_price : fc.Arbitrary ℤ
    pub ema_conf : fc.Arbitrary ℕ
    pub expo : fc.Arbitrary ℕ ⊎ fc.Arbitrary ℤ
    pub prev_publish_time : fc.Arbitrary ℕ
    pub publish_time : fc.Arbitrary ℕ

  -- `if (opts && opts.field)` on a signed number: 0 counts as none.
  abbrev pub fixed_int : Option ℤ → fc.Arbitrary ℤ → fc.Arbitrary ℤ
  fixed_int none arbitrary = arbitrary
  fixed_int (some (pos zero)) arbitrary = arbitrary
  fixed_int (some (pos (suc n))) arbitrary = fc.constant (pos (suc n))
  fixed_int (some (negsuc n)) arbitrary = fc.constant (negsuc n)

  abbrev pub expo_or : Option ℤ → fc.Arbitrary ℕ → fc.Arbitrary ℕ ⊎ fc.Arbitrary ℤ
  expo_or none arbitrary = inl arbitrary
  expo_or (some (pos zero)) arbitrary = inl arbitrary
  expo_or (some (pos (suc n))) arbitrary = inr (fc.constant (pos (suc n)))
  expo_or (some (negsuc n)) arbitrary = inr (fc.constant (negsuc n))

  unfoldable pub price_update : PriceUpdateOptions → PriceUpdateArbitraries
  price_update opts =
      let prev_publish_time = fixed_number fc opts.prev_publish_time (fc.big_uint_n 64) in
      record {
        price = fixed_int opts.price (fc.big_int_n 64);
        conf = fixed_number fc opts.conf (fc.big_uint_n 64);
        ema_price = fixed_int opts.ema_price (fc.big_int_n 64);
        ema_conf = fixed_number fc opts.ema_conf (fc.big_uint_n 64);
        expo = expo_or opts.expo (fc.nat 4294967295);
        prev_publish_time = prev_publish_time;
        publish_time =
            fixed_number fc opts.publish_time
              (fc.chain prev_publish_time (λ t. fc.constant (t + 10)));
      }

  abbrev pub GivesExpo : fc.Arbitrary ℕ ⊎ fc.Arbitrary ℤ → ℤ → Type 0
  GivesExpo (inl a) z = (n : ℕ) × fc.Gives a n × (z ≡ pos n)
  GivesExpo (inr a) z = fc.Gives a z

  -- The fields of an update are drawn.
  pub record IsDrawn (opts : PriceUpdateOptions) (p : PriceUpdate) : Type 0 where
    pub price : fc.Gives (price_update opts).price p.price
    pub conf : fc.Gives (price_update opts).conf p.conf
    pub ema_price : fc.Gives (price_update opts).ema_price p.ema_price
    pub ema_conf : fc.Gives (price_update opts).ema_conf p.ema_conf
    pub expo : GivesExpo (price_update opts).expo p.expo
    pub prev_publish_time : fc.Gives (price_update opts).prev_publish_time p.prev_publish_time
    pub publish_time : fc.Gives (price_update opts).publish_time p.publish_time
