-- ===== src/Runs/Drawn.antt =====
-- A run of a price update that is drawn, with some of its values given.
use stacks_pyth_bridge.Prelude.{◌≡◌, ◌⊎◌, inl, refl, some, none, [], ◌++◌, arith, ◌∷◌}
use stacks_pyth_bridge.Prelude.Bytes.{Bytes, be_bytes, length-be_bytes}
use stacks_pyth_bridge.Prelude.Int.{pos, negsuc}
use stacks_pyth_bridge.Clarity.Outcome.{ok}
use stacks_pyth_bridge.Clarity.Cursor.{flat, flat_laws}
use stacks_pyth_bridge.Harness.Buffers.BigEndian.{FitsSigned}
use stacks_pyth_bridge.Harness.Generators.Prices.{IsDrawn, price_update}
use stacks_pyth_bridge.Harness.Pnau.{
  PriceUpdate, PriceUpdateOptions, preserialize_price_update_to_buffer,
}
use stacks_pyth_bridge.Bridge.Drawn.{FitsUpdate, read_message-drawn}
use stacks_pyth_bridge.Bridge.Messages.{message_of}
use stacks_pyth_bridge.Pnau.Updates.{read_message}
use stacks_pyth_bridge.Runs.Generated.{samples, samples_laws}

abbrev options : PriceUpdateOptions
options = record {
  price = some (negsuc 4);
  conf = some 3;
  expo = some (negsuc 3);
  ema_price = some (pos 5);
  ema_conf = some 2;
  publish_time = none;
  prev_publish_time = some 90;
}

-- The publish time is ten seconds after another draw of the time before.
abbrev update : PriceUpdate
update = record {
  price_identifier = record { ref = 0; bytes = be_bytes 32 9 };
  price = negsuc 4;
  conf = 3;
  ema_price = pos 5;
  ema_conf = 2;
  expo = negsuc 3;
  publish_time = 100;
  prev_publish_time = 90;
}

drawn : IsDrawn samples options update
unfolding price_update
drawn = record {
  price = inl refl;
  conf = inl refl;
  ema_price = inl refl;
  ema_conf = inl refl;
  expo = inl refl;
  prev_publish_time = inl refl;
  publish_time = inl refl;
}

fitting : FitsUpdate options
fitting = record {
  price = omega arith;
  conf = omega arith;
  ema_price = omega arith;
  ema_conf = omega arith;
  prev_publish_time = omega arith;
}

read_message-drawn_example :
    ((¬ FitsSigned 4 (negsuc 3)) × (preserialize_price_update_to_buffer update ≡ none))
    ⊎ (FitsSigned 4 (negsuc 3)
        × (bytes : Bytes) × (preserialize_price_update_to_buffer update ≡ some bytes)
        × (read_message flat (record { bytes = bytes ++ 7 ∷ []; pos = 0 })
            ≡ ok (message_of update)))
read_message-drawn_example =
    read_message-drawn samples samples_laws flat flat_laws options update (7 ∷ []) fitting drawn
      (length-be_bytes 32 9) (omega arith)
