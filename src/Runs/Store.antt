-- ===== src/Runs/Store.antt =====
-- Runs of contracts/pyth-store-v1.clar and contracts/pyth-oracle-v2.clar.
use stacks_pyth_bridge.Prelude.{
  ℕ, ◌*◌, ◌^◌, ◌<◌, ◌≡◌, ◌≢◌, refl, some, none, List, [], ◌∷◌, arith, length, All, ltb,
  if◌then◌else◌, ◌==◌,
}
use stacks_pyth_bridge.Prelude.Bytes.{bytes_eq}
use stacks_pyth_bridge.Prelude.Int.{pos, negsuc}
use stacks_pyth_bridge.Clarity.Outcome.{Outcome, ok, err, ◌>>=◌, uint_sub, uint_mul, uint_pow}
use stacks_pyth_bridge.Governance.{Governance, check_execution_flow, get_fee_info}
use stacks_pyth_bridge.Governance.Flow.{Matches}
use stacks_pyth_bridge.Store.{
  Store, Chain, PriceEntry, empty, write, write_batch_entry, map_write_batch_entry, filter_ok,
  map_unwrapped, price_of, err_invalid_updates,
}
use stacks_pyth_bridge.Store.Batch.{IsLive, write_exact, accepted, stored_all}
use stacks_pyth_bridge.Store.Newest.{NewestWins}
use stacks_pyth_bridge.Store.Safety.{
  IsConsistent, IsNews, write_sound, write-NewestWins, write-IsConsistent,
}
use stacks_pyth_bridge.Oracle.{
  Contracts, Ledger, plan_of, pyth_store, fee_amount, stx_transfer, verify_and_update_price_feeds,
}
use stacks_pyth_bridge.Oracle.Fees.{
  Paid, verify_and_update_price_feeds-Paid, verify_and_update_price_feeds_no_fee,
}
use stacks_pyth_bridge.Runs.Governance.{sample_state, sample_plan, sample-IsDistinct, sample_core}

abbrev pub sample_chain : Chain
sample_chain = record { block_height = 10; block_time = λ _. some 8000 }

sample-IsLive : IsLive sample_state sample_chain 800
sample-IsLive = record {
  time = 8000;
  started = omega arith;
  known = refl;
  room = omega arith;
  bound = refl;
}

abbrev entry_at : ℕ → PriceEntry
entry_at time = record {
  price_identifier = 6 ∷ [];
  price = pos 100;
  conf = 1;
  expo = negsuc 7;
  ema_price = pos 90;
  ema_conf = 1;
  publish_time = time;
  prev_publish_time = time;
}

-- A fresh entry, an older one, a newer one and, first of all, a stale one.
abbrev batch : List PriceEntry
batch = entry_at 500 ∷ entry_at 900 ∷ entry_at 850 ∷ entry_at 950 ∷ []

abbrev written : List PriceEntry
written = entry_at 900 ∷ entry_at 950 ∷ []

abbrev after_batch : Store
after_batch = stored_all 800 empty batch

batch_run : write 3 sample_state sample_chain empty 1 batch ≡ ok (written, after_batch)
unfolding write check_execution_flow write_batch_entry map_write_batch_entry filter_ok map_unwrapped
    price_of bytes_eq uint_sub stored_all
batch_run = refl

write_exact_example : write 3 sample_state sample_chain empty 1 batch ≡ (
    check_execution_flow sample_state 3 1 none >>= λ _.
    if ltb 0 (length (accepted 800 empty batch))
    then ok (accepted 800 empty batch, stored_all 800 empty batch)
    else err err_invalid_updates)
write_exact_example = write_exact sample_state sample_chain 800 sample-IsLive 3 1 empty batch

write_sound_example :
    (sample_plan.pyth_oracle_contract ≡ sample_state.current_execution_plan.pyth_oracle_contract)
    × (0 < length written)
    × All (IsNews 800 empty batch) written
write_sound_example =
    write_sound sample_state sample_chain 800 sample-IsLive 3 1 empty after_batch batch written
      sample-IsDistinct batch_run

write-NewestWins_example : NewestWins 800 (6 ∷ []) empty batch after_batch
write-NewestWins_example =
    write-NewestWins sample_state sample_chain 800 sample-IsLive 3 1 empty after_batch batch written
      (6 ∷ []) batch_run

empty-IsConsistent : IsConsistent empty
empty-IsConsistent = record { at_key = λ key. refl }

write-IsConsistent_example : IsConsistent after_batch
write-IsConsistent_example =
    write-IsConsistent sample_state sample_chain 800 sample-IsLive 3 1 empty after_batch batch
      written empty-IsConsistent batch_run

abbrev sample_contracts : Contracts
sample_contracts = record {
  pyth_storage_contract = pyth_store 3 sample_state sample_chain;
  pyth_decoder_contract = record { address = 2; decode_and_verify_price_feeds = λ _ _ _. ok batch };
  wormhole_core_contract = sample_core [];
}

abbrev sample_ledger : Ledger
sample_ledger = record { store = empty; balances = λ _. 1000 }

abbrev paid_ledger : Ledger
paid_ledger = record {
  store = after_batch;
  balances = λ p. if p == 5 then 980 else if p == 8 then 1020 else 1000;
}

paid_run :
    verify_and_update_price_feeds 1 sample_state 5 5 sample_ledger [] sample_contracts
    ≡ ok (written, paid_ledger)
unfolding verify_and_update_price_feeds write check_execution_flow write_batch_entry
    map_write_batch_entry filter_ok map_unwrapped price_of bytes_eq uint_sub stored_all fee_amount
    stx_transfer get_fee_info uint_mul uint_pow
paid_run = refl

verify_and_update_price_feeds-Paid_example :
    Matches (plan_of sample_contracts) sample_plan
    × (decoded : List PriceEntry) × (◌≡◌ {A = Outcome (List PriceEntry)} (ok batch) (ok decoded))
    × (write 3 sample_state sample_chain empty 1 decoded ≡ ok (written, after_batch))
    × Paid (λ _. 1000) paid_ledger.balances (2 * (1 * 10 ^ 1)) 5 8
verify_and_update_price_feeds-Paid_example =
    verify_and_update_price_feeds-Paid 1 sample_state 5 5 sample_ledger paid_ledger []
      sample_contracts written sample-IsDistinct refl paid_run

abbrev free_state : Governance
free_state = record sample_state { fee_value = record { mantissa = 0; exponent = 1 } }

verify_and_update_price_feeds_no_fee_example :
    verify_and_update_price_feeds 1 free_state 5 5 sample_ledger [] sample_contracts
    ≢ ok (written, paid_ledger)
verify_and_update_price_feeds_no_fee_example =
    verify_and_update_price_feeds_no_fee 1 free_state 5 5 sample_ledger [] sample_contracts refl
      (written, paid_ledger)
