-- ===== src/Governance/Update/Replay.antt =====
-- Who may update the governance state, and how often a message can be used.
use stacks_pyth_bridge.Prelude.{ℕ, ◌<◌, ◌≤◌, ◌≡◌, sym, ap, ◌∙◌, arith}
use stacks_pyth_bridge.Prelude.Bytes.{Bytes, bytes_eq_sound}
use stacks_pyth_bridge.Clarity.Outcome.{Outcome, ok, err, ◌>>=◌, >>=-eq-ok}
use stacks_pyth_bridge.Clarity.Cursor.{HkCursor}
use stacks_pyth_bridge.Clarity.Types.{Vaa, WormholeCore, data_source_eq}
use stacks_pyth_bridge.Governance.{Governance, check_update_source, expect_active_wormhole_contract}
use stacks_pyth_bridge.Governance.Ptgm.{Host, Ptgm, parse_and_verify_ptgm, err_outdated}
use stacks_pyth_bridge.Governance.Update.{
  begin_update, update, Update, action, fee_value, new_state,
}

-- What a successful update has checked, and what it has done to the sequence.
pub record Authorized (g : Governance) (core : WormholeCore) (vaa : Vaa) (g' : Governance)
    : Type 0 where
  pub newer : g.last_sequence_processed < vaa.sequence
  pub recorded : g'.last_sequence_processed ≡ vaa.sequence
  pub chain : vaa.emitter_chain ≡ g.governance_data_source.emitter_chain
  pub address : vaa.emitter_address ≡ g.governance_data_source.emitter_address
  pub active : core.address ≡ g.current_execution_plan.wormhole_core_contract

module _ (k : HkCursor) (host : Host) where
  ptgm_step :
      (g g' : Governance) (payload : Bytes) (sequence : ℕ) (p : Ptgm)
      → parse_and_verify_ptgm k host g payload sequence ≡ ok (p, g')
      → (g.last_sequence_processed < sequence)
        × (g' ≡ record g { last_sequence_processed = sequence })
  unfolding parse_and_verify_ptgm
  ptgm_step g g' payload sequence p h = ground arith

  -- A message that one state accepts is outdated for every state that has seen it.
  ptgm_again :
      (g g' g'' : Governance) (payload : Bytes) (sequence : ℕ) (p : Ptgm)
      → parse_and_verify_ptgm k host g payload sequence ≡ ok (p, g')
      → sequence ≤ g''.last_sequence_processed
      → parse_and_verify_ptgm k host g'' payload sequence ≡ err err_outdated
  unfolding parse_and_verify_ptgm
  ptgm_again g g' g'' payload sequence p h le = ground arith

  begin_update_known :
      (act : Bytes) (g g' g1 : Governance) (b body : Bytes) (core : WormholeCore) (vaa : Vaa)
      (p : Ptgm)
      → core.parse_and_verify_vaa b ≡ ok vaa
      → parse_and_verify_ptgm k host g vaa.payload vaa.sequence ≡ ok (p, g1)
      → begin_update k host act g b core ≡ ok (body, g')
      → (p.action ≡ act) × (p.body ≡ body) × (g1 ≡ g') × Authorized g core vaa g'
  unfolding begin_update check_update_source expect_active_wormhole_contract data_source_eq
  begin_update_known act g g' g1 b body core vaa p e e2 h = ground (
    arith,
    ptgm_step g g1 vaa.payload vaa.sequence p e2,
    bytes_eq_sound g.governance_data_source.emitter_address vaa.emitter_address,
    bytes_eq_sound p.action act,
  )

  -- The state after an update differs from the state at its start in the sequence alone, but for
  -- the value that the update stores.
  begin_update_step :
      (act : Bytes) (g g' : Governance) (b body : Bytes) (core : WormholeCore)
      → begin_update k host act g b core ≡ ok (body, g')
      → (vaa : Vaa) × (core.parse_and_verify_vaa b ≡ ok vaa)
        × (p : Ptgm) × (parse_and_verify_ptgm k host g vaa.payload vaa.sequence ≡ ok (p, g'))
        × (p.action ≡ act)
        × (p.body ≡ body)
        × Authorized g core vaa g'
  unfolding begin_update
  begin_update_step act g g' b body core h =
      let (vaa, e, h1) = >>=-eq-ok (core.parse_and_verify_vaa b) _ h in
      let (t, e2, h2) = >>=-eq-ok (parse_and_verify_ptgm k host g vaa.payload vaa.sequence) _ h1 in
      let (x, y, z, w) = begin_update_known act g g' t.1 b body core vaa t.0 e e2 h in
      (vaa, e, t.0, e2 ∙ ap (λ (s : Governance). ok (t.0, s)) z, x, y, w)

  -- Every update is `begin_update`, then a part that leaves the sequence alone.
  finish_step :
      {A : Type 0} (act : Bytes) (g g' : Governance) (b : Bytes) (core : WormholeCore)
      (f : Bytes × Governance → Outcome (A × Governance))
      → ((body : Bytes) (g1 g2 : Governance) (a : A)
          → f (body, g1) ≡ ok (a, g2)
          → g2.last_sequence_processed ≡ g1.last_sequence_processed)
      → new_state (begin_update k host act g b core >>= f) ≡ ok g'
      → (vaa : Vaa) × (core.parse_and_verify_vaa b ≡ ok vaa)
        × (p : Ptgm) × (g1 : Governance) × (parse_and_verify_ptgm k host g vaa.payload vaa.sequence
            ≡ ok (p, g1))
        × (p.action ≡ act)
        × Authorized g core vaa g'
  finish_step act g g' b core f keeps h =
      let (s, e, h1) = >>=-eq-ok (begin_update k host act g b core >>= f) _ h in
      let (t, e1, h2) = >>=-eq-ok (begin_update k host act g b core) f e in
      let (vaa, x, p, y, z, w, auth) = begin_update_step act g t.1 b t.0 core e1 in
      let same : s.1.last_sequence_processed ≡ t.1.last_sequence_processed =
        keeps t.0 t.1 s.1 s.0 h2 in
      let last : s.1 ≡ g' = cc h1 in
      (
        vaa,
        x,
        p,
        t.1,
        y,
        z,
        record {
          newer = auth.newer;
          recorded =
              ap (λ (q : Governance). q.last_sequence_processed) (sym last) ∙ same ∙ auth.recorded;
          chain = auth.chain;
          address = auth.address;
          active = auth.active;
        },
      )

  -- Each of the nine updates, if it succeeds, carries a VAA that the passed Wormhole contract
  -- verified, whose message parses for this update's action, from the governance data source and
  -- with a sequence above the last one, which becomes the last one; and the passed contract is the
  -- Wormhole contract of the plan.
  pub update-Authorized :
      (u : Update) (g g' : Governance) (b : Bytes) (core : WormholeCore)
      → update k host u g b core ≡ ok g'
      → (vaa : Vaa) × (core.parse_and_verify_vaa b ≡ ok vaa)
        × (p : Ptgm) × (g1 : Governance) × (parse_and_verify_ptgm k host g vaa.payload vaa.sequence
            ≡ ok (p, g1))
        × (p.action ≡ action u)
        × Authorized g core vaa g'
  unfolding update
  update-Authorized fee_value g g' b core h =
      finish_step _ g g' b core _ (λ body g1 g2 a e. ground arith) h
  update-Authorized _ g g' b core h = finish_step _ g g' b core _ (λ body g1 g2 a e. ground arith) h

  -- A transaction that succeeds, and a history of them. Any contract may be passed as the Wormhole
  -- contract, and any bytes.
  pub data Reach (g : Governance) : Governance → Type 0 where
    here : Reach g g
    next :
        {g' g'' : Governance} (u : Update) (b : Bytes) (core : WormholeCore)
        → Reach g g'
        → update k host u g' b core ≡ ok g''
        → Reach g g''

  -- The last sequence never goes down.
  pub Reach-le :
      {g g' : Governance} → Reach g g' → g.last_sequence_processed ≤ g'.last_sequence_processed
  Reach-le here = omega arith
  Reach-le (next {g' = m} {g'' = n} u b core r e) =
      let (vaa, x, p, g1, y, z, auth) = update-Authorized u m n b core e in
      omega (arith, Reach-le r, auth.newer, auth.recorded)

  begin_update_again :
      (act : Bytes) (g g' g'' : Governance) (b : Bytes) (core : WormholeCore) (vaa : Vaa) (p : Ptgm)
      → core.parse_and_verify_vaa b ≡ ok vaa
      → parse_and_verify_ptgm k host g vaa.payload vaa.sequence ≡ ok (p, g')
      → vaa.sequence ≤ g''.last_sequence_processed
      → begin_update k host act g'' b core ≡ err err_outdated
  unfolding begin_update
  begin_update_again act g g' g'' b core vaa p e e2 le =
      ground (arith, ptgm_again g g' g'' vaa.payload vaa.sequence p e2 le)

  update_of_begin_err :
      (u : Update) (g : Governance) (b : Bytes) (core : WormholeCore) (code : ℕ)
      → begin_update k host (action u) g b core ≡ err code
      → update k host u g b core ≡ err code
  unfolding update
  update_of_begin_err fee_value g b core code e = rw e
  update_of_begin_err _ g b core code e = rw e

  -- Once an update has succeeded, its VAA is refused as outdated, at once and after any further
  -- updates, by each of the nine functions, through whichever Wormhole contract and bytes it is
  -- sent again, as long as they give the same VAA.
  pub update-Reach_outdated :
      (u v : Update) (g g' g'' : Governance) (b c : Bytes) (core other : WormholeCore)
      → update k host u g b core ≡ ok g'
      → Reach g' g''
      → other.parse_and_verify_vaa c ≡ core.parse_and_verify_vaa b
      → update k host v g'' c other ≡ err err_outdated
  update-Reach_outdated u v g g' g'' b c core other h r same =
      let (vaa, x, p, g1, y, z, auth) = update-Authorized u g g' b core h in
      update_of_begin_err v g'' c other err_outdated (
        begin_update_again (action v) g g1 g'' c other vaa p (same ∙ x) y
          (omega (arith, Reach-le r, auth.recorded)))
