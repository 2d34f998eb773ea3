-- ===== src/Bridge/Relay/History.antt =====
-- Histories of the relayer of crates/bridge/src/relay.rs: any sequence of the calls that change it. What
-- a chain adapter answers is `unlock`.
use rustblockchain.Base.{
  ℕ, ◌+◌, ◌<◌, ◌≤◌, ◌≡◌, ◌≢◌, ◌⊎◌, inl, inr, refl, ap, sym, ◌∙◌, some, List, [], ◌∷◌, arith, length,
  Option-cases, Bool-cases, u64_mod, leb, ◌==◌,
}
use rustblockchain.Base.Result.{Result, ok, err, Result-cases}
use rustblockchain.Base.Dict.{
  lookup, lookup-insert_ne, lookup-insert_self, lookup-insert_fresh, insert-Entries, lookup-Entries,
}
use rustblockchain.Base.Text.{Text, text_eq}
use rustblockchain.Bridge.Types.{
  ExternalChain, BridgeTransfer, completed, transfer_status_eq, BridgeError,
  transfer_already_processed,
}
use rustblockchain.Bridge.State
use rustblockchain.Bridge.State.{BridgeState, put_transfer, confirm}
use rustblockchain.Bridge.State.History.{initiates, records}
use rustblockchain.Bridge.State.Ids.{
  Numbered, IsNumbered, HasRoom, lookup-next, step-IsNumbered, counter-step,
}
use rustblockchain.Bridge.State.Transfers.{
  next_outbound, next_inbound, initiate_outbound_lem, record_inbound_lem,
}
use rustblockchain.Bridge.Validators.{is_validator}
use rustblockchain.Bridge.Relay.{
  BridgeRelayer, register_adapter, process_inbound_event, process_outbound_request,
  submit_confirmation, finalize_transfer, calculate_fee,
}
use rustblockchain.Bridge.Relay.Finalize.{
  finalize_transfer_completes, finalize_transfer_failed, finalize_transfer-completed,
}

pub data Request : Type 0 where
  registers : ExternalChain → ℕ → Request
  receives : ExternalChain → Text → ℕ → Text → ℕ → Text → ℕ → ℕ → Request
  requests : ℕ → ExternalChain → Text → Text → ℕ → ℕ → ℕ → Request
  submits : Text → ℕ → ℕ → Request
  finalizes : Text → ℕ → Request

module _ (unlock : ℕ → Text → Text → ℕ → Result BridgeError Text) (to_hex : ℕ → Text) where
  abbrev pub step : BridgeRelayer → Request → BridgeRelayer
  step r (registers chain adapter) = register_adapter chain adapter r
  step r (receives source sender recipient token amount source_tx now id_now) =
      (process_inbound_event to_hex source sender recipient token amount source_tx now id_now r).1
  step r (requests sender dest recipient token amount now id_now) =
      (process_outbound_request to_hex sender dest recipient token amount now id_now r).1
  step r (submits id validator now) = (submit_confirmation id validator now r).1
  step r (finalizes id now) = (finalize_transfer unlock id now r).1

  abbrev pub run : BridgeRelayer → List Request → BridgeRelayer
  run r [] = r
  run r (q ∷ qs) = run (step r q) qs

put-IsNumbered :
    (k : Text) (t v : BridgeTransfer) (s : BridgeState)
    → lookup k s.transfers ≡ some t
    → v.id ≡ t.id
    → IsNumbered s
    → IsNumbered (put_transfer k v s)
put-IsNumbered k t v s e same numbered =
    let w = lookup-Entries (Numbered s.counter) k t s.transfers numbered.0 e in
    (
      insert-Entries (Numbered s.counter) k v s.transfers (w.0 ∙ sym same, w.1) numbered.0,
      numbered.1,
    )

-- A confirmation changes nothing, or it is added to a stored transfer that is not completed.
add_confirmation_cases :
    (k : Text) (who now : ℕ) (s : BridgeState)
    → let s' = (State.add_confirmation k who now s).1 in
      (s' ≡ s)
      ⊎ ((t : BridgeTransfer) × (lookup k s.transfers ≡ some t)
          × (t.status ≢ completed)
          × (s' ≡ put_transfer k (confirm t now) s))
unfolding State.add_confirmation
add_confirmation_cases k who now s = elim (Option-cases (lookup k s.transfers)) [
  | inl e ↦ inl (ground arith)
  | inr (t, e) ↦ elim (Bool-cases (t.status == completed)) [
    | inl q ↦ inl (ground arith)
    | inr q ↦ inr (t, e, (λ p. ground arith), ground arith)
  ]
]

-- The transfer is stored under the id.
abbrev pub Holds : Text → BridgeTransfer → BridgeState → Type 0
Holds id u s = IsNumbered s × (lookup id s.transfers ≡ some u)

module _ (id : Text) (u : BridgeTransfer) (finished : u.status ≡ completed) where
  -- What a change of the state leaves: the transfer, and a counter that is at most one higher.
  abbrev Kept : BridgeState → BridgeState → Type 0
  Kept s s' = Holds id u s' × (s'.counter ≤ s.counter + 1)

  unchanged : (s : BridgeState) → Holds id u s → Kept s s
  unchanged s h = (h, omega arith)

  initiate-Kept :
      (to_hex : ℕ → Text) (sender : ℕ) (chain : ExternalChain) (recipient token : Text)
      (amount fee now id_now : ℕ) (s : BridgeState)
      → HasRoom s
      → Holds id u s
      → Kept s
          (State.initiate_outbound to_hex sender chain recipient token amount fee now id_now s).1
  initiate-Kept to_hex sender chain recipient token amount fee now id_now s room h =
      let call = initiates sender chain recipient token amount fee now id_now in
      let numbered = step-IsNumbered to_hex s call room h.0 in
      let low = counter-step to_hex s call room in
      elim (initiate_outbound_lem to_hex chain token amount fee now id_now sender recipient s) [
        | inl (_, e) ↦ rw e (unchanged s h)
        | inr (inl (_, _, e)) ↦ rw e (unchanged s h)
        | inr (inr (_, _, e)) ↦
            let t = next_outbound to_hex chain token amount fee now id_now sender recipient s in
            let kept =
              lookup-insert_fresh id t.id t u s.transfers
                (ground (arith, lookup-next id_now s h.0 room)) h.1 in
            ((numbered, ap (λ x. lookup id x.1.transfers) e ∙ kept), low)
      ]

  record-Kept :
      (to_hex : ℕ → Text) (chain : ExternalChain) (sender : Text) (recipient : ℕ) (token : Text)
      (amount fee : ℕ) (source_tx : Text) (now id_now : ℕ) (s : BridgeState)
      → HasRoom s
      → Holds id u s
      → Kept s
          (State.record_inbound to_hex chain sender recipient token amount fee source_tx now id_now
            s).1
  record-Kept to_hex chain sender recipient token amount fee source_tx now id_now s room h =
      let call = records chain sender recipient token amount fee source_tx now id_now in
      let numbered = step-IsNumbered to_hex s call room h.0 in
      let low = counter-step to_hex s call room in
      elim (record_inbound_lem to_hex chain token amount fee now id_now sender recipient source_tx
        s) [
          | inl (_, e) ↦ rw e (unchanged s h)
          | inr (inl (_, _, e)) ↦ rw e (unchanged s h)
          | inr (inr (_, _, e)) ↦
              let t =
                next_inbound to_hex chain token amount fee now id_now sender recipient source_tx
                  s in
              let kept =
                lookup-insert_fresh id t.id t u s.transfers
                  (ground (arith, lookup-next id_now s h.0 room)) h.1 in
              ((numbered, ap (λ x. lookup id x.1.transfers) e ∙ kept), low)
        ]

  -- A change of another transfer that keeps its id.
  put-Kept :
      (k : Text) (t v : BridgeTransfer) (s : BridgeState)
      → lookup k s.transfers ≡ some t
      → t.status ≢ completed
      → v.id ≡ t.id
      → Holds id u s
      → Kept s (put_transfer k v s)
  put-Kept k t v s e other same h =
      let ne : k ≢ id =
        λ q. other (ground (arith, ap (λ k. lookup k s.transfers) q, h.1, e, finished)) in
      (
        (put-IsNumbered k t v s e same h.0, lookup-insert_ne id k v s.transfers ne ∙ h.1),
        omega arith,
      )

  confirm-Kept :
      (k : Text) (who now : ℕ) (s : BridgeState)
      → Holds id u s
      → Kept s (State.add_confirmation k who now s).1
  confirm-Kept k who now s h = elim (add_confirmation_cases k who now s) [
    | inl e ↦ rw e (unchanged s h)
    | inr (t, e, q, after) ↦ rw after (put-Kept k t (confirm t now) s e q refl h)
  ]

  module _ (unlock : ℕ → Text → Text → ℕ → Result BridgeError Text) (to_hex : ℕ → Text) where
    finalize-Kept :
        (k : Text) (now : ℕ) (r : BridgeRelayer)
        → Holds id u r.state
        → Kept r.state (finalize_transfer unlock k now r).1.state
    finalize-Kept k now r h = elim (Result-cases (finalize_transfer unlock k now r).0) [
      | inr (x, e) ↦ rw (finalize_transfer_failed unlock k now r x e) (unchanged r.state h)
      | inl (v, e) ↦
          let (t, dest_tx, stored, ready, done, after) =
            finalize_transfer_completes unlock k now r v e in
          rw after (
            put-Kept k t v r.state stored (λ p. ground arith)
              (ap (λ (x : BridgeTransfer). x.id) done) h)
    ]

    step-Kept :
        (r : BridgeRelayer) (q : Request)
        → HasRoom r.state
        → Holds id u r.state
        → Kept r.state (step unlock to_hex r q).state
    unfolding register_adapter process_inbound_event process_outbound_request submit_confirmation
    step-Kept r (registers chain adapter) room h = unchanged r.state h
    step-Kept r (receives source sender recipient token amount source_tx now id_now) room h =
        record-Kept to_hex source sender recipient token amount (calculate_fee amount) source_tx now
          id_now r.state room h
    step-Kept r (requests sender dest recipient token amount now id_now) room h =
        elim (Bool-cases (leb amount (calculate_fee amount))) [
          | inl q ↦ rw (step, process_outbound_request, q) (unchanged r.state h)
          | inr q ↦
              rw (step, process_outbound_request, q)
                (initiate-Kept to_hex sender dest recipient token amount (calculate_fee amount) now
                  id_now r.state room h)
        ]
    step-Kept r (submits k who now) room h = elim (Bool-cases (is_validator r.validators who)) [
      | inr q ↦ rw (step, submit_confirmation, q) (unchanged r.state h)
      | inl q ↦ rw (step, submit_confirmation, q) (confirm-Kept k who now r.state h)
    ]
    step-Kept r (finalizes k now) room h = finalize-Kept k now r h

    run-Holds :
        (r : BridgeRelayer) (qs : List Request)
        → r.state.counter + length qs < u64_mod
        → Holds id u r.state
        → Holds id u (run unlock to_hex r qs).state
    run-Holds r [] room h = h
    run-Holds r (q ∷ qs) room h =
        let (kept, low) = step-Kept r q (omega arith) h in
        run-Holds (step unlock to_hex r q) qs (omega (arith, low)) kept

-- The relayer completes a transfer at most once: after a completion, and after whatever calls of the
-- relayer, it refuses to complete it again, and changes nothing. The state's own fail_transfer, which the
-- relayer does not call, is not among the calls. Stated for a state whose ids are numbered by its counter,
-- while the 64-bit counter is not used up.
pub finalize_transfer_once :
    (unlock : ℕ → Text → Text → ℕ → Result BridgeError Text) (to_hex : ℕ → Text) (id : Text)
    (now later : ℕ) (r : BridgeRelayer) (u : BridgeTransfer) (between : List Request)
    → IsNumbered r.state
    → r.state.counter + length between < u64_mod
    → (finalize_transfer unlock id now r).0 ≡ ok u
    → let r' = run unlock to_hex (finalize_transfer unlock id now r).1 between in
      finalize_transfer unlock id later r' ≡ (err transfer_already_processed, r')
finalize_transfer_once unlock to_hex id now later r u between numbered room e =
    let (t, dest_tx, stored, ready, done, after) =
      finalize_transfer_completes unlock id now r u e in
    let finished : u.status ≡ completed = ap (λ (x : BridgeTransfer). x.status) done in
    let first = (finalize_transfer unlock id now r).1 in
    let holds : Holds id u first.state = rw after (
      put-IsNumbered id t u r.state stored (ap (λ (x : BridgeTransfer). x.id) done) numbered,
      lookup-insert_self id u r.state.transfers,
    ) in
    let kept =
      run-Holds id u finished unlock to_hex first between
        (omega (arith, ap (λ (x : BridgeRelayer). x.state.counter) after)) holds in
    finalize_transfer-completed unlock id later (run unlock to_hex first between) u kept.1 finished
