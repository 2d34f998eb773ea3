-- ===== src/Bridge/Relay/Confirm.antt =====
-- Collecting confirmations in crates/bridge/src/relay.rs.
use mathlib.Core.Path.{subst}
use rustblockchain.Base.{
  ℕ, zero, suc, ◌+◌, ◌≤◌, ◌<◌, ◌≡◌, ◌≢◌, sym, ◌∙◌, inl, inr, true, false, some, arith, Option-cases,
  nat_eq, u64_mod, add64,
}
use rustblockchain.Base.Result.{ok, err}
use rustblockchain.Base.Dict.{lookup, lookup-insert, lookup-insert_self}
use rustblockchain.Base.Text.{Text, text, text_eq}
use rustblockchain.Bridge.Types.{
  BridgeTransfer, validated, completed, transfer_status_eq, unauthorized,
}
use rustblockchain.Bridge.State
use rustblockchain.Bridge.State.{confirm, put_transfer}
use rustblockchain.Bridge.Validators.{is_validator, record_confirmation}
use rustblockchain.Bridge.Relay.{BridgeRelayer, submit_confirmation}

-- Nobody but an active validator confirms: another caller is refused and nothing changes.
pub submit_confirmation_outsider :
    (id : Text) (who now : ℕ) (r : BridgeRelayer)
    → is_validator r.validators who ≡ false
    → submit_confirmation id who now r ≡ (err (unauthorized (text "Not a bridge validator")), r)
unfolding submit_confirmation
submit_confirmation_outsider id who now r h = ground arith

-- Recording a confirmation keeps who is a validator.
pub is_validator-record_confirmation :
    (a b : ℕ) (r : BridgeRelayer)
    → is_validator (record_confirmation a r.validators) b ≡ is_validator r.validators b
unfolding is_validator record_confirmation
is_validator-record_confirmation a b r = elim (Option-cases (lookup a r.validators.validators)) [
  | inl e ↦ rw (e, record_confirmation)
  | inr (v, e) ↦ ground (
    arith,
    lookup-insert b a (record v { confirmations_count = add64 v.confirmations_count 1 })
        r.validators.validators,
  )
]

-- A validator's confirmation of a stored transfer that is not completed counts one more, and the
-- transfer becomes Validated when the required number is reached.
pub submit_confirmation_counts :
    (id : Text) (who now : ℕ) (r : BridgeRelayer) (t : BridgeTransfer)
    → is_validator r.validators who ≡ true
    → lookup id r.state.transfers ≡ some t
    → t.status ≢ completed
    → submit_confirmation id who now r ≡ (
      ok (confirm t now),
      record r {
        validators = record_confirmation who r.validators;
        state = put_transfer id (confirm t now) r.state;
      },
    )
unfolding submit_confirmation State.add_confirmation
submit_confirmation_counts id who now r t v e c = ground arith

-- The same validator calls `n` times.
abbrev pub confirm_by : Text → ℕ → ℕ → ℕ → BridgeRelayer → BridgeRelayer
confirm_by id who now zero r = r
confirm_by id who now (suc n) r = confirm_by id who now n (submit_confirmation id who now r).1

abbrev pub IsValidated : Text → BridgeRelayer → Type 0
IsValidated id r =
    (u : BridgeTransfer) × (lookup id r.state.transfers ≡ some u) × (u.status ≡ validated)

-- One validator alone can validate any transfer that is not completed: the confirmations that are
-- still missing may all be its own. Stated for counts that stay below 2 ^ 64.
pub one_validator_validates :
    (id : Text) (who now n : ℕ) (r : BridgeRelayer) (t : BridgeTransfer)
    → is_validator r.validators who ≡ true
    → lookup id r.state.transfers ≡ some t
    → t.status ≢ completed
    → t.required_confirmations ≤ t.confirmations + suc n
    → t.confirmations + suc n < u64_mod
    → IsValidated id (confirm_by id who now (suc n) r)
one_validator_validates id who now zero r t v e c k b = (
  confirm t now,
  ground (
    arith,
    submit_confirmation_counts id who now r t v e c,
    lookup-insert_self id (confirm t now) r.state.transfers,
  ),
  ground arith,
)
one_validator_validates id who now (suc n) r t v e c k b =
    subst (λ x. IsValidated id (confirm_by id who now (suc n) x.1))
      (sym (submit_confirmation_counts id who now r t v e c))
      (one_validator_validates id who now n
        (record r {
          validators = record_confirmation who r.validators;
          state = put_transfer id (confirm t now) r.state;
        })
        (confirm t now) (is_validator-record_confirmation who who r ∙ v)
        (lookup-insert_self id (confirm t now) r.state.transfers) (ground arith) (ground arith)
        (ground arith))
