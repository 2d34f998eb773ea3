-- ===== src/Bridge/Relay/Finalize.antt =====
-- Completing a transfer in crates/bridge/src/relay.rs.
use rustblockchain.Base.{
  ℕ, ◌≡◌, ◌⊎◌, Bool-cases, saturating_sub, refl, inl, inr, none, some, [], arith, if◌then◌else◌,
  Option-cases, unwrap_or, ◌==◌,
}
use rustblockchain.Base.Result.{Result, ok, err, Result-cases}
use rustblockchain.Base.Dict.{lookup}
use rustblockchain.Base.Text.{Text, text_eq}
use rustblockchain.Bridge.Types.{
  ExternalChain, bitcoin, ethereum, bnb_chain, polygon, solana, name, from_name, chain_eq,
  BridgeTransfer, BridgeDirection, inbound, outbound, validated, completed, transfer_status_eq,
  BridgeError, unsupported_chain, transfer_already_processed,
}
use rustblockchain.Bridge.State
use rustblockchain.Bridge.State.{complete, put_transfer}
use rustblockchain.Bridge.Relay.{BridgeRelayer, finalize_transfer}

-- A chain's name leads back to the chain for every chain but BNB Chain, whose name has a blank that
-- no accepted spelling has.
pub from_name-name :
    (c : ExternalChain) → from_name (name c) ≡ (if c == bnb_chain then none else some c)
unfolding from_name name
from_name-name bitcoin = refl
from_name-name ethereum = refl
from_name-name bnb_chain = refl
from_name-name polygon = refl
from_name-name solana = refl

Direction-cases : (d : BridgeDirection) → (d ≡ inbound) ⊎ (d ≡ outbound)
Direction-cases inbound = inl refl
Direction-cases outbound = inr refl

module _ (unlock : ℕ → Text → Text → ℕ → Result BridgeError Text) (id : Text) (now : ℕ)
    (r : BridgeRelayer) where
  -- A validated outbound transfer to BNB Chain can never be completed: the relayer does not find the
  -- chain by the name that it stored itself, whatever adapters there are, and nothing changes.
  pub finalize_bnb_stuck :
      (t : BridgeTransfer)
      → lookup id r.state.transfers ≡ some t
      → t.direction ≡ outbound
      → t.dest_chain ≡ name bnb_chain
      → t.status ≡ validated
      → finalize_transfer unlock id now r ≡ (err (unsupported_chain (name bnb_chain)), r)
  unfolding finalize_transfer State.get_transfer
  finalize_bnb_stuck t e d n v = ground (arith, from_name-name bnb_chain)

  -- Only a stored transfer in the state Validated is completed; what is returned and stored is that
  -- transfer with its status, destination hash and time set, and no other record changes.
  pub finalize_transfer_completes :
      (u : BridgeTransfer)
      → (finalize_transfer unlock id now r).0 ≡ ok u
      → (t : BridgeTransfer) × (dest_tx : Text) × (lookup id r.state.transfers ≡ some t)
        × (t.status ≡ validated)
        × (u ≡ complete t dest_tx now)
        × ((finalize_transfer unlock id now r).1 ≡ record r { state = put_transfer id u r.state })
  unfolding finalize_transfer State.get_transfer State.complete_transfer
  finalize_transfer_completes u e = elim (Option-cases (lookup id r.state.transfers)) [
    | inl n ↦ absurd (ground arith)
    | inr (t, f) ↦ (t, unwrap_or u.dest_tx_hash [], f, ground arith, ground arith, ground arith)
  ]

  -- A transfer that is stored as completed is not completed again.
  pub finalize_transfer-completed :
      (u : BridgeTransfer)
      → lookup id r.state.transfers ≡ some u
      → u.status ≡ completed
      → finalize_transfer unlock id now r ≡ (err transfer_already_processed, r)
  unfolding finalize_transfer State.get_transfer
  finalize_transfer-completed u e h = ground arith

  -- A call that fails changes nothing.
  pub finalize_transfer_failed :
      (x : BridgeError)
      → (finalize_transfer unlock id now r).0 ≡ err x
      → (finalize_transfer unlock id now r).1 ≡ r
  unfolding finalize_transfer State.get_transfer State.complete_transfer
  finalize_transfer_failed x e = elim (Option-cases (lookup id r.state.transfers)) [
    | inl n ↦ ground arith
    | inr (t, f) ↦ elim (Bool-cases (t.status == validated)) [
      | inr other ↦ ground arith
      | inl ready ↦ elim (Direction-cases t.direction) [
        | inl d ↦ ground arith
        | inr d ↦ elim (Option-cases (from_name t.dest_chain)) [
          | inl n ↦ ground arith
          | inr (chain, k) ↦ elim (Option-cases (lookup chain r.adapters)) [
            | inl n ↦ ground arith
            | inr (a, l) ↦
                elim (Result-cases
                  (unlock a t.recipient t.token_symbol (saturating_sub t.amount t.fee))) [
                    | inl (tx, q) ↦ ground arith
                    | inr (y, q) ↦ ground arith
                  ]
          ]
        ]
      ]
    ]
  ]
