-- ===== src/Bridge/Relay/Tests.antt =====
-- Tests of the relayer and the instances of its theorems.
use rustblockchain.Base.{List, ℕ, ◌≡◌, refl, true, false, some, [], ◌∷◌, arith, nat_eq}
use rustblockchain.Base.Result.{Result, ok, err}
use rustblockchain.Base.Dict.{lookup}
use rustblockchain.Base.Text.{read_last_from, Text, text, text_eq}
use rustblockchain.Bridge.Types.{
  HtlcStatus, ethereum, bnb_chain, name, active, claimed, refunded, BridgeTransfer, outbound,
  pending, validated, completed, default_config, BridgeError, BridgeFeeSchedule, htlc_expired,
  htlc_not_expired, bridge_paused, unsupported_chain, transfer_already_processed, unauthorized,
}
use rustblockchain.Bridge.Types
use rustblockchain.Bridge.State
use rustblockchain.Bridge.State.{
  BridgeState, lock_key, initiate_outbound, record_inbound, store_outbound, outbound_transfer,
  locked_of,
}
use rustblockchain.Bridge.Validators.{BridgeValidatorSet, new_validator, is_validator}
use rustblockchain.Bridge.Relay.{BridgeRelayer, submit_confirmation, finalize_transfer}
use rustblockchain.Bridge.State.Ids.{IsNumbered}
use rustblockchain.Bridge.Relay.History.{
  Request, requests, submits, finalizes, run, finalize_transfer_once,
}
use rustblockchain.Bridge.Relay.Finalize.{finalize_bnb_stuck, finalize_transfer_completes}
use rustblockchain.Bridge.Relay.Confirm.{
  confirm_by, IsValidated, one_validator_validates, submit_confirmation_outsider,
}

-- A stand-in for the printing of an address.
abbrev encode : ℕ → Text
encode n = n ∷ []

abbrev bridge : BridgeState
bridge = State.new default_config

abbrev guards : BridgeValidatorSet
guards = record {
  validators = (7, new_validator 7 70 5 0) ∷ (8, new_validator 8 80 3 0) ∷ [];
  min_signatures = 2;
  total_weight = 8;
}

guard_is_validator : is_validator guards 7 ≡ true
unfolding is_validator
guard_is_validator = refl

abbrev transfer : BridgeTransfer
transfer =
    outbound_transfer (text "t") (encode 1) ethereum (text "0xabc") (text "ETH") 1000 1 5
      default_config

abbrev relayer : BridgeTransfer → BridgeRelayer
relayer t = record {
  state = record {
    transfers = (text "t", t) ∷ [];
    by_sender = [];
    locked = [];
    wrapped = [];
    config = default_config;
    paused = false;
    counter = 100;
  };
  validators = guards;
  adapters = [];
}

abbrev unlock : ℕ → Text → Text → ℕ → Result BridgeError Text
unlock adapter recipient token amount = ok (text "0x1")

abbrev to_bnb : BridgeTransfer
to_bnb = record transfer { dest_chain = name bnb_chain; status = validated }

finalize_bnb_stuck_example :
    finalize_transfer unlock (text "t") 9 (relayer to_bnb)
    ≡ (err (unsupported_chain (name bnb_chain)), relayer to_bnb)
finalize_bnb_stuck_example =
    finalize_bnb_stuck unlock (text "t") 9 (relayer to_bnb) to_bnb refl refl refl refl

abbrev ready : BridgeTransfer
ready = record transfer { status = validated }

abbrev done : BridgeTransfer
done = State.complete ready (text "pending-ethereum-unlock-t") 9

finalize_test : (finalize_transfer unlock (text "t") 9 (relayer ready)).0 ≡ ok done
unfolding finalize_transfer State.get_transfer State.complete_transfer Types.from_name name
finalize_test = refl

finalize_transfer_completes_example :
    (t : BridgeTransfer) × (dest_tx : Text) × (lookup (text "t") (relayer ready).state.transfers
      ≡ some t)
    × (t.status ≡ validated)
    × (done ≡ State.complete t dest_tx 9)
    × ((finalize_transfer unlock (text "t") 9 (relayer ready)).1 ≡ record (relayer ready) {
      state = State.put_transfer (text "t") done (relayer ready).state;
    })
finalize_transfer_completes_example =
    finalize_transfer_completes unlock (text "t") 9 (relayer ready) done finalize_test

ready-IsNumbered : IsNumbered (relayer ready).state
unfolding read_last_from
ready-IsNumbered = (((refl, omega arith), tt), omega arith)

abbrev between : List Request
between =
    requests 5 ethereum (text "0xb") (text "ETH") 5000 10 10
    ∷ submits (text "t") 7 11
    ∷ finalizes (text "t") 11
    ∷ []

finalize_transfer_once_example :
    let r' =
      run unlock (λ n. []) (finalize_transfer unlock (text "t") 9 (relayer ready)).1 between in
    finalize_transfer unlock (text "t") 12 r' ≡ (err transfer_already_processed, r')
finalize_transfer_once_example =
    finalize_transfer_once unlock (λ n. []) (text "t") 9 12 (relayer ready) done between
      ready-IsNumbered (omega arith) finalize_test

one_validator_validates_example :
    IsValidated (text "t") (confirm_by (text "t") 7 20 2 (relayer transfer))
one_validator_validates_example =
    one_validator_validates (text "t") 7 20 1 (relayer transfer) transfer guard_is_validator refl
      (λ e. cc) (omega arith) (omega arith)

outsider_test :
    submit_confirmation (text "t") 6 20 (relayer transfer)
    ≡ (err (unauthorized (text "Not a bridge validator")), relayer transfer)
outsider_test =
    submit_confirmation_outsider (text "t") 6 20 (relayer transfer) (unfold is_validator in refl)
