-- ===== src/Bridge/Htlc/Tests.antt =====
-- Tests of the swap manager and the instances of its theorems.
use rustblockchain.Base.{ℕ, suc, ◌≤◌, ◌<◌, ◌≡◌, ◌↔◌, refl, inl, none, some, [], ◌∷◌, arith, nat_eq}
use rustblockchain.Base.Result.{ok, err}
use rustblockchain.Base.Dict.{lookup}
use rustblockchain.Base.Text.{Text, text, text_eq}
use rustblockchain.Bridge.Types.{ethereum, htlc_expired, htlc_not_expired}
use rustblockchain.Bridge.Htlc
use rustblockchain.Bridge.Htlc.{
  HtlcSwap, HtlcManager, Request, create_swap, claim_swap, refund_swap, claimed_swap, refunded_swap,
  put_swap, new_swap, store_new, get_swap, expire_stale_swaps, active_count,
}
use rustblockchain.Bridge.Htlc.History.{claims, refunds, expires, creates, run, run-settled}
use rustblockchain.Bridge.Htlc.Invariant.{IsValid, run-IsValid}
use rustblockchain.Bridge.Htlc.Settlement.{IsOpen, claim_swap_iff, refund_swap_iff}

-- Stand-ins for the other crates' code: a hash is the length of the preimage.
abbrev encode : ℕ → Text
encode n = n ∷ []

abbrev hash_length : Text → ℕ
hash_length [] = 0
hash_length (c ∷ cs) = suc (hash_length cs)

abbrev request : Request
request = record {
  sender = 1;
  recipient = 2;
  amount = 100;
  hash_lock = 3;
  external_chain = ethereum;
  external_address = text "0xabc";
  external_amount = text "5";
  timelock = none;
}

abbrev swap : HtlcSwap
swap = new_swap (encode 3) request 4600 1000

abbrev manager : HtlcManager
manager = record {
  swaps = (encode 3, swap) ∷ [];
  by_sender = (1, encode 3 ∷ []) ∷ [];
  by_recipient = (2, encode 3 ∷ []) ∷ [];
  default_timelock = 3600;
}

abbrev secret : Text
secret = text "abc"

create_test : create_swap encode request 1000 (Htlc.new 3600) ≡ (ok swap, manager)
unfolding create_swap Htlc.new
create_test = refl

claim_test : claim_swap hash_length (encode 3) secret 2 2000 manager ≡ (
  ok (claimed_swap swap secret 2000),
  put_swap (encode 3) (claimed_swap swap secret 2000) manager,
)
unfolding claim_swap
claim_test = refl

late_claim_test : (claim_swap hash_length (encode 3) secret 2 4600 manager).0 ≡ err htlc_expired
unfolding claim_swap
late_claim_test = refl

early_refund_test : (refund_swap (encode 3) 1 4599 manager).0 ≡ err htlc_not_expired
unfolding refund_swap
early_refund_test = refl

abbrev paid : HtlcManager
paid = put_swap (encode 3) (claimed_swap swap secret 2000) manager

run-settled_example :
    lookup
      (encode 3)
      (run encode hash_length paid
        (refunds (encode 3) 1 5000 ∷ expires 6000 ∷ creates request 7000 ∷ [])).swaps
    ≡ some (claimed_swap swap secret 2000)
run-settled_example =
    run-settled encode hash_length (encode 3) (claimed_swap swap secret 2000) paid
      (refunds (encode 3) 1 5000 ∷ expires 6000 ∷ creates request 7000 ∷ []) (inl refl) refl

manager-IsValid : IsValid encode hash_length manager
manager-IsValid = ground arith

run-IsValid_example : IsValid encode hash_length (
    run encode hash_length manager
      (claims (encode 3) secret 2 2000 ∷ refunds (encode 3) 1 5000 ∷ []))
run-IsValid_example =
    run-IsValid encode hash_length manager
      (claims (encode 3) secret 2 2000 ∷ refunds (encode 3) 1 5000 ∷ []) manager-IsValid

claim_swap_iff_example :
    (claim_swap hash_length (encode 3) secret 2 2000 manager ≡ (
      ok (claimed_swap swap secret 2000),
      put_swap (encode 3) (claimed_swap swap secret 2000) manager,
    ))
    ↔ (IsOpen swap
        × (2 ≡ swap.recipient)
        × (2000 < swap.timelock)
        × (hash_length secret ≡ swap.hash_lock))
claim_swap_iff_example = claim_swap_iff hash_length (encode 3) secret 2 2000 manager swap refl

refund_swap_iff_example :
    (refund_swap (encode 3) 1 5000 manager
      ≡ (ok (refunded_swap swap 5000), put_swap (encode 3) (refunded_swap swap 5000) manager))
    ↔ (IsOpen swap × (1 ≡ swap.sender) × (swap.timelock ≤ 5000))
refund_swap_iff_example = refund_swap_iff (encode 3) 1 5000 manager swap refl
