-- ===== src/Contracts/Tests.antt =====
-- Tests of the contracts and the instances of their theorems.
use rustblockchain.Base.{
  List, ℕ, ◌+◌, ◌≤◌, ◌≡◌, ◌≢◌, refl, some, [], ◌∷◌, ◌++◌, arith, length, take, ◌%◌,
}
use rustblockchain.Base.Text.{Text, text}
use rustblockchain.Base.Bytes.{le_bytes, from_le, length-le_bytes}
use rustblockchain.Base.Result.{ok}
use rustblockchain.Contracts.Sdk.{MockEnv, storage_read}
use rustblockchain.Contracts.Sdk.Words.{read_u64, write_u64}
use rustblockchain.Contracts.Token.{balance_key, transfer_tokens}
use rustblockchain.Contracts.Token.Balances.{balance, amount_of, transfer_tokens_lem}
use rustblockchain.Contracts.Bridge.{
  HtlcData, encode_htlc, decode_htlc, htlc_key, hex_encode_32, claim_htlc, refund_htlc,
}
use rustblockchain.Contracts.Bridge.Encoding.{IsWellFormed, decode_htlc-encode_htlc}
use rustblockchain.Contracts.Bridge.Sha256.{simple_sha256, padded, padded-length}
use rustblockchain.Contracts.Bridge.Histories.{
  Setting, Entry, creates, locks, enter, run, claim_htlc_once,
}
use rustblockchain.Contracts.Bridge.Swaps.{
  claim_key, refund_key, swap_at, Refused, claim_htlc_unpaid,
}

-- SHA-256 of "abc".
abc_test :
    simple_sha256 (text "abc")
    ≡ 186 ∷ 120 ∷ 22 ∷ 191 ∷ 143 ∷ 1 ∷ 207 ∷ 234 ∷ 65 ∷ 65 ∷ 64 ∷ 222 ∷ 93 ∷ 174 ∷ 34 ∷ 35 ∷ 176 ∷ 3
      ∷ 97 ∷ 163 ∷ 150 ∷ 23 ∷ 122 ∷ 156 ∷ 180 ∷ 16 ∷ 255 ∷ 97 ∷ 242 ∷ 0 ∷ 21 ∷ 173 ∷ []
unfolding simple_sha256
abc_test = refl

empty_test : take 2 (simple_sha256 []) ≡ 227 ∷ 176 ∷ []
unfolding simple_sha256
empty_test = refl

hex_test : hex_encode_32 (1 ∷ 171 ∷ 255 ∷ []) ≡ text "01abff"
unfolding hex_encode_32
hex_test = refl

padded-length_example :
    (length (padded (text "abc")) % 64 ≡ 0)
    × (length (text "abc") + 9 ≤ length (padded (text "abc")))
    × (length (padded (text "abc")) ≤ length (text "abc") + 72)
padded-length_example = padded-length (text "abc")

abbrev alice : Text
alice = le_bytes 20 1

abbrev bob : Text
bob = le_bytes 20 2

abbrev swap : HtlcData
swap = record { sender = alice; recipient = bob; amount = 500; timelock = 100; status = 0 }

swap-IsWellFormed : IsWellFormed swap
swap-IsWellFormed = record {
  sender_length = length-le_bytes 20 1;
  recipient_length = length-le_bytes 20 2;
  small_amount = omega arith;
  small_timelock = omega arith;
}

decode_htlc-encode_htlc_example : decode_htlc (encode_htlc swap) ≡ some swap
decode_htlc-encode_htlc_example = decode_htlc-encode_htlc swap swap-IsWellFormed

abbrev secret : Text
secret = text "secret"

-- The bridge with the swap; Bob calls, before the swap expires.
abbrev bridge : ℕ → MockEnv
bridge self_balance = record {
  storage = (claim_key secret, encode_htlc swap) ∷ [];
  caller = bob;
  self_addr = [];
  block_number = 1;
  block_timestamp = 50;
  chain_id = 1;
  self_balance = self_balance;
  events = [];
  transfers = [];
}

swap_at_test : swap_at (claim_key secret) (bridge 500) ≡ some swap
unfolding htlc_key hex_encode_32 simple_sha256 encode_htlc decode_htlc le_bytes from_le
swap_at_test = refl

swap_at_poor_test : swap_at (claim_key secret) (bridge 499) ≡ some swap
unfolding htlc_key hex_encode_32 simple_sha256 encode_htlc decode_htlc le_bytes from_le
swap_at_poor_test = refl

claimed_test : (claim_htlc secret (bridge 500)).0 ≡ ok 0
unfolding claim_htlc htlc_key hex_encode_32 simple_sha256 encode_htlc decode_htlc le_bytes from_le
claimed_test = refl

claimed_poor_test : (claim_htlc secret (bridge 499)).0 ≡ ok 0
unfolding claim_htlc htlc_key hex_encode_32 simple_sha256 encode_htlc decode_htlc le_bytes from_le
claimed_poor_test = refl

-- Alice's turn, once Bob has claimed and the swap has expired.
abbrev alices : Setting
alices = record { caller = alice; block_number = 2; block_timestamp = 200; self_balance = 500 }

-- Alice tries to create the swap again, and locks some tokens.
abbrev between : List (Setting × Entry)
between =
    (alices, creates (simple_sha256 secret ++ (bob ++ le_bytes 8 900)))
    ∷ (alices, locks (text "arguments of a call"))
    ∷ []

refund_key_test : refund_key (simple_sha256 secret) ≡ claim_key secret
unfolding simple_sha256
refund_key_test = refl

claim_htlc_once_example :
    let later = enter alices (run (claim_htlc secret (bridge 500)).1 between) in
    Refused (claim_htlc secret later) later
    × Refused (refund_htlc (simple_sha256 secret) later) later
claim_htlc_once_example =
    claim_htlc_once secret secret (simple_sha256 secret) (bridge 500) swap between alices
      swap_at_test swap-IsWellFormed claimed_test refl refund_key_test

claim_htlc_unpaid_example :
    let s = (claim_htlc secret (bridge 499)).1 in
    (s.transfers ≡ [])
    × (storage_read (claim_key secret) s ≡ some (encode_htlc (record swap { status = 1 })))
claim_htlc_unpaid_example =
    claim_htlc_unpaid secret (bridge 499) swap swap_at_poor_test claimed_poor_test (omega arith)

-- Alice sends 30 of her 100 tokens to Bob.
abbrev token : MockEnv
token = write_u64 (balance_key alice) 100 (record (bridge 0) { storage = []; caller = alice })

abbrev order : Text
order = bob ++ le_bytes 8 30

amount_test : amount_of order ≡ 30
unfolding le_bytes from_le
amount_test = refl

length_test : length order ≡ 28
unfolding le_bytes
length_test = refl

recipient_test : take 20 order ≡ bob
unfolding le_bytes
recipient_test = refl

balances_test : (balance alice token ≡ 100) × (balance (take 20 order) token ≡ 0)
unfolding read_u64 write_u64 balance_key le_bytes from_le
balances_test = (refl, refl)

apart_test : (alice ≢ take 20 order) × ([] ≢ alice) × ([] ≢ take 20 order)
unfolding le_bytes
apart_test = (λ e. ground arith, λ e. ground arith, λ e. ground arith)

transfer_tokens_lem_example :
    let s = (transfer_tokens order token).1 in
    (balance alice s + amount_of order ≡ balance alice token)
    × (balance (take 20 order) s ≡ balance (take 20 order) token + amount_of order)
    × (balance [] s ≡ balance [] token)
unfolding from_le read_u64 le_bytes write_u64
transfer_tokens_lem_example =
    transfer_tokens_lem order [] token (omega (arith, length_test))
      (omega (arith, amount_test, balances_test.0)) (omega (arith, balances_test.0))
      (omega (arith, amount_test, balances_test.1)) apart_test.0 apart_test.1 apart_test.2
