-- ===== src/Bridge/Types.antt =====
-- crates/bridge/src/types.rs and error.rs. An address is the number of its 20 bytes and a hash the
-- number of its 32, since the bridge only compares them.
use rustblockchain.Base.{
  ℕ, Bool, true, false, ◌||◌, Option, none, some, List, [], ◌∷◌, if◌then◌else◌, Eq, ◌==◌, nat_eq,
  ◌≡◌, ◌↔◌, arith,
}
use rustblockchain.Base.Text.{Text, text, text_eq, to_lowercase}

pub data ExternalChain : Type 0 where
  bitcoin ethereum bnb_chain polygon solana : ExternalChain

unfoldable pub name : ExternalChain → Text
name bitcoin = text "Bitcoin"
name ethereum = text "Ethereum"
name bnb_chain = text "BNB Chain"
name polygon = text "Polygon"
name solana = text "Solana"

unfoldable pub symbol : ExternalChain → Text
symbol bitcoin = text "BTC"
symbol ethereum = text "ETH"
symbol bnb_chain = text "BNB"
symbol polygon = text "MATIC"
symbol solana = text "SOL"

unfoldable pub chain_id : ExternalChain → ℕ
chain_id bitcoin = 0
chain_id ethereum = 1
chain_id bnb_chain = 56
chain_id polygon = 137
chain_id solana = 501

unfoldable pub is_evm : ExternalChain → Bool
is_evm ethereum = true
is_evm bnb_chain = true
is_evm polygon = true
is_evm _ = false

unfoldable pub address_length : ExternalChain → ℕ
address_length bitcoin = 34
address_length solana = 32
address_length _ = 20

abbrev pub all_chains : List ExternalChain
all_chains = bitcoin ∷ ethereum ∷ bnb_chain ∷ polygon ∷ solana ∷ []

-- Lower case is taken on ASCII bytes: no other character's lower case is a letter of these words.
unfoldable pub from_name : Text → Option ExternalChain
from_name s =
    let l = to_lowercase s in
    if l == text "bitcoin" || l == text "btc"
    then some bitcoin
    else if l == text "ethereum" || l == text "eth"
    then some ethereum
    else if l == text "bnb" || (l == text "bnbchain" || (l == text "bsc" || l == text "binance"))
    then some bnb_chain
    else if l == text "polygon" || l == text "matic"
    then some polygon
    else if l == text "solana" || l == text "sol"
    then some solana
    else none

pub record BridgeToken : Type 0 where
  pub token_symbol : Text
  pub token_name : Text
  pub decimals : ℕ
  pub origin_chain : ExternalChain
  pub external_address : Text
  pub enabled : Bool
  pub min_amount : ℕ
  pub max_amount : ℕ
  pub fee_bps : ℕ

pub data BridgeDirection : Type 0 where
  inbound outbound : BridgeDirection

pub data BridgeTransferStatus : Type 0 where
  pending source_confirmed relay_submitted validated completed failed expired refunded :
      BridgeTransferStatus

pub record BridgeTransfer : Type 0 where
  pub id : Text
  pub direction : BridgeDirection
  pub source_chain : Text
  pub dest_chain : Text
  pub sender : Text
  pub recipient : Text
  pub token_symbol : Text
  pub amount : ℕ
  pub fee : ℕ
  pub status : BridgeTransferStatus
  pub source_tx_hash : Option Text
  pub dest_tx_hash : Option Text
  pub confirmations : ℕ
  pub required_confirmations : ℕ
  pub created_at : ℕ
  pub updated_at : ℕ
  pub expires_at : ℕ

pub data HtlcStatus : Type 0 where
  active claimed refunded expired : HtlcStatus

pub record BridgeFeeSchedule : Type 0 where
  pub chain : ExternalChain
  pub token_symbol : Text
  pub fee_bps : ℕ
  pub min_fee : ℕ
  pub estimated_gas_cost : Text

pub record BridgeLiquidity : Type 0 where
  pub chain : ExternalChain
  pub token_symbol : Text
  pub locked_amount : ℕ
  pub wrapped_supply : ℕ
  pub available_outbound : ℕ

pub record BridgeConfig : Type 0 where
  pub enabled : Bool
  pub min_signatures : ℕ
  pub htlc_timelock_seconds : ℕ
  pub transfer_timeout_seconds : ℕ
  pub operator : ℕ
  pub accept_inbound : Bool
  pub allow_outbound : Bool

abbrev pub default_config : BridgeConfig
default_config = record {
  enabled = true;
  min_signatures = 2;
  htlc_timelock_seconds = 3600;
  transfer_timeout_seconds = 86400;
  operator = 0;
  accept_inbound = true;
  allow_outbound = true;
}

pub data BridgeError : Type 0 where
  unsupported_chain invalid_amount htlc_not_found htlc_already_exists : Text → BridgeError
  htlc_expired htlc_not_expired htlc_already_claimed htlc_already_refunded : BridgeError
  invalid_preimage : BridgeError
  unauthorized transfer_not_found : Text → BridgeError
  transfer_already_processed insufficient_liquidity : BridgeError
  insufficient_signatures : ℕ → ℕ → BridgeError
  invalid_signature : BridgeError
  adapter_error : Text → BridgeError
  bridge_paused : BridgeError
  below_minimum above_maximum : ℕ → ℕ → BridgeError
  storage serialization : Text → BridgeError

-- The derived equality tests.
abbrev pub htlc_status_code : HtlcStatus → ℕ
htlc_status_code active = 0
htlc_status_code claimed = 1
htlc_status_code refunded = 2
htlc_status_code HtlcStatus.expired = 3

abbrev pub transfer_status_code : BridgeTransferStatus → ℕ
transfer_status_code pending = 0
transfer_status_code source_confirmed = 1
transfer_status_code relay_submitted = 2
transfer_status_code validated = 3
transfer_status_code completed = 4
transfer_status_code failed = 5
transfer_status_code BridgeTransferStatus.expired = 6
transfer_status_code BridgeTransferStatus.refunded = 7

abbrev pub chain_code : ExternalChain → ℕ
chain_code bitcoin = 0
chain_code ethereum = 1
chain_code bnb_chain = 2
chain_code polygon = 3
chain_code solana = 4

pub htlc_status_beq_iff :
    (a b : HtlcStatus) → ((htlc_status_code a == htlc_status_code b) ≡ true) ↔ (a ≡ b)
htlc_status_beq_iff a b = ground arith

pub transfer_status_beq_iff :
    (a b : BridgeTransferStatus)
    → ((transfer_status_code a == transfer_status_code b) ≡ true) ↔ (a ≡ b)
transfer_status_beq_iff a b = ground arith

pub chain_beq_iff : (a b : ExternalChain) → ((chain_code a == chain_code b) ≡ true) ↔ (a ≡ b)
chain_beq_iff a b = ground arith

instance abbrev pub htlc_status_eq : Eq HtlcStatus
htlc_status_eq = record {
  equal = λ a b. htlc_status_code a == htlc_status_code b;
  equal_iff = htlc_status_beq_iff;
}

instance abbrev pub transfer_status_eq : Eq BridgeTransferStatus
transfer_status_eq = record {
  equal = λ a b. transfer_status_code a == transfer_status_code b;
  equal_iff = transfer_status_beq_iff;
}

instance abbrev pub chain_eq : Eq ExternalChain
chain_eq = record { equal = λ a b. chain_code a == chain_code b; equal_iff = chain_beq_iff }
