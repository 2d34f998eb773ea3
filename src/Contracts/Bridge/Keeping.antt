-- ===== src/Contracts/Bridge/Keeping.antt =====
-- The entry points of contracts/bridge/src/lib.rs that are not about swaps: what they leave of the swaps
-- in the contract's storage.
use rustblockchain.Base.{
  ◌+◌, ◌/◌, ◌==◌, add64, add128, sub128, mul128, saturating_sub, ℕ, ◌≡◌, ◌≢◌, inl, inr, refl, ◌∙◌,
  Bool, true, false, arith, take, ltb, length, nat_eq, is_some, Bool-cases,
}
use rustblockchain.Base.Dict.{lookup-insert_ne}
use rustblockchain.Base.Bytes.{from_le}
use rustblockchain.Base.Text.{Text, text, text_eq}
use rustblockchain.Base.Result.{Result-cases}
use rustblockchain.Base.Action.{pure, gets, modify, ◌>>=◌, ◌>>◌}
use rustblockchain.Contracts.Sdk.{
  MockEnv, Contract, storage_read, storage_write, emit_event, fail_if, refuse_if,
}
use rustblockchain.Contracts.Sdk.Words.{read_u64, write_u64, read_u128, write_u128, write_bool}
use rustblockchain.Contracts.Bridge.{
  require_owner, require_not_paused, htlc_key, locked_key, wrapped_balance_key, wrapped_supply_key,
  validator_key, init, create_htlc, bridge_lock, bridge_mint, bridge_burn, add_validator,
  remove_validator, pause, unpause, count_down, must_have, slice, hex_encode_32, encode_htlc,
}

module _ (lock : Text) where
  pub record Keeps {A : Type 0} (act : Contract A) : Type 0 where
    pub kept :
        (s : MockEnv) → storage_read (htlc_key lock) (act s).1 ≡ storage_read (htlc_key lock) s

  bind-Keeps :
      {A B : Type 0} {act : Contract A} {f : A → Contract B}
      → Keeps act
      → ((a : A) → Keeps (f a))
      → Keeps (act >>= f)
  bind-Keeps {A} {B} {act} {f} p q = record {
    kept = λ s. elim (Result-cases (act s).0) [
      | inl (a, e) ↦ rw (◌>>=◌, e) ((q a).kept (act s).1 ∙ p.kept s)
      | inr (x, e) ↦ rw (◌>>=◌, e) (p.kept s)
    ];
  }

  then-Keeps :
      {A B : Type 0} {act : Contract A} {next : Contract B}
      → Keeps act
      → Keeps next
      → Keeps (act >> next)
  then-Keeps p q = bind-Keeps p (λ a. q)

  gets-Keeps : {A : Type 0} (f : MockEnv → A) → Keeps (gets f)
  gets-Keeps f = record { kept = λ s. refl }

  write-Keeps :
      (key : Text) (value : MockEnv → Text)
      → key ≢ htlc_key lock
      → Keeps (modify (λ s. storage_write key (value s) s))
  write-Keeps key value ne = record {
    kept = λ s. lookup-insert_ne (htlc_key lock) key (value s) s.storage ne;
  }

  write_u64-Keeps : (key : Text) (n : ℕ) → key ≢ htlc_key lock → Keeps (modify (write_u64 key n))
  unfolding write_u64
  write_u64-Keeps key n ne = record {
    kept = λ s. lookup-insert_ne (htlc_key lock) key _ s.storage ne;
  }

  write_bool-Keeps :
      (key : Text) (b : Bool) → key ≢ htlc_key lock → Keeps (modify (write_bool key b))
  unfolding write_bool
  write_bool-Keeps key b ne = record {
    kept = λ s. lookup-insert_ne (htlc_key lock) key _ s.storage ne;
  }

  write_u128-Keeps : (key : Text) (n : ℕ) → key ≢ htlc_key lock → Keeps (modify (write_u128 key n))
  unfolding write_u128
  write_u128-Keeps key n ne = record {
    kept = λ s. lookup-insert_ne (htlc_key lock) key _ s.storage ne;
  }

  emit-Keeps : {A : Type 0} (event : Text) (a : A) → Keeps (modify (emit_event event) >> pure a)
  emit-Keeps event a = record { kept = λ s. refl }

  fail_if-Keeps : (b : Bool) → Keeps (fail_if b)
  fail_if-Keeps true = record { kept = λ s. refl }
  fail_if-Keeps false = record { kept = λ s. refl }

  refuse_if-Keeps : (b : Bool) (event : Text) → Keeps (refuse_if b event)
  refuse_if-Keeps true event = record { kept = λ s. refl }
  refuse_if-Keeps false event = record { kept = λ s. refl }

  require_owner-Keeps : Keeps require_owner
  unfolding require_owner
  require_owner-Keeps = record { kept = λ s. refl }

  require_not_paused-Keeps : Keeps require_not_paused
  unfolding require_not_paused
  require_not_paused-Keeps = record { kept = λ s. refl }

  validator_key_ne : (a : Text) → validator_key a ≢ htlc_key lock
  unfolding validator_key htlc_key
  validator_key_ne a e = absurd (ground (arith, e))

  owner_ne : text "owner" ≢ htlc_key lock
  unfolding htlc_key
  owner_ne e = absurd (ground (arith, e))

  paused_ne : text "paused" ≢ htlc_key lock
  unfolding htlc_key
  paused_ne e = absurd (ground (arith, e))

  count_ne : text "validator_count" ≢ htlc_key lock
  unfolding htlc_key
  count_ne e = absurd (ground (arith, e))

  htlc_count_ne : text "htlc_count" ≢ htlc_key lock
  unfolding htlc_key
  htlc_count_ne e = absurd (ground (arith, e))

  signatures_ne : text "min_signatures" ≢ htlc_key lock
  unfolding htlc_key
  signatures_ne e = absurd (ground (arith, e))

  fee_ne : text "fee_bps" ≢ htlc_key lock
  unfolding htlc_key
  fee_ne e = absurd (ground (arith, e))

  locked_key_ne : (chain token : Text) → locked_key chain token ≢ htlc_key lock
  unfolding locked_key htlc_key
  locked_key_ne chain token e = absurd (ground (arith, e))

  wrapped_balance_key_ne :
      (chain token addr : Text) → wrapped_balance_key chain token addr ≢ htlc_key lock
  unfolding wrapped_balance_key htlc_key
  wrapped_balance_key_ne chain token addr e = absurd (ground (arith, e))

  wrapped_supply_key_ne : (chain token : Text) → wrapped_supply_key chain token ≢ htlc_key lock
  unfolding wrapped_supply_key htlc_key
  wrapped_supply_key_ne chain token e = absurd (ground (arith, e))

  must_have-Keeps : (last : ℕ) (args : Text) → Keeps (must_have last args)
  must_have-Keeps last args = record { kept = λ s. refl }

  count_down-Keeps : (count : ℕ) → Keeps (modify (count_down count))
  unfolding write_u64
  count_down-Keeps count = record {
    kept = λ s. elim (Bool-cases (ltb 0 count)) [
      | inl q ↦ rw (count_down, q) (lookup-insert_ne (htlc_key lock) _ _ s.storage count_ne)
      | inr q ↦ rw (count_down, q) refl
    ];
  }

  pub init-Keeps : Keeps init
  unfolding init
  init-Keeps = bind-Keeps (gets-Keeps (λ s. s.caller)) (λ owner.
      then-Keeps (write-Keeps (text "owner") (λ s. owner) owner_ne) (
        then-Keeps (write_bool-Keeps (text "paused") false paused_ne) (
          then-Keeps (write_u64-Keeps (text "htlc_count") 0 htlc_count_ne) (
            then-Keeps (write_u64-Keeps (text "validator_count") 0 count_ne) (
              then-Keeps (write_u64-Keeps (text "min_signatures") 2 signatures_ne) (
                then-Keeps (write_u64-Keeps (text "fee_bps") 10 fee_ne)
                  (emit-Keeps (text "BridgeInitialized") 0)))))))

  pub bridge_lock-Keeps : (args : Text) → Keeps (bridge_lock args)
  unfolding bridge_lock
  bridge_lock-Keeps args =
      let chain_len = from_le (take 4 args) in
      let offset = 4 + chain_len in
      let token_len = from_le (slice offset 4 args) in
      let offset2 = offset + 4 + token_len in
      let chain = slice 4 chain_len args in
      let token = slice (offset + 4) token_len args in
      let key = locked_key chain token in
      then-Keeps require_not_paused-Keeps (
        then-Keeps (refuse_if-Keeps (ltb (length args) 12) (text "BridgeLockFailed:InvalidArgs")) (
          then-Keeps (fail_if-Keeps (ltb (length args) (4 + chain_len + 4))) (
            then-Keeps (fail_if-Keeps (ltb (length args) (offset + 4 + token_len + 4))) (
              then-Keeps
                (fail_if-Keeps (ltb (length args) (offset2 + 4 + from_le (slice offset2 4 args))))
                (bind-Keeps (gets-Keeps (λ s. s.self_balance)) (λ amount.
                  then-Keeps (refuse_if-Keeps (amount == 0) (text "BridgeLockFailed:ZeroAmount")) (
                    bind-Keeps (gets-Keeps (read_u64 (text "fee_bps"))) (λ fee_bps.
                      bind-Keeps (gets-Keeps (read_u128 key)) (λ current.
                        then-Keeps
                          (write_u128-Keeps key
                            (add128 current (sub128 amount (mul128 amount fee_bps / 10000)))
                            (locked_key_ne chain token))
                          (emit-Keeps (text "BridgeLocked") 0))))))))))

  pub bridge_mint-Keeps : (args : Text) → Keeps (bridge_mint args)
  unfolding bridge_mint
  bridge_mint-Keeps args =
      let chain_len = from_le (take 4 args) in
      let offset = 4 + chain_len in
      let token_len = from_le (slice offset 4 args) in
      let offset2 = offset + 4 + token_len in
      let chain = slice 4 chain_len args in
      let token = slice (offset + 4) token_len args in
      let to = slice offset2 20 args in
      let amount = from_le (slice (offset2 + 20) 16 args) in
      then-Keeps require_owner-Keeps (
        then-Keeps require_not_paused-Keeps (
          then-Keeps (fail_if-Keeps (ltb (length args) 44)) (
            then-Keeps (must_have-Keeps (offset + 4) args) (
              then-Keeps (must_have-Keeps (offset2 + 36) args) (
                bind-Keeps (gets-Keeps (read_u128 (wrapped_balance_key chain token to))) (λ current.
                  then-Keeps
                    (write_u128-Keeps (wrapped_balance_key chain token to) (add128 current amount)
                      (wrapped_balance_key_ne chain token to))
                    (bind-Keeps (gets-Keeps (read_u128 (wrapped_supply_key chain token))) (λ supply.
                      then-Keeps
                        (write_u128-Keeps (wrapped_supply_key chain token) (add128 supply amount)
                          (wrapped_supply_key_ne chain token))
                        (emit-Keeps (text "WrappedMinted") 0)))))))))

  pub bridge_burn-Keeps : (args : Text) → Keeps (bridge_burn args)
  unfolding bridge_burn
  bridge_burn-Keeps args =
      let chain_len = from_le (take 4 args) in
      let offset = 4 + chain_len in
      let token_len = from_le (slice offset 4 args) in
      let offset2 = offset + 4 + token_len in
      let chain = slice 4 chain_len args in
      let token = slice (offset + 4) token_len args in
      let amount = from_le (slice offset2 16 args) in
      then-Keeps require_not_paused-Keeps (
        then-Keeps (fail_if-Keeps (ltb (length args) 28)) (
          then-Keeps (must_have-Keeps (offset + 4) args) (
            then-Keeps (must_have-Keeps (offset2 + 16) args) (
              bind-Keeps (gets-Keeps (λ s. s.caller)) (λ from.
                bind-Keeps (gets-Keeps (read_u128 (wrapped_balance_key chain token from)))
                  (λ balance.
                    then-Keeps
                      (refuse_if-Keeps (ltb balance amount) (text "BurnFailed:InsufficientBalance"))
                      (then-Keeps
                        (write_u128-Keeps (wrapped_balance_key chain token from)
                          (sub128 balance amount) (wrapped_balance_key_ne chain token from))
                        (bind-Keeps (gets-Keeps (read_u128 (wrapped_supply_key chain token)))
                          (λ supply.
                            then-Keeps
                              (write_u128-Keeps (wrapped_supply_key chain token)
                                (saturating_sub supply amount) (wrapped_supply_key_ne chain token))
                              (emit-Keeps (text "WrappedBurned") 0))))))))))

  pub add_validator-Keeps : (args : Text) → Keeps (add_validator args)
  unfolding add_validator
  add_validator-Keeps args = then-Keeps require_owner-Keeps (
      then-Keeps (fail_if-Keeps (ltb (length args) 20)) (
        then-Keeps
          (write_bool-Keeps (validator_key (take 20 args)) true (validator_key_ne (take 20 args)))
          (bind-Keeps (gets-Keeps (read_u64 (text "validator_count"))) (λ count.
            then-Keeps (write_u64-Keeps (text "validator_count") (add64 count 1) count_ne)
              (emit-Keeps (text "ValidatorAdded") 0)))))

  pub remove_validator-Keeps : (args : Text) → Keeps (remove_validator args)
  unfolding remove_validator
  remove_validator-Keeps args = then-Keeps require_owner-Keeps (
      then-Keeps (fail_if-Keeps (ltb (length args) 20)) (
        then-Keeps
          (write_bool-Keeps (validator_key (take 20 args)) false (validator_key_ne (take 20 args)))
          (bind-Keeps (gets-Keeps (read_u64 (text "validator_count"))) (λ count.
            then-Keeps (count_down-Keeps count) (emit-Keeps (text "ValidatorRemoved") 0)))))

  pub pause-Keeps : Keeps pause
  unfolding pause
  pause-Keeps = then-Keeps require_owner-Keeps (
      then-Keeps (write_bool-Keeps (text "paused") true paused_ne)
        (emit-Keeps (text "BridgePaused") 0))

  pub unpause-Keeps : Keeps unpause
  unfolding unpause
  unpause-Keeps = then-Keeps require_owner-Keeps (
      then-Keeps (write_bool-Keeps (text "paused") false paused_ne)
        (emit-Keeps (text "BridgeUnpaused") 0))

  -- A new swap under another hash.
  pub create_htlc-Keeps :
      (args : Text)
      → htlc_key (hex_encode_32 (take 32 args)) ≢ htlc_key lock
      → Keeps (create_htlc args)
  unfolding create_htlc
  create_htlc-Keeps args ne =
      let key = htlc_key (hex_encode_32 (take 32 args)) in
      then-Keeps require_not_paused-Keeps (
        then-Keeps (refuse_if-Keeps (ltb (length args) 60) (text "HTLCFailed:InvalidArgs")) (
          bind-Keeps (gets-Keeps (λ s. s.caller)) (λ from.
            bind-Keeps (gets-Keeps (λ s. s.self_balance)) (λ amount.
              then-Keeps (refuse_if-Keeps (amount == 0) (text "HTLCFailed:ZeroAmount")) (
                bind-Keeps (gets-Keeps (storage_read key)) (λ known.
                  then-Keeps (refuse_if-Keeps (is_some known) (text "HTLCFailed:AlreadyExists")) (
                    then-Keeps
                      (write-Keeps key
                        (λ s. encode_htlc (record {
                          sender = from;
                          recipient = slice 32 20 args;
                          amount = amount;
                          timelock = from_le (slice 52 8 args);
                          status = 0;
                        }))
                        ne)
                      (bind-Keeps (gets-Keeps (read_u64 (text "htlc_count"))) (λ count.
                        then-Keeps
                          (write_u64-Keeps (text "htlc_count") (add64 count 1) htlc_count_ne)
                          (emit-Keeps (text "HTLCCreated") 0))))))))))
