-- ===== src/Vm/Gas/Metering.antt =====
-- What a sequence of charges to the meter of crates/vm/src/gas.rs adds up to.
use Prim.Native.Nat.{min}
use rustblockchain.Base.{
  ℕ, ◌+◌, ◌-◌, ◌≤◌, ◌<◌, ◌≡◌, ◌⊎◌, ap, inl, inr, false, List, [], ◌∷◌, arith, u64_mod, sum_by,
  Bool-cases, ltb,
}
use rustblockchain.Base.Result.{ok, is_ok}
use rustblockchain.Base.Action.{Action, pure, ◌>>◌}
use rustblockchain.Vm.Error.{VmError}
use rustblockchain.Vm.Gas.{GasMeter, consume, remaining}

-- The charges of a call, in order, up to the first that the limit does not cover.
abbrev pub charge : List ℕ → Action VmError GasMeter (Unit {0})
charge [] = pure tt
charge (a ∷ amounts) = consume a >> charge amounts

abbrev total : List ℕ → ℕ
total amounts = sum_by (λ a. a) amounts

-- A charge succeeds exactly when the gas that is left covers it. Stated for a meter that has not
-- consumed more than its limit, and a limit below the largest 64-bit number.
pub consume_cases :
    (a : ℕ) (m : GasMeter)
    → m.consumed ≤ m.limit
    → m.limit + 1 < u64_mod
    → ((a ≤ remaining m) × (consume a m ≡ (ok tt, record m { consumed = m.consumed + a })))
      ⊎ ((remaining m < a)
          × (is_ok (consume a m).0 ≡ false)
          × ((consume a m).1 ≡ record m { consumed = m.limit }))
unfolding consume remaining
consume_cases a m v f = elim (Bool-cases (ltb m.limit (min (m.consumed + a) (u64_mod - 1)))) [
  | inl e ↦ inr (ground arith)
  | inr e ↦ inl (ground arith)
]

-- The charges of a call succeed exactly when the gas that is left covers their sum, and the meter
-- then has consumed exactly that sum more; otherwise all the gas is gone. Stated for a meter that
-- has not consumed more than its limit, and a limit below the largest 64-bit number.
pub charge-total :
    (amounts : List ℕ) (m : GasMeter)
    → m.consumed ≤ m.limit
    → m.limit + 1 < u64_mod
    → ((total amounts ≤ remaining m)
        × (charge amounts m ≡ (ok tt, record m { consumed = m.consumed + total amounts })))
      ⊎ ((remaining m < total amounts)
          × (is_ok (charge amounts m).0 ≡ false)
          × ((charge amounts m).1 ≡ record m { consumed = m.limit }))
unfolding remaining
charge-total [] m v f =
    inl (omega arith, ap (λ n. (ok tt, record m { consumed = n })) (sum m.consumed))
  where
    sum : (n : ℕ) → n ≡ n + 0
    sum n = omega arith
charge-total (a ∷ amounts) m v f = elim (consume_cases a m v f) [
  | inr (short, bad, r) ↦ inr (ground arith)
  | inl (enough, r) ↦
      elim (charge-total amounts (record m { consumed = m.consumed + a }) (ground arith) f) [
        | inl (fits, s) ↦ inl (ground arith)
        | inr (short, bad, s) ↦ inr (ground arith)
      ]
]
