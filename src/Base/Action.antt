-- ===== src/Base/Action.antt =====
-- A method on a component: it reads and writes the component's state and may return an error. The
-- state comes back with an error too, since what was written before it stays written.
use rustblockchain.Base.{Bool, Option}
use rustblockchain.Base.Result.{Result, ok, err, ok_or, err_if}

abbrev pub Action {ℓ κ μ} : Type ℓ → Type κ → Type μ → Type (ℓ ⊔ κ ⊔ μ)
Action E S A = S → Result E A × S

module _ {ℓ κ μ} {E : Type ℓ} {S : Type κ} {A : Type μ} where
  abbrev pub pure : A → Action E S A
  pure a s = (ok a, s)

  abbrev pub raise : E → Action E S A
  raise e s = (err e, s)

  abbrev pub gets : (S → A) → Action E S A
  gets f s = (ok (f s), s)

  -- `.ok_or(e)?`
  abbrev pub or_raise : Option A → E → Action E S A
  or_raise o e s = (ok_or o e, s)

  -- `?` on a result that was computed without the state.
  abbrev pub from_result : Result E A → Action E S A
  from_result r s = (r, s)

module _ {ℓ κ} {E : Type ℓ} {S : Type κ} where
  -- An early return of an error.
  abbrev pub raise_if : Bool → E → Action E S (Unit {0})
  raise_if c e s = (err_if c e, s)

  abbrev pub modify : (S → S) → Action E S (Unit {0})
  modify f s = (ok tt, f s)

infixl 5 ◌>>=◌ ◌>>◌
abbrev pub ◌>>=◌ {ℓ κ μ ν} :
    {E : Type ℓ} {S : Type κ} {A : Type μ} {B : Type ν}
    → Action E S A
    → (A → Action E S B)
    → Action E S B
◌>>=◌ m f s = let (r, s') = m s in elim r [ ok a ↦ f a s' | err e ↦ (err e, s') ]

abbrev pub ◌>>◌ {ℓ κ μ ν} :
    {E : Type ℓ} {S : Type κ} {A : Type μ} {B : Type ν} → Action E S A → Action E S B → Action E S B
m >> k = m >>= λ _. k
