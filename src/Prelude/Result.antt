-- ===== src/Prelude/Result.antt =====
-- Code that changes a state and may raise: what was written before the raise stays written, so the
-- state comes back beside the error too. A database transaction gives the old state back instead.
use mathlib.Core.Path.{◌≡◌}
use mathlib.Core.Path.{◌≡◌, ap, refl}
use mathlib.Core.Bool.{Bool, true, false}
use mathlib.Core.Logic.{◌⊎◌, inl, inr}

pub data Result {ℓ} (E A : Type ℓ) : Type ℓ where
  ok : A → Result E A
  err : E → Result E A

-- To split on a computed result and keep the equation.
pub Result-cases {ℓ} :
    {E A : Type ℓ} (r : Result E A) → ((e : E) × (r ≡ err e)) ⊎ ((a : A) × (r ≡ ok a))
Result-cases (ok a) = inr (a, refl)
Result-cases (err e) = inl (e, refl)

abbrev pub Exec {ℓ} : Type ℓ → Type ℓ → Type ℓ → Type ℓ
Exec E S A = S → Result E A × S

module _ {ℓ} {E S : Type ℓ} where
  abbrev pub pure : {A : Type ℓ} → A → Exec E S A
  pure a s = (ok a, s)

  abbrev pub raise : {A : Type ℓ} → E → Exec E S A
  raise e s = (err e, s)

  abbrev pub gets : {A : Type ℓ} → (S → A) → Exec E S A
  gets f s = (ok (f s), s)

  abbrev pub modify : (S → S) → Exec E S (Unit {ℓ})
  modify f s = (ok tt, f s)

  infixl 5 ◌>>=◌ ◌>>◌
  abbrev pub ◌>>=◌ : {A B : Type ℓ} → Exec E S A → (A → Exec E S B) → Exec E S B
  ◌>>=◌ m f s = let s' = (m s).1 in elim (m s).0 [ ok a ↦ f a s' | err e ↦ (err e, s') ]

  abbrev pub ◌>>◌ : {A B : Type ℓ} → Exec E S A → Exec E S B → Exec E S B
  m >> k = m >>= λ _. k

  -- `if test: raise error`.
  abbrev pub refuse_if : Bool → E → Exec E S (Unit {ℓ})
  refuse_if true e s = (err e, s)
  refuse_if false e s = (ok tt, s)

  -- `async with sessions() as session: ... await session.commit()`: a raise rolls back.
  abbrev pub transaction : {A : Type ℓ} → Exec E S A → Exec E S A
  transaction m s = let s' = (m s).1 in elim (m s).0 [ ok a ↦ (ok a, s') | err e ↦ (err e, s) ]

module _ {ℓ} {E S A B : Type ℓ} where
  -- What `>>=` makes of the outcome of its first action.
  abbrev pub go_on : (A → Exec E S B) → Result E A × S → Result E B × S
  go_on f out = let s' = out.1 in elim out.0 [ ok a ↦ f a s' | err e ↦ (err e, s') ]

  pub bind_ok :
      (m : Exec E S A) (f : A → Exec E S B) {s s' : S} {a : A}
      → m s ≡ (ok a, s')
      → (m >>= f) s ≡ f a s'
  bind_ok m f h = ap (go_on f) h

  pub bind_err :
      (m : Exec E S A) (f : A → Exec E S B) {s s' : S} {e : E}
      → m s ≡ (err e, s')
      → (m >>= f) s ≡ (err e, s')
  bind_err m f h = ap (go_on f) h

module _ {ℓ} {E S A : Type ℓ} where
  pub transaction_err :
      (m : Exec E S A) {s s' : S} {e : E} → m s ≡ (err e, s') → transaction m s ≡ (err e, s)
  transaction_err m {s} h =
      ap
        (λ (out : Result E A × S). elim out.0 as (λ _. Result E A × S) [
          | ok a ↦ (Result.ok a, out.1)
          | err e ↦ (err e, s)
        ])
        h

  pub transaction_ok :
      (m : Exec E S A) {s s' : S} {a : A} → m s ≡ (ok a, s') → transaction m s ≡ (ok a, s')
  transaction_ok m {s} h =
      ap
        (λ (out : Result E A × S). elim out.0 as (λ _. Result E A × S) [
          | ok a ↦ (Result.ok a, out.1)
          | err e ↦ (err e, s)
        ])
        h
