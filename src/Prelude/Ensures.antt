-- ===== src/Prelude/Ensures.antt =====
-- What holds after code that changes a state and may raise, for the proofs about such code.
use mathlib.Core.Path.{◌≡◌, refl, sym, subst}
use mathlib.Core.Bool.{Bool, true, false}
use auto_scholar.Prelude.Tests.{if◌then◌else◌}
use auto_scholar.Prelude.Result.{
  Result, ok, err, Exec, pure, raise, gets, refuse_if, transaction, go_on, ◌>>=◌,
}

-- A normal return has Q; a raise has nothing to answer for.
abbrev pub After : {E S A : Type 0} → (A → S → Type 0) → Result E A × S → Type 0
After Q (ok a, s) = Q a s
After Q (err e, s) = Unit {0}

-- From a state with P, a normal return gives a result and a state with Q.
pub record Ensures {E S A : Type 0} (P : S → Type 0) (m : Exec E S A) (Q : A → S → Type 0)
    : Type 0 where
  pub holds : (s : S) → P s → After Q (m s)

module _ {E S A : Type 0} where
  After-go_on :
      {B : Type 0} (Q : A → S → Type 0) (R : B → S → Type 0) (f : A → Exec E S B)
      → ((a : A) (s : S) → Q a s → After R (f a s))
      → (out : Result E A × S) → After Q out
      → After R (go_on f out)
  After-go_on Q R f next (ok a, s) q = next a s q
  After-go_on Q R f next (err e, s) q = tt

  pub Ensures-bind :
      {B : Type 0} {P : S → Type 0} {Q : A → S → Type 0} {R : B → S → Type 0} {m : Exec E S A}
      {f : A → Exec E S B}
      → Ensures P m Q
      → ((a : A) → Ensures (Q a) (f a) R)
      → Ensures P (m >>= f) R
  Ensures-bind {Q = Q} {R} {f = f} first next = record {
    holds = λ s p. After-go_on Q R f (λ a s' q. (next a).holds s' q) _ (first.holds s p);
  }

  pub Ensures-pure :
      {P : S → Type 0} {Q : A → S → Type 0} (a : A)
      → ((s : S) → P s → Q a s)
      → Ensures P (pure {E = E} a) Q
  Ensures-pure a h = record { holds = h }

  pub Ensures-raise : {P : S → Type 0} {Q : A → S → Type 0} (e : E) → Ensures P (raise {A = A} e) Q
  Ensures-raise e = record { holds = λ s p. tt }

  pub Ensures-gets :
      {P : S → Type 0} {Q : A → S → Type 0} (f : S → A)
      → ((s : S) → P s → Q (f s) s)
      → Ensures P (gets {E = E} f) Q
  Ensures-gets f h = record { holds = h }

  pub Ensures-weaken :
      {P P' : S → Type 0} {Q Q' : A → S → Type 0} {m : Exec E S A}
      → Ensures P m Q
      → ((s : S) → P' s → P s)
      → ((a : A) (s : S) → Q a s → Q' a s)
      → Ensures P' m Q'
  Ensures-weaken {Q = Q} {Q' = Q'} {m} inner before after = record {
    holds = λ s p. weaken (m s) (inner.holds s (before s p));
  }
    where
      weaken : (out : Result E A × S) → After Q out → After Q' out
      weaken (ok a, s) q = after a s q
      weaken (err e, s) q = tt

  pub Ensures-transaction :
      {P : S → Type 0} {Q : A → S → Type 0} {m : Exec E S A}
      → Ensures P m Q
      → Ensures P (transaction m) Q
  Ensures-transaction {Q = Q} {m} h = record { holds = λ s p. kept s (m s) (h.holds s p) }
    where
      kept :
          (s : S) (out : Result E A × S)
          → After Q out
          → After Q (elim out.0 as (λ _. Result E A × S) [
            | ok a ↦ (Result.ok a, out.1)
            | err e ↦ (err e, s)
          ])
      kept s (ok a, s') q = q
      kept s (err e, s') q = tt

  -- What does not depend on the state may be used as a hypothesis.
  pub Ensures-assume :
      {P : S → Type 0} {F : Type 0} {Q : A → S → Type 0} {m : Exec E S A}
      → (F → Ensures P m Q)
      → Ensures (λ s. P s × F) m Q
  Ensures-assume h = record { holds = λ s (p, f). (h f).holds s p }

  pub Ensures-if :
      {P : S → Type 0} {Q : A → S → Type 0} {m k : Exec E S A} (test : Bool)
      → (test ≡ true → Ensures P m Q)
      → (test ≡ false → Ensures P k Q)
      → Ensures P (if test then m else k) Q
  Ensures-if true on_true on_false = on_true refl
  Ensures-if false on_true on_false = on_false refl

  pub After-at :
      (Q : A → S → Type 0) {out out' : Result E A × S} → out ≡ out' → After Q out' → After Q out
  After-at Q h a = subst (After Q) (sym h) a

module _ {E S : Type 0} where
  pub Ensures-refuse_if :
      {P : S → Type 0} (test : Bool) (e : E)
      → Ensures P (refuse_if test e) (λ _ s. P s × (test ≡ false))
  Ensures-refuse_if true e = record { holds = λ s p. tt }
  Ensures-refuse_if false e = record { holds = λ s p. (p, refl) }

  -- What holds of the state after any outcome.
  abbrev pub Keeps : {A : Type 0} → (S → Type 0) → Exec E S A → Type 0
  Keeps P m = (s : S) → P s → P (m s).1

  -- A transaction that raises leaves the state as it was.
  pub Keeps-transaction :
      {A : Type 0} {P : S → Type 0} (m : Exec E S A)
      → Ensures P m (λ _. P)
      → Keeps P (transaction m)
  Keeps-transaction {A = A} {P} m h s p = rolled (m s) p (h.holds s p)
    where
      rolled :
          (out : Result E A × S)
          → P s
          → After (λ _. P) out
          → P
              (elim out.0 as (λ _. Result E A × S) [
                | ok a ↦ (Result.ok a, out.1)
                | err e ↦ (err e, s)
              ]).1
      rolled (ok a, s') q after = after
      rolled (err e, s') q after = q
