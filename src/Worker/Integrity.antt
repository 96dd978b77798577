-- ===== src/Worker/Integrity.antt =====
-- orchestration/durable.py, `_execute`: the worker keeps the database integral if its agents do.
pub mod Units
pub mod Executions
pub mod Jobs
use auto_scholar.Prelude.{
  ℕ, ◌-◌, min, String, Bool, true, false, not, Option, none, some, List, [], ◌∷◌, ◌≡◌, refl, inl,
  inr, is_empty, Bool-cases, Option-cases, if◌then◌else◌,
}
use auto_scholar.Prelude.Table.{Table}
use auto_scholar.Prelude.Result.{
  Result, ok, err, Exec, pure, raise, gets, modify, refuse_if, go_on, ◌>>=◌, ◌>>◌,
}
use auto_scholar.Prelude.Ensures.{After, Keeps}
use auto_scholar.Plan.{PlanStep}
use auto_scholar.Durable.Rows.{Db}
use auto_scholar.Durable.Session.{Session}
use auto_scholar.Durable.Integrity.{IsIntegral}
use auto_scholar.Durable.Integrity.Works.{journal-IsIntegral}
use auto_scholar.Worker.{Flow, World, Failure, Agents, Claim, Clock, on_db, on_budget}

-- From an integral database a flow leads to one, however it ends, and what it returns has Q.
pub record Steady {A : Type 0} (m : Flow A) (Q : A → Type 0) : Type 0 where
  pub integral : (w : World) → IsIntegral w.db → IsIntegral (m w).1.db
  pub returns : (w : World) → After (λ a _. Q a) (m w)

abbrev pub Anyway : {A : Type 0} → A → Type 0
Anyway a = Unit

After-Anyway : {A : Type 0} (out : Result Failure A × World) → After (λ a _. Anyway a) out
After-Anyway (ok a, w) = tt
After-Anyway (err e, w) = tt

abbrev pub Stays : {A : Type 0} → Flow A → Type 0
Stays m = Keeps (λ (w : World). IsIntegral w.db) m

module _ {A : Type 0} where
  pub Steady-keeps : (m : Flow A) → Stays m → Steady m Anyway
  Steady-keeps m k = record { integral = k; returns = λ w. After-Anyway (m w) }

  pub Steady-pure : (Q : A → Type 0) (a : A) → Q a → Steady (pure a) Q
  Steady-pure Q a q = record { integral = λ w i. i; returns = λ w. q }

  pub Steady-weaken :
      {Q R : A → Type 0} {m : Flow A} → Steady m Q → ((a : A) → Q a → R a) → Steady m R
  Steady-weaken {Q} {R} {m} s h = record {
    integral = s.integral;
    returns = λ w. weaken (m w) (s.returns w);
  }
    where
      weaken : (out : Result Failure A × World) → After (λ a _. Q a) out → After (λ a _. R a) out
      weaken (ok a, w) q = h a q
      weaken (err e, w) q = tt

  pub Steady-if :
      {Q : A → Type 0} {m k : Flow A} (test : Bool)
      → Steady m Q
      → Steady k Q
      → Steady (if test then m else k) Q
  Steady-if true s t = s
  Steady-if false s t = t

  pub Stays-on_db : (m : Session A) → Keeps IsIntegral m → Stays (on_db m)
  Stays-on_db m k w i = k w.db i

module _ {A B : Type 0} where
  steady_go :
      (Q : A → Type 0) (R : B → Type 0) (f : A → Flow B)
      → ((a : A) → Q a → Steady (f a) R)
      → (out : Result Failure A × World) → IsIntegral out.1.db
      → After (λ a _. Q a) out
      → IsIntegral (go_on f out).1.db
  steady_go Q R f h (ok a, w) i q = (h a q).integral w i
  steady_go Q R f h (err e, w) i q = i

  returns_go :
      (Q : A → Type 0) (R : B → Type 0) (f : A → Flow B)
      → ((a : A) → Q a → Steady (f a) R)
      → (out : Result Failure A × World) → After (λ a _. Q a) out
      → After (λ b _. R b) (go_on f out)
  returns_go Q R f h (ok a, w) q = (h a q).returns w
  returns_go Q R f h (err e, w) q = tt

  pub Steady-bind :
      {Q : A → Type 0} {R : B → Type 0} {m : Flow A} {f : A → Flow B}
      → Steady m Q
      → ((a : A) → Q a → Steady (f a) R)
      → Steady (m >>= f) R
  Steady-bind {Q} {R} {m} {f} s h = record {
    integral = λ w i. steady_go Q R f h (m w) (s.integral w i) (s.returns w);
    returns = λ w. returns_go Q R f h (m w) (s.returns w);
  }

-- The agents may do to the database what they like as long as it stays integral.
pub record AreCareful (agents : Agents) : Type 0 where
  pub remember : Stays agents.remember
  pub planner : Stays agents.planner
  pub step : (step : PlanStep) → Stays (agents.step step)
  pub quality : Stays agents.quality
  pub reviewer : Stays agents.reviewer
  pub replanner : Stays agents.replanner
  pub rules : Stays agents.rules
  pub writer : Stays agents.writer
