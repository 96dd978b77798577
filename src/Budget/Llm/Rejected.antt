-- ===== src/Budget/Llm/Rejected.antt =====
-- core/budget.py, `BudgetedLLM.generate`: requests that a local guard stops.
use auto_scholar.Prelude.{
  inl, inr, String, ◌≡◌, refl, true, false, Option, none, some, List, ◌∷◌, ap, eq_iff, arith,
}
use auto_scholar.Prelude.Table.{get-put}
use auto_scholar.Prelude.Result.{Result, ok, err, ◌>>=◌}
use auto_scholar.Budget
use auto_scholar.Budget.{Budget, BudgetError, budget_exceeded, used_of, limit_of, is_late, is_spent}
use auto_scholar.Budget.Bounds.{consume-cases}
use auto_scholar.Journal.{
  CallError, local_request_rejected, Context, Entry, dispatched, journaled, audited, hook_call,
  external_operation, record_local_llm_rejection,
}
use auto_scholar.Budget.Llm.{
  Provider, Times, generate, give_back_call, dispatch, after_dispatch, consume,
}
use auto_scholar.Budget.Llm.Steps.{writing, with_budget, paid_call}

-- A preflight that rejects the request locally costs nothing: the budget is as it was, nothing is
-- sent, and the journal has one entry, with no call id.
pub generate_preflight_rejected :
    (provider : Provider) (times : Times) (id : String) (c : Context)
    → provider.check_available ≡ none
    → provider.preflight ≡ some local_request_rejected
    → generate provider writing times id c ≡ (
      err local_request_rejected,
      record c { trace = journaled (hook_call "" "llm_local_rejected" false) ∷ c.trace },
    )
unfolding generate record_local_llm_rejection
generate_preflight_rejected provider times id c available rejected = ground arith

-- A provider whose request is stopped by a guard of its own, after the preflight.
abbrev pub rejecting : Option CallError → Provider
rejecting analytics = record {
  check_available = none;
  preflight = none;
  generate = err local_request_rejected;
  record_usage = analytics;
}

given_back :
    (b : Budget) (j : String) → used_of (give_back_call (paid_call b)).used j ≡ used_of b.used j
given_back b j = simp get-put (ground (arith, eq_iff "model_calls" j))

module _ (times : Times) (id : String) (b : Budget) (trace : List Entry)
    (analytics : Option CallError) where
  rejecting_outcome :
      Budget.consume times.consumed_at "model_calls" 1 b ≡ (ok tt, paid_call b)
      → generate (rejecting analytics) writing times id (with_budget b trace) ≡ (
        err local_request_rejected,
        with_budget (give_back_call (paid_call b)) (
            journaled (hook_call id "llm_local_rejected" false)
            ∷ dispatched
            ∷ journaled (hook_call id "llm" true)
            ∷ audited (hook_call id "llm" true)
            ∷ trace),
      )
  unfolding generate consume dispatch after_dispatch external_operation
  rejecting_outcome paid =
      rw (paid, ◌>>=◌) (rw (ap (λ (x : Result BudgetError (Unit {0}) × Budget). x.1) paid))

-- The call is given back: a request that the provider stops before it is sent leaves the number of
-- model calls as it was. The journal has the start of the call, and then its local rejection with
-- the same id; the call is not finished as if it had been sent.
pub generate_local_rejected :
    (times : Times) (id : String) (b : Budget) (trace : List Entry) (analytics : Option CallError)
    → (Budget.consume times.consumed_at "model_calls" 1 b).0 ≡ ok tt
    → (b' : Budget) × (generate (rejecting analytics) writing times id (with_budget b trace) ≡ (
      err local_request_rejected,
      with_budget b' (
          journaled (hook_call id "llm_local_rejected" false)
          ∷ dispatched
          ∷ journaled (hook_call id "llm" true)
          ∷ audited (hook_call id "llm" true)
          ∷ trace),
    ))
      × ((j : String) → used_of b'.used j ≡ used_of b.used j)
      × (b'.limits ≡ b.limits)
generate_local_rejected times id b trace analytics h =
    elim (consume-cases times.consumed_at "model_calls" 1 b) [
      | inl paid ↦ (
        give_back_call (paid_call b),
        rejecting_outcome times id b trace analytics paid,
        λ j. given_back b j,
        refl,
      )
      | inr (e, failed) ↦ cc (h, ap (λ (x : Result BudgetError (Unit {0}) × Budget). x.0) failed)
    ]
