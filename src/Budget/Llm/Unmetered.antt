-- ===== src/Budget/Llm/Unmetered.antt =====
-- core/budget.py, `BudgetedLLM.generate`: a response with no usage.
use auto_scholar.Prelude.{ℕ, String, ◌≡◌, ◌≢◌, refl, true, none, List, ◌∷◌, ◌∙◌, ap}
use auto_scholar.Prelude.Table.{get-put, put}
use auto_scholar.Prelude.Result.{Exec, Result, ok, err, ◌>>=◌, bind_err}
use auto_scholar.Budget
use auto_scholar.Budget.{Budget, BudgetError, budget_exceeded, used_of, limit_of, is_late, is_spent}
use auto_scholar.Budget.Bounds.{consume_spent}
use auto_scholar.Journal.{
  CallError, budget_error, Context, Entry, dispatched, analysed, journaled, audited, hook_call,
  note, external_operation,
}
use auto_scholar.Budget.Llm.{
  LlmResult, Times, generate, dispatch, after_dispatch, consume, account_budget,
}
use auto_scholar.Budget.Llm.Steps.{writing, with_budget, paid_call, sent, answering, pay}

-- The budget after a response whose usage is not known.
abbrev pub exhausted : Budget → Budget
exhausted b = record b { used = put b.used "total_tokens" b.limits.total_tokens }

abbrev pub missing : CallError
missing = budget_error (budget_exceeded "provider_usage_missing")

-- An error other than a local rejection leaves the operation open in the journal.
fail_operation :
    {A : Type 0} (id : String) (body : Exec CallError Context A) (c c' : Context)
    → body (note (journaled (hook_call id "llm" true)) (note (audited (hook_call id "llm" true)) c))
      ≡ (err missing, c')
    → external_operation writing "llm" id body c ≡ (err missing, c')
unfolding external_operation
fail_operation id body c c' failed = rw failed

module _ (times : Times) (id : String) (b : Budget) (trace : List Entry) (text model : String) where
  abbrev pub unmetered : LlmResult
  unmetered = record { text = text; model = model; usage = none }

  dispatch-unmetered :
      (b' : Budget) (trace' : List Entry)
      → dispatch (answering unmetered) times.accounted_at (ok unmetered) (with_budget b' trace')
        ≡ (err missing, with_budget (exhausted b') (analysed ∷ trace'))
  unfolding dispatch account_budget
  dispatch-unmetered b' trace' = refl

  generate_paid_unmetered :
      consume times.consumed_at "model_calls" 1 (with_budget b trace)
        ≡ (ok tt, with_budget (paid_call b) trace)
      → generate (answering unmetered) writing times id (with_budget b trace)
        ≡ (external_operation writing "llm" id (λ c.
                dispatch
                  (answering unmetered)
                  times.accounted_at
                  (ok unmetered)
                  (note dispatched c))
              >>= after_dispatch times.finished_at)
            (with_budget (paid_call b) trace)
  unfolding generate
  generate_paid_unmetered paid =
      rw (paid, ◌>>=◌) (rw (ap (λ (x : Result CallError (Unit {0}) × Context). x.1) paid))

  -- A provider that omits its usage cannot be called again: the call raises, the journal keeps it
  -- open, the budget counts all its tokens as used, and no later charge of any resource is accepted.
  pub generate_unmetered :
      (Budget.consume times.consumed_at "model_calls" 1 b).0 ≡ ok tt
      → (generate (answering unmetered) writing times id (with_budget b trace)
          ≡ (err missing, with_budget (exhausted (paid_call b)) (sent id trace)))
        × ((now : ℕ) (resource : String) (amount : ℕ)
            → (Budget.consume now resource amount (exhausted (paid_call b))).0 ≢ ok tt)
  generate_unmetered h = (
    generate_paid_unmetered (pay times.consumed_at b trace h)
        ∙ bind_err
            (external_operation writing "llm" id (λ c.
              dispatch (answering unmetered) times.accounted_at (ok unmetered) (note dispatched c)))
            (after_dispatch times.finished_at)
            (fail_operation id _ (with_budget (paid_call b) trace) _
              (dispatch-unmetered (paid_call b) _)),
    λ now resource amount.
        consume_spent now resource amount (exhausted (paid_call b)) (simp get-put),
  )
