-- ===== src/Budget/Llm/Steps.antt =====
-- core/budget.py, `BudgetedLLM.generate`: its steps under hooks that do not raise.
use auto_scholar.Prelude.{inl, inr, ℕ, ◌+◌, String, ◌≡◌, true, false, none, some, List, ◌∷◌, ap}
use auto_scholar.Prelude.Table.{put}
use auto_scholar.Prelude.Result.{Exec, Result, ok, err, ◌>>=◌}
use auto_scholar.Usage.{TokenUsage}
use auto_scholar.Budget
use auto_scholar.Budget.{Budget, BudgetError, budget_exceeded, used_of, limit_of, is_late, is_spent}
use auto_scholar.Budget.Bounds.{check-cases, check-unchanged, consume-cases}
use auto_scholar.Journal.{
  CallError, budget_error, Context, Hooks, Entry, dispatched, analysed, journaled, audited,
  hook_call, note, external_operation,
}
use auto_scholar.Budget.Llm.{Provider, LlmResult, add_usage, accounted, after_dispatch, consume}

-- The hooks of a workflow that can write its journal.
abbrev pub writing : Hooks
writing = record { journal = some (λ _. none); audit = some (λ _. none) }

abbrev pub with_budget : Budget → List Entry → Context
with_budget b trace = record { budget = some b; trace = trace }

abbrev pub paid_call : Budget → Budget
paid_call b = record b { used = put b.used "model_calls" (used_of b.used "model_calls" + 1) }

abbrev pub sent : String → List Entry → List Entry
sent id trace =
    analysed
    ∷ dispatched
    ∷ journaled (hook_call id "llm" true)
    ∷ audited (hook_call id "llm" true)
    ∷ trace

abbrev pub finished : String → List Entry → List Entry
finished id trace =
    audited (hook_call id "llm" false) ∷ journaled (hook_call id "llm" false) ∷ sent id trace

-- A provider that answers with a result.
abbrev pub answering : LlmResult → Provider
answering r = record {
  check_available = none;
  preflight = none;
  generate = ok r;
  record_usage = none;
}

abbrev pub add_reported : TokenUsage → Budget → Budget
add_reported usage b = record b { used = add_usage usage b.used }

pub accounted_known :
    (r : LlmResult) (now : ℕ) (usage : TokenUsage) (b : Budget) (trace : List Entry)
    → accounted (answering r) now (some usage) (with_budget b trace)
      ≡ (ok tt, with_budget (add_reported usage b) (analysed ∷ trace))
unfolding accounted
accounted_known r now usage b trace =
    elim (check-cases now (record b { used = add_usage usage b.used })) [
      | inl (counted, _, _) ↦ rw counted
      | inr (limit, counted) ↦ rw counted
    ]

pub finish_operation :
    {A : Type 0} (id : String) (body : Exec CallError Context A) (c c' : Context) (a : A)
    → body (note (journaled (hook_call id "llm" true)) (note (audited (hook_call id "llm" true)) c))
      ≡ (ok a, c')
    → external_operation writing "llm" id body c ≡ (
      ok a,
      note (audited (hook_call id "llm" false)) (note (journaled (hook_call id "llm" false)) c'),
    )
unfolding external_operation
finish_operation id body c c' a done = rw done

pub pay :
    (now : ℕ) (b : Budget) (trace : List Entry)
    → (Budget.consume now "model_calls" 1 b).0 ≡ ok tt
    → consume now "model_calls" 1 (with_budget b trace) ≡ (ok tt, with_budget (paid_call b) trace)
unfolding consume
pay now b trace h = elim (consume-cases now "model_calls" 1 b) [
  | inl paid ↦ rw paid
  | inr (e, failed) ↦ cc (h, ap (λ (x : Result BudgetError (Unit {0}) × Budget). x.0) failed)
]

-- What the last check makes of a result.
abbrev pub judged : Result BudgetError (Unit {0}) → LlmResult → Result CallError LlmResult
judged verdict r = elim verdict [ ok _ ↦ ok r | err e ↦ err (budget_error e) ]

pub after_dispatch-judged :
    (now : ℕ) (b : Budget) (trace : List Entry) (r : LlmResult)
    → after_dispatch now (ok r) (with_budget b trace)
      ≡ (judged (Budget.check now b).0 r, with_budget b trace)
unfolding after_dispatch
after_dispatch-judged now b trace r = elim (check-cases now b) [
  | inl (passed, _, _) ↦ rw (passed, ◌>>=◌) (rw check-unchanged)
  | inr (limit, stopped) ↦ rw (stopped, ◌>>=◌) (rw check-unchanged)
]
