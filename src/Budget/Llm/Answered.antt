-- ===== src/Budget/Llm/Answered.antt =====
-- core/budget.py, `BudgetedLLM.generate`: requests whose usage the provider reports.
use auto_scholar.Prelude.{
  ℕ, ◌+◌, String, ◌≡◌, arith, str_eq, eq_iff, if◌then◌else◌, refl, inl, inr, Bool-cases, some, List,
  ◌∷◌, ◌∙◌, ap,
}
use auto_scholar.Prelude.Int.{pos_part}
use auto_scholar.Prelude.Table.{Table, put, get-put}
use auto_scholar.Prelude.Result.{Result, ok, pure, ◌>>=◌, bind_ok}
use auto_scholar.Usage.{TokenUsage}
use auto_scholar.Budget
use auto_scholar.Budget.{Budget, BudgetError, budget_exceeded, used_of, limit_of, is_late, is_spent}
use auto_scholar.Journal.{CallError, Context, Entry, dispatched, analysed, note, external_operation}
use auto_scholar.Budget.Llm.{
  LlmResult, Times, add_usage, generate, accounted, dispatch, after_dispatch, consume,
}
use auto_scholar.Budget.Llm.Steps.{
  writing, with_budget, paid_call, finished, answering, add_reported, accounted_known,
  finish_operation, pay, judged, after_dispatch-judged,
}

-- What a call and its reported usage add to each counter; a count below 0 adds nothing.
abbrev pub charged : TokenUsage → String → ℕ
charged usage j =
    (if str_eq "model_calls" j then 1 else 0)
    + (if str_eq "input_tokens" j then pos_part usage.input_tokens else 0)
    + (if str_eq "output_tokens" j then pos_part usage.output_tokens else 0)
    + (if str_eq "total_tokens" j then pos_part usage.total_tokens else 0)

used-put :
    (used : Table ℕ) (k j : String) (n : ℕ)
    → used_of (put used k (used_of used k + n)) j ≡ used_of used j + (if str_eq k j then n else 0)
used-put used k j n = elim (Bool-cases (str_eq k j)) [
  | inl same ↦ let e : k ≡ j = ground (arith, same, eq_iff k j) in rw (get-put, same, e) refl
  | inr other ↦ rw (get-put, other) (omega arith)
]

add_reported-charged :
    (usage : TokenUsage) (b : Budget) (j : String)
    → used_of (add_reported usage (paid_call b)).used j ≡ used_of b.used j + charged usage j
unfolding add_usage
add_reported-charged usage b j = rw (used-put, used-put, used-put, used-put) (omega arith)

module _ (times : Times) (id : String) (b : Budget) (trace : List Entry) (text model : String)
    (usage : TokenUsage) where
  abbrev pub reply : LlmResult
  reply = record { text = text; model = model; usage = some usage }

  dispatch_known :
      (b' : Budget) (trace' : List Entry)
      → dispatch (answering reply) times.accounted_at (ok reply) (with_budget b' trace')
        ≡ (ok (ok reply), with_budget (add_reported usage b') (analysed ∷ trace'))
  unfolding dispatch
  dispatch_known b' trace' =
      bind_ok (accounted (answering reply) times.accounted_at (some usage)) (λ _. pure (ok reply))
        {s = with_budget b' trace'} (accounted_known reply times.accounted_at usage b' trace')

  generate_paid :
      consume times.consumed_at "model_calls" 1 (with_budget b trace)
        ≡ (ok tt, with_budget (paid_call b) trace)
      → generate (answering reply) writing times id (with_budget b trace)
        ≡ (external_operation writing "llm" id
                (λ c. dispatch (answering reply) times.accounted_at (ok reply) (note dispatched c))
              >>= after_dispatch times.finished_at)
            (with_budget (paid_call b) trace)
  unfolding generate
  generate_paid paid =
      rw (paid, ◌>>=◌) (rw (ap (λ (x : Result CallError (Unit {0}) × Context). x.1) paid))

  -- A call that fits the budget, whose provider reports its usage: the counter of the calls rises by one
  -- and those of the tokens by what is reported, a negative count adding nothing, and no other counter
  -- changes; the journal has its start and its end; and the result is returned exactly when the budget
  -- has time and tokens left at the end; otherwise the last check's error is raised.
  pub generate_answered :
      (Budget.consume times.consumed_at "model_calls" 1 b).0 ≡ ok tt
      → let b' = add_reported usage (paid_call b) in
        (generate (answering reply) writing times id (with_budget b trace) ≡ (
          judged (Budget.check times.finished_at b').0 reply,
          with_budget b' (finished id trace),
        ))
        × (b'.limits ≡ b.limits)
        × (b'.started ≡ b.started)
        × ((j : String) → used_of b'.used j ≡ used_of b.used j + charged usage j)
  generate_answered h = (
    generate_paid (pay times.consumed_at b trace h)
        ∙ bind_ok
            (external_operation writing "llm" id
              (λ c. dispatch (answering reply) times.accounted_at (ok reply) (note dispatched c)))
            (after_dispatch times.finished_at)
            (finish_operation id _ (with_budget (paid_call b) trace) _ (ok reply)
              (dispatch_known (paid_call b) _))
        ∙ after_dispatch-judged times.finished_at (add_reported usage (paid_call b))
            (finished id trace) reply,
    refl,
    refl,
    add_reported-charged usage b,
  )
