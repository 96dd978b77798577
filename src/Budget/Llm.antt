-- ===== src/Budget/Llm.antt =====
-- core/budget.py, `BudgetedLLM`: one metered, journaled call of a language model. The provider is a
-- parameter: what each of its methods answers, `none` for a normal return.
pub mod Steps
pub mod Rejected
pub mod Answered
pub mod Unmetered
use auto_scholar.Prelude.{ℕ, ◌+◌, ◌-◌, String, Bool, true, false, Option, none, some, List}
use auto_scholar.Prelude.Table.{Table, put}
use auto_scholar.Prelude.Int.{pos_part}
use auto_scholar.Prelude.Result.{Result, ok, err, Exec, pure, raise, ◌>>=◌, ◌>>◌}
use auto_scholar.Usage.{TokenUsage}
use auto_scholar.Budget
use auto_scholar.Budget.{Budget, BudgetError, budget_exceeded, used_of}
use auto_scholar.Journal.{
  CallError, budget_error, local_request_rejected, response_error, Context, Hooks, dispatched,
  analysed, note, answer, external_operation, record_local_llm_rejection,
}

pub record LlmResult : Type 0 where
  pub text : String
  pub model : String
  pub usage : Option TokenUsage

pub record Provider : Type 0 where
  pub check_available : Option CallError
  pub preflight : Option CallError
  pub generate : Result CallError LlmResult
  pub record_usage : Option CallError

-- The readings of the clock during one call: at `consume`, at `_account` and at the end.
pub record Times : Type 0 where
  pub consumed_at : ℕ
  pub accounted_at : ℕ
  pub finished_at : ℕ

-- A method of the budget of the context, if there is one.
abbrev settle :
    Context → Result BudgetError (Unit {0}) → Budget → Result CallError (Unit {0}) × Context
settle c r b =
    (elim r [ ok _ ↦ ok tt | err e ↦ err (budget_error e) ], record c { budget = some b })

abbrev pub on_budget :
    Option Budget → Exec BudgetError Budget (Unit {0}) → Exec CallError Context (Unit {0})
on_budget none m c = (ok tt, c)
on_budget (some b) m c = settle c (m b).0 (m b).1

-- The module's function `consume`.
unfoldable pub consume : ℕ → String → ℕ → Exec CallError Context (Unit {0})
consume now resource amount c = on_budget c.budget (Budget.consume now resource amount) c

-- `budget.used[key] = budget.used.get(key, 0) + max(0, getattr(usage, key))`, for the three keys.
unfoldable pub add_usage : TokenUsage → Table ℕ → Table ℕ
add_usage usage used =
    let used =
      put used "input_tokens" (used_of used "input_tokens" + pos_part usage.input_tokens) in
    let used =
      put used "output_tokens" (used_of used "output_tokens" + pos_part usage.output_tokens) in
    put used "total_tokens" (used_of used "total_tokens" + pos_part usage.total_tokens)

unfoldable pub account_budget : ℕ → Option TokenUsage → Exec BudgetError Budget (Unit {0})
account_budget now none b = (
  err (budget_exceeded "provider_usage_missing"),
  record b { used = put b.used "total_tokens" b.limits.total_tokens },
)
account_budget now (some usage) b = Budget.check now (record b { used = add_usage usage b.used })

unfoldable pub account : ℕ → Option TokenUsage → Exec CallError Context (Unit {0})
unfolding account_budget
account now usage c = on_budget c.budget (account_budget now usage) c

-- `max(0, budget.used.get("model_calls", 0) - 1)`.
abbrev pub give_back_call : Budget → Budget
give_back_call b = record b { used = put b.used "model_calls" (used_of b.used "model_calls" - 1) }

unfoldable pub undo_call : Option Budget → Context → Context
undo_call none c = c
undo_call (some b) c = record c { budget = some (give_back_call b) }

-- `except BudgetExceeded: if usage is None: raise`, around `_account`.
unfoldable pub forgive_overrun :
    Option TokenUsage → Result CallError (Unit {0}) → Result CallError (Unit {0})
forgive_overrun (some usage) (err (budget_error (budget_exceeded resource))) = ok tt
forgive_overrun usage r = r

-- `finally: await record_usage()`: its own error replaces the one on the way.
unfoldable pub accounted : Provider → ℕ → Option TokenUsage → Exec CallError Context (Unit {0})
unfolding forgive_overrun account
accounted provider now usage c =
    let (r, c') = account now usage c in
    let (s, c'') = answer provider.record_usage (note analysed c') in
    (elim s [ ok _ ↦ forgive_overrun usage r | err e ↦ err e ], c'')

-- The body of the `async with`: the result, or the error of an unusable response, which is raised
-- after the accounting.
unfoldable pub dispatch :
    Provider → ℕ → Result CallError LlmResult → Exec CallError Context (Result CallError LlmResult)
unfolding accounted undo_call
dispatch provider now (ok result) = do accounted provider now result.usage; pure (ok result)
dispatch provider now (err (response_error usage)) = do
  accounted provider now usage
  pure (err (response_error usage))
dispatch provider now (err local_request_rejected) =
    λ c. (err local_request_rejected, undo_call c.budget c)
dispatch provider now (err e) = raise e

-- `check_available()`, the preflight with its `except` clause, and `consume("model_calls")`.
unfoldable pub before_dispatch :
    Provider → Hooks → Option CallError → Exec CallError Context (Unit {0})
before_dispatch provider hooks none = pure tt
before_dispatch provider hooks (some local_request_rejected) = do
  record_local_llm_rejection hooks
  raise local_request_rejected
before_dispatch provider hooks (some e) = raise e

-- The last check of the budget, and the result or the protocol error.
unfoldable pub after_dispatch : ℕ → Result CallError LlmResult → Exec CallError Context LlmResult
after_dispatch now result = do λ c. on_budget c.budget (Budget.check now) c; λ c. (result, c)

unfoldable pub generate : Provider → Hooks → Times → String → Exec CallError Context LlmResult
unfolding before_dispatch
generate provider hooks times id = do
  answer provider.check_available
  before_dispatch provider hooks provider.preflight
  consume times.consumed_at "model_calls" 1
  result ←
      external_operation hooks "llm" id
        (λ c. dispatch provider times.accounted_at provider.generate (note dispatched c))
  after_dispatch times.finished_at result
