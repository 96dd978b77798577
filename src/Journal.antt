-- ===== src/Journal.antt =====
-- core/journal.py: the optional accounting around an external operation. The hooks are those of the
-- caller's context: each is absent, or a function that says for each call whether it raises.
use auto_scholar.Prelude.{
  String, Bool, true, false, Option, none, some, List, ◌∷◌, str_eq, if◌then◌else◌,
}
use auto_scholar.Prelude.Result.{Result, ok, err, Exec, pure, raise, ◌>>◌}
use auto_scholar.Budget.{Budget, BudgetError}
use auto_scholar.Usage.{TokenUsage}

-- What an external request can end in, other than a result.
pub data CallError : Type 0 where
  budget_error : BudgetError → CallError
  local_request_rejected : CallError
  response_error : Option TokenUsage → CallError
  other_error : String → CallError

-- The arguments of one call of a hook.
pub record HookCall : Type 0 where
  pub call_id : String
  pub kind : String
  pub starting : Bool

pub data Entry : Type 0 where
  journaled : HookCall → Entry
  audited : HookCall → Entry
  dispatched : Entry
  analysed : Entry

-- The context of a request: its budget, if it has one, and what has been done, the newest first.
pub record Context : Type 0 where
  pub budget : Option Budget
  pub trace : List Entry

abbrev pub Hook : Type 0
Hook = Option (HookCall → Option CallError)

pub record Hooks : Type 0 where
  pub journal : Hook
  pub audit : Hook

abbrev pub note : Entry → Context → Context
note e c = record c { trace = e ∷ c.trace }

-- A parameter's answer: `none` is a normal return.
abbrev pub answer : Option CallError → Exec CallError Context (Unit {0})
answer none c = (ok tt, c)
answer (some e) c = (err e, c)

abbrev pub call_journal : Hook → HookCall → Exec CallError Context (Unit {0})
call_journal none call c = (ok tt, c)
call_journal (some hook) call c = answer (hook call) (note (journaled call) c)

abbrev pub call_audit : Hook → HookCall → Exec CallError Context (Unit {0})
call_audit none call c = (ok tt, c)
call_audit (some hook) call c = answer (hook call) (note (audited call) c)

abbrev pub hook_call : String → String → Bool → HookCall
hook_call call_id kind starting = record { call_id = call_id; kind = kind; starting = starting }

unfoldable pub persist_budget : Hooks → Exec CallError Context (Unit {0})
persist_budget hooks = call_journal hooks.journal (hook_call "" "budget" false)

unfoldable pub record_local_llm_rejection : Hooks → Exec CallError Context (Unit {0})
record_local_llm_rejection hooks =
    call_journal hooks.journal (hook_call "" "llm_local_rejected" false)

-- The `except LocalRequestRejected` clause, and what follows the `try`. The handler raises again.
unfoldable pub leave_operation :
    {A : Type 0} → Hooks → String → String → Result CallError A → Exec CallError Context A
leave_operation hooks kind id (err local_request_rejected) = do
  (if str_eq kind "llm"
      then call_journal hooks.journal (hook_call id "llm_local_rejected" false)
      else pure tt)
  raise local_request_rejected
leave_operation hooks kind id (err e) = raise e
leave_operation hooks kind id (ok a) = do
  call_journal hooks.journal (hook_call id kind false)
  call_audit hooks.audit (hook_call id kind false)
  pure a

unfoldable pub external_operation :
    {A : Type 0} → Hooks → String → String → Exec CallError Context A → Exec CallError Context A
unfolding leave_operation
external_operation hooks kind id body = do
  call_audit hooks.audit (hook_call id kind true)
  call_journal hooks.journal (hook_call id kind true)
  λ c. let (result, c') = body c in leave_operation hooks kind id result c'
