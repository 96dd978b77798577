-- ===== src/Tools/Execution.antt =====
-- tool_platform/operations.py: an action between the reservation and the receipt, and the reading of receipts.
use auto_scholar.Prelude.{
  ℕ, String, Bool, true, false, ◌&&◌, ◌||◌, Option, none, some, List, ◌∷◌, str_eq, if◌then◌else◌,
}
use auto_scholar.Prelude.Table.{get, put}
use auto_scholar.Prelude.Result.{Result, ok, err, Exec}
use auto_scholar.Durable.Rows.{ToolResult, ToolOperationRow, Db}
use auto_scholar.Tools.{
  Context, ToolError, same_text, denial, task_in, receipt, reservation, caught, denied, failed,
}

-- What an action can answer: a result, or an exception.
abbrev pub Action : Type 0
Action = Result ToolError ToolResult

-- The database, and the operations whose action has been run, the latest first.
pub record World : Type 0 where
  pub db : Db
  pub ran : List String

abbrev pub complete_operation : String → ToolOperationRow → ToolResult → Db → Db
complete_operation id row result db = record db {
  operations = put db.operations id (record row { is_completed = true; result = some result });
}

-- `result = await action()` and the commit; the database keeps the reservation if the action raises.
unfoldable pub run_action : Context → ToolOperationRow → Action → Exec ToolError World ToolResult
run_action context row (ok result) w = (
  ok result,
  record {
    db = complete_operation context.operation_id row result w.db;
    ran = context.operation_id ∷ w.ran;
  },
)
run_action context row (err e) w = (err e, record w { ran = context.operation_id ∷ w.ran })

unfoldable pub run_reserved :
    Context → Action → Option ToolOperationRow → Exec ToolError World ToolResult
unfolding run_action
run_reserved context action none w = (err (failed "AssertionError"), w)
run_reserved context action (some row) w = run_action context row action w

-- The second transaction of `execute`: it authorizes again.
unfoldable pub execute_reserved :
    ℕ → Context → Action → Option String → Exec ToolError World ToolResult
unfolding run_reserved
execute_reserved now context action (some code) w = (err (denied code), w)
execute_reserved now context action none w =
    run_reserved context action (get w.db.operations context.operation_id) w

-- The rest of `execute`, after the reservation; `between` is what other transactions do meanwhile.
unfoldable pub after_reservation :
    ℕ
    → (Db → Db)
    → Context
    → Action
    → Result ToolError (Option ToolResult)
    → Exec ToolError World ToolResult
unfolding execute_reserved
after_reservation now between context action (err e) w = (err e, w)
after_reservation now between context action (ok (some result)) w = (ok result, w)
after_reservation now between context action (ok none) w =
    let w' = record w { db = between w.db } in
    execute_reserved now context action (denial now false context w'.db) w'

unfoldable pub execute :
    (Context → String)
    → String
    → ℕ
    → ℕ
    → (Db → Db)
    → Context
    → Action
    → Exec ToolError World ToolResult
unfolding after_reservation
execute authority service now later between context action w =
    let out = reservation authority service now context w.db in
    let out' = after_reservation later between context action out.0 (record w { db = out.1 }) in
    (caught (λ result. result) out'.0, out'.1)

abbrev is_settled : ToolOperationRow → ToolResult → Bool
is_settled row prior =
    row.is_completed || same_text prior.error_code (some "operation_identity_conflict")

unfoldable pub finish_row :
    (Context → String)
    → String
    → Context
    → Action
    → Option ToolOperationRow
    → Exec ToolError World ToolResult
unfolding run_action receipt
finish_row authority service context action none w = (err (failed "Operation was not reserved"), w)
finish_row authority service context action (some row) w =
    let prior = receipt authority service row context in
    if is_settled row prior then (ok prior, w) else run_action context row action w

unfoldable pub finish :
    (Context → String) → String → ℕ → Context → Action → Exec ToolError World ToolResult
unfolding finish_row
finish authority service now context action w = elim (denial now false context w.db) [
  | some code ↦ (err (denied code), w)
  | none ↦ finish_row authority service context action (get w.db.operations context.operation_id) w
]

pub data Lookup : Type 0 where
  missing denied_lookup : Lookup
  found : Bool → Option ToolResult → Lookup

unfoldable pub lookup : String → ℕ → String → Context → Db → Lookup
lookup service now operation_id context db = elim (denial now true context db) [
  | some code ↦ denied_lookup
  | none ↦ elim (get db.operations operation_id) [
    | none ↦ missing
    | some row ↦
        if str_eq row.task_id (task_in context) && str_eq row.service service
        then found row.is_completed (if row.is_completed then row.result else none)
        else missing
  ]
]
