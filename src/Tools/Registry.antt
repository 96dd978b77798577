-- ===== src/Tools/Registry.antt =====
-- tool_platform/registry.py: `prepare` and `complete`, the core's own record of a call of a tool.
use auto_scholar.Prelude.{String, ℕ, true, false, not, Option, none, some, is_some, str_eq}
use auto_scholar.Prelude.Table.{get, put}
use auto_scholar.Prelude.Result.{
  Exec, pure, raise, gets, modify, refuse_if, transaction, ◌>>=◌, ◌>>◌,
}
use auto_scholar.Durable.Rows.{CoreToolCallRow, ToolResult, Db}
use auto_scholar.Tools.{Scope, Context, ToolError, failed, authorize}

abbrev pub prepared_call : (Context → String) → String → String → Context → Scope → CoreToolCallRow
prepared_call authority service schema context scope = record {
  id = context.operation_id;
  task_id = scope.task_id;
  parent_task_id = context.parent_task_id;
  service = service;
  tool = context.tool;
  arguments_sha256 = context.arguments_sha256;
  authority_sha256 = authority context;
  output_schema = schema;
  is_completed = false;
  result = none;
  result_sha256 = none;
}

unfoldable pub prepare_scoped :
    (Context → String) → String → String → ℕ → Context → Option Scope → Exec ToolError Db (Unit {0})
prepare_scoped authority service schema now context none = pure tt
prepare_scoped authority service schema now context (some scope) = transaction (do
  authorize now false context
  existing ← gets (λ (db : Db). get db.calls context.operation_id)
  refuse_if (is_some existing) (failed "Core invocation ID already exists; use receipt lookup")
  modify (λ (db : Db). record db {
    calls =
        put db.calls context.operation_id (prepared_call authority service schema context scope);
  }))

unfoldable pub prepare :
    (Context → String) → String → String → ℕ → Context → Exec ToolError Db (Unit {0})
unfolding prepare_scoped
prepare authority service schema now context =
    prepare_scoped authority service schema now context context.scope

unfoldable pub complete_call :
    (ToolResult → String)
    → ℕ
    → Context
    → ToolResult
    → Option CoreToolCallRow
    → Exec ToolError Db (Unit {0})
complete_call argument_digest now context result none = raise (failed "Unknown Core invocation")
complete_call argument_digest now context result (some row) = do
  authorize now false context
  refuse_if (not (str_eq row.arguments_sha256 context.arguments_sha256))
      (failed "Core invocation changed")
  modify (λ (db : Db). record db {
    calls = put db.calls context.operation_id (record row {
      result = some result;
      result_sha256 = some (argument_digest result);
      is_completed = true;
    });
  })

unfoldable pub complete_scoped :
    (ToolResult → String) → ℕ → Context → ToolResult → Option Scope → Exec ToolError Db (Unit {0})
unfolding complete_call
complete_scoped argument_digest now context result none = pure tt
complete_scoped argument_digest now context result (some scope) = transaction (do
  row ← gets (λ (db : Db). get db.calls context.operation_id)
  complete_call argument_digest now context result row)

unfoldable pub complete :
    (ToolResult → String) → ℕ → Context → ToolResult → Exec ToolError Db (Unit {0})
unfolding complete_scoped
complete argument_digest now context result =
    complete_scoped argument_digest now context result context.scope
