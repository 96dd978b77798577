-- ===== src/Durable/Receipts.antt =====
-- tool_platform/registry.py, `InvocationRegistry.receipt_status`: what is known of a call that may have
-- been interrupted. The digest of arguments and the JSON schema validator are parameters.
use auto_scholar.Prelude.{
  String, Bool, true, false, ◌&&◌, Option, none, some, str_eq, if◌then◌else◌,
}
use auto_scholar.Prelude.Table.{Table, get}
use auto_scholar.Durable.Rows.{ToolResult, ToolOperationRow, CoreToolCallRow}

pub record Validators : Type 0 where
  pub argument_digest : ToolResult → String
  pub is_valid : String → ToolResult → Bool

pub data ReceiptStatus : Type 0 where
  missing conflict uncertain completed : ReceiptStatus

abbrev pub is_completed_receipt : ReceiptStatus → Bool
is_completed_receipt completed = true
is_completed_receipt _ = false

-- The validation against the output schema, and the flag `uncertain` of the result.
abbrev judge : Validators → CoreToolCallRow → ToolResult → ReceiptStatus
judge v row result =
    if v.is_valid row.output_schema result
    then (if result.uncertain then uncertain else completed)
    else conflict

abbrev same_digest : Option String → String → Bool
same_digest none digest = false
same_digest (some stored) digest = str_eq digest stored

abbrev pub same_identity : ToolOperationRow → CoreToolCallRow → Bool
same_identity receipt row =
    str_eq receipt.task_id row.task_id
    && str_eq receipt.service row.service
    && str_eq receipt.tool row.tool
    && str_eq receipt.arguments_sha256 row.arguments_sha256
    && str_eq receipt.authority_sha256 row.authority_sha256

-- The branch of a call that the core has completed.
unfoldable pub core_status : Validators → CoreToolCallRow → Option ToolResult → ReceiptStatus
core_status v row none = conflict
core_status v row (some result) =
    if same_digest row.result_sha256 (v.argument_digest result)
    then judge v row result
    else conflict

unfoldable pub stored_status :
    Validators → CoreToolCallRow → Bool → Option ToolResult → ReceiptStatus
stored_status v row true (some result) = judge v row result
stored_status v row _ _ = uncertain

-- The branch of a call whose service may have completed it.
unfoldable pub service_status :
    Validators → CoreToolCallRow → Option ToolOperationRow → ReceiptStatus
unfolding stored_status
service_status v row none = missing
service_status v row (some receipt) =
    if same_identity receipt row
    then stored_status v row receipt.is_completed receipt.result
    else conflict

unfoldable pub receipt_status :
    Validators → Table ToolOperationRow → CoreToolCallRow → ReceiptStatus
unfolding core_status service_status
receipt_status v operations row =
    if row.is_completed
    then core_status v row row.result
    else service_status v row (get operations row.id)
