-- ===== src/Examples/Operations.antt =====
-- tool_platform/operations.py at a concrete world: one task of no workflow, which writes a file.
use auto_scholar.Prelude.{◌≤◌, String, ◌≡◌, refl, true, false, none, some, [], ◌∷◌}
use auto_scholar.Prelude.Table.{get}
use auto_scholar.Prelude.Result.{ok, err}
use auto_scholar.Durable.Rows.{running, AgentTaskRow, ToolResult, ToolOperationRow}
use auto_scholar.Tools.{Context, failed, denial}
use auto_scholar.Tools.Execution.{Action, World, execute}
use auto_scholar.Tools.Once.{
  Call, Answers, run_all, times_run, execute_at_most_once, execute_repeated,
}

abbrev writer : AgentTaskRow
writer = record {
  id = "a";
  objective = "write";
  project_id = none;
  parent_task_id = none;
  status = running;
  mode = "research";
  plan = [];
  metrics = [];
  research_sources = [];
  event_sequence = 0;
  answer = none;
  error_code = none;
  error_message = none;
}

abbrev write : Context
write = record {
  scope = some (record { task_id = "a"; project_id = none });
  claim = none;
  parent_task_id = none;
  deadline = 100;
  operation_id = "op";
  tool = "write_file";
  arguments_sha256 = "args";
}

abbrev authority : Context → String
authority context = context.operation_id

abbrev written : ToolResult
written = record { succeeded = true; output = "ok"; error_code = none; uncertain = false }

abbrev idle : World
idle = record {
  db = record {
    tasks = ("a", writer) ∷ [];
    jobs = [];
    checkpoints = [];
    events = [];
    approvals = [];
    plans = [];
    profiles = [];
    projects = [];
    documents = [];
    calls = [];
    operations = [];
    drawn = 0;
  };
  ran = [];
}

abbrev call_with : Action → Call
call_with action = record {
  service = "filesystem";
  now = 1;
  later = 2;
  between = λ db. db;
  context = write;
  action = action;
}

-- The first call breaks off half-way; the second one does not run the action again.
execute_at_most_once_example :
    times_run "op"
      (run_all authority
        (call_with (err (failed "OSError")) ∷ call_with (ok written) ∷ [])
        idle).ran
    ≤ 1
execute_at_most_once_example =
    execute_at_most_once authority
      (call_with (err (failed "OSError")) ∷ call_with (ok written) ∷ []) idle "op"
      (λ db id h. h, (λ db id h. h, tt)) refl

abbrev done_row : ToolOperationRow
done_row = record {
  id = "op";
  task_id = "a";
  service = "filesystem";
  tool = "write_file";
  arguments_sha256 = "args";
  authority_sha256 = "op";
  is_completed = true;
  result = some written;
}

abbrev done_world : World
done_world = record { db = record idle.db { operations = ("op", done_row) ∷ [] }; ran = "op" ∷ [] }

execute_repeated_example :
    ((execute authority "filesystem" 1 2 (λ db. db) write (ok written) done_world).1 ≡ done_world)
    × (denial 1 false write done_world.db ≡ none
        → (answer : ToolResult) × ((execute authority "filesystem" 1 2
              (λ db. db)
              write
              (ok written)
              done_world).0
            ≡ ok answer)
          × Answers authority "filesystem" done_row write answer)
unfolding get
execute_repeated_example =
    execute_repeated authority "filesystem" 1 2 (λ db. db) write (ok written) done_world done_row
      refl
