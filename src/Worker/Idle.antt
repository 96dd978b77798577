-- ===== src/Worker/Idle.antt =====
-- orchestration/durable.py, `_execute`: when a claimed workflow is not worked on.
use auto_scholar.Prelude.{Bool, not, ◌||◌, is_empty}
use auto_scholar.Snapshot.{Snapshot}
use auto_scholar.Durable.Rows.{WorkflowJobRow}
use auto_scholar.Durable.Work.{is_cancel_requested}
use auto_scholar.Durable.Save.{is_pause_requested}
use auto_scholar.Worker.Attempts.{Worker}

-- A unit was begun and not ended, a call is open, or the user wants the workflow to stop.
abbrev pub is_held : WorkflowJobRow → Bool
is_held job =
    is_cancel_requested job.status
    || not (is_empty job.pending_calls)
    || not (is_empty job.active)
    || is_pause_requested job.status
