-- ===== src/Durable/Cancels.antt =====
-- orchestration/durable_repository.py, `control`: a cancellation.
use auto_scholar.Prelude.{if◌then◌else◌}
use auto_scholar.Prelude.Result.{Result, ◌>>=◌, ◌>>◌}
use auto_scholar.Durable.Rows.{Status, cancelled, cancel_requested, is_terminal, is_leased}
use auto_scholar.Durable.Expecting.{Expecting}

-- Where a cancellation leads.
abbrev pub cancelled_status : Status → Status
cancelled_status status =
    if is_terminal status then status else if is_leased status then cancel_requested else cancelled
