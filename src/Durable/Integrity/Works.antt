-- ===== src/Durable/Integrity/Works.antt =====
-- orchestration/durable_repository.py: `begin` and `journal` keep the database integral.
use auto_scholar.Prelude.{
  ℕ, ◌≤◌, String, ◌≡◌, refl, Bool, true, false, not, ◌||◌, Option, none, some, [], ◌∷◌, arith,
  is_empty, length, str_eq, if◌then◌else◌,
}
use auto_scholar.Prelude.Table.{Table, put, remove}
use auto_scholar.Prelude.Result.{Result, ok, err, modify}
use auto_scholar.Prelude.Ensures.{
  Ensures, Keeps, Ensures-bind, Ensures-pure, Ensures-raise, Ensures-gets, Ensures-if,
  Ensures-assume, Ensures-weaken, Ensures-refuse_if,
}
use auto_scholar.Snapshot.{Value, number}
use auto_scholar.Durable.Rows.{WorkflowJobRow, WorkflowApprovalRow, consumed, Db}
use auto_scholar.Durable.Session.{Error, operation_uncertain, approval_required, write_job}
use auto_scholar.Durable.Work.{
  begin, begin_held, start_unit, check_approval, use_approval, mark_approval, find_approval,
  operation_hash, is_running, journal, journal_calls, reject_locally, start_call, finish_call,
  merge_spent, write_call, journal_event, journal_payload, lift, pops, is_cancel_requested,
}
use auto_scholar.Durable.Integrity.{IsSound, IsIntegral, IsWritable}
use auto_scholar.Durable.Integrity.Events.{event-IsWritable}
use auto_scholar.Durable.Integrity.Jobs.{write_job-IsWritable}
use auto_scholar.Durable.Integrity.Guards.{fenced_update, change}

mark-IsWritable :
    (row : WorkflowJobRow) (approval : WorkflowApprovalRow)
    → Ensures {E = Error}
        (IsWritable row)
        (modify
          (λ (db : Db). record db { approvals = mark_approval approval.id consumed db.approvals }))
        (λ _. IsWritable row)
mark-IsWritable row approval = record {
  holds = λ db w. record {
    integral = record {
      events = w.integral.events;
      checkpoints = w.integral.checkpoints;
      keyed = w.integral.keyed;
      owned = w.integral.owned;
      unique = w.integral.unique;
      sound = w.integral.sound;
    };
    numbered = w.numbered;
    has_task = w.has_task;
  };
}

use_approval-IsWritable :
    (now : ℕ) (row : WorkflowJobRow) (found : Option WorkflowApprovalRow)
    → Ensures (IsWritable row) (use_approval now row.task_id found) (λ _. IsWritable row)
unfolding use_approval
use_approval-IsWritable now row none = Ensures-raise approval_required
use_approval-IsWritable now row (some approval) =
    Ensures-bind (Ensures-refuse_if _ approval_required) (λ _.
      Ensures-bind
        (Ensures-weaken (mark-IsWritable row approval) (λ db (w, fresh). w) (λ a db q. q))
        (λ _.
          event-IsWritable row row.task_id "approval_consumed"
            (("approval_id", number approval.id) ∷ [])))

check_approval-IsWritable :
    (now : ℕ) (row : WorkflowJobRow) (hash : Option String)
    → Ensures (IsWritable row) (check_approval now row.task_id hash) (λ _. IsWritable row)
unfolding check_approval
check_approval-IsWritable now row none = Ensures-pure tt (λ db w. w)
check_approval-IsWritable now row (some hash) =
    Ensures-bind
      (Ensures-gets {Q = λ _. IsWritable row}
        (λ (db : Db). find_approval row.task_id hash db.approvals) (λ db w. w))
      (λ found. use_approval-IsWritable now row found)

start_unit-IsWritable :
    (now : ℕ) (active : Table Value) (row : WorkflowJobRow)
    → IsSound row
    → Ensures (IsWritable row) (start_unit now active row) (λ _ db. IsIntegral db)
unfolding start_unit
start_unit-IsWritable now active row s =
    Ensures-if (is_running row.status)
      (λ running. Ensures-bind (check_approval-IsWritable now row (operation_hash active)) (λ _.
        change row (record row { active = active }) refl refl
          (Ensures-bind (write_job-IsWritable _ (record { leased = s.leased; single = s.single }))
            (λ _.
              Ensures-weaken
                (event-IsWritable (record row { active = active }) row.task_id "unit_started"
                  active)
                (λ db w. w) (λ _ db w. w.integral)))))
      (λ idle. Ensures-pure tt (λ db w. w.integral))

begin_held-IsIntegral :
    (now : ℕ) (active : Table Value) (row : WorkflowJobRow)
    → IsSound row
    → Ensures (IsWritable row) (begin_held now active row) (λ _. IsIntegral)
begin_held-IsIntegral now active row s =
    Ensures-bind
      (Ensures-refuse_if (not (is_empty row.active) || not (is_empty row.pending_calls))
        operation_uncertain)
      (λ _. Ensures-assume (λ free.
        Ensures-bind (start_unit-IsWritable now active row s)
          (λ _. Ensures-pure row.status (λ db w. w))))

pub begin-IsIntegral :
    (now : ℕ) (task_id owner : String) (generation : ℕ) (active : Table Value)
    → Keeps IsIntegral (begin now task_id owner generation active)
unfolding begin
begin-IsIntegral now task_id owner generation active =
    fenced_update now task_id owner generation (begin_held now active)
      (λ row s e. begin_held-IsIntegral now active row s)

length-remove : (calls : Table String) (id : String) → length (remove calls id) ≤ length calls
unfolding remove
length-remove [] id = omega arith
length-remove ((k, v) ∷ calls) id = ground (arith, length-remove calls id)

put-empty :
    (calls : Table String) (id kind : String)
    → is_empty calls ≡ true
    → length (put calls id kind) ≤ 1
unfolding put
put-empty [] id kind h = omega arith
put-empty (call ∷ calls) id kind h = absurd (cc)

-- What the pending calls of a job may become.
abbrev Continues : WorkflowJobRow → Result Error WorkflowJobRow → Type 0
Continues row (err e) = Unit {0}
Continues row (ok row') =
    IsSound row'
    × (row'.task_id ≡ row.task_id)
    × (row'.checkpoint_sequence ≡ row.checkpoint_sequence)

either :
    (row : WorkflowJobRow) (test : Bool) (out out' : Result Error WorkflowJobRow)
    → (test ≡ true → Continues row out)
    → (test ≡ false → Continues row out')
    → Continues row (if test then out else out')
either row true out out' on_true on_false = on_true refl
either row false out out' on_true on_false = on_false refl

fewer_calls :
    (row : WorkflowJobRow) (id : String) (usage : Table ℕ)
    → IsSound row
    → IsSound (record row { pending_calls = remove row.pending_calls id; usage = usage })
fewer_calls row id usage s = record {
  leased = s.leased;
  single = omega (arith, length-remove row.pending_calls id, s.single);
}

reject_locally-Continues :
    (call_id : String) (starting : Bool) (row : WorkflowJobRow)
    → IsSound row
    → Continues row (reject_locally call_id starting row)
unfolding reject_locally
reject_locally-Continues call_id starting row s =
    either row starting _ _ (λ _. tt)
      (λ _.
        either row (str_eq call_id "") _ _ (λ _. (s, refl, refl))
          (λ _.
            either row (pops row.pending_calls call_id "llm") _ _
              (λ _. (fewer_calls row call_id _ s, refl, refl)) (λ _. tt)))

start_call-Continues :
    (call_id kind : String) (row : WorkflowJobRow)
    → IsSound row
    → Continues row (start_call call_id kind row)
unfolding start_call
start_call-Continues call_id kind row s =
    either row (not (is_empty row.pending_calls)) _ _ (λ _. tt)
      (λ free.
        either row (is_cancel_requested row.status) _ _ (λ _. tt)
          (λ _. (
            record {
              leased = s.leased;
              single = put-empty row.pending_calls call_id kind (ground (arith, free));
            },
            refl,
            refl,
          )))

finish_call-Continues :
    (call_id kind : String) (row : WorkflowJobRow)
    → IsSound row
    → Continues row (finish_call call_id kind row)
unfolding finish_call
finish_call-Continues call_id kind row s =
    either row (pops row.pending_calls call_id kind) _ _
      (λ _. (fewer_calls row call_id row.usage s, refl, refl)) (λ _. tt)

journal_calls-Continues :
    (call_id kind : String) (starting : Bool) (row : WorkflowJobRow)
    → IsSound row
    → Continues row (journal_calls call_id kind starting row)
unfolding journal_calls
journal_calls-Continues call_id kind starting row s =
    either row (str_eq kind "budget") _ _ (λ _. (s, refl, refl))
      (λ _.
        either row (str_eq kind "llm_local_rejected") _ _
          (λ _. reject_locally-Continues call_id starting row s)
          (λ _.
            either row starting _ _ (λ _. start_call-Continues call_id kind row s)
              (λ _. finish_call-Continues call_id kind row s)))

write_merged :
    (row row' : WorkflowJobRow) (usage : Table ℕ) (elapsed : ℕ)
    → Continues row (ok row')
    → Ensures
        (IsWritable row)
        (write_job (merge_spent usage elapsed row'))
        (λ _. IsWritable (merge_spent usage elapsed row'))
unfolding merge_spent
write_merged row row' usage elapsed (s, key, counter) =
    change row (merge_spent usage elapsed row') key counter
      (write_job-IsWritable _ (record { leased = s.leased; single = s.single }))

lifted :
    (row : WorkflowJobRow) (out : Result Error WorkflowJobRow)
    → Continues row out
    → Ensures (IsWritable row) (lift out) (λ row' db. IsWritable row db × Continues row (ok row'))
unfolding lift
lifted row (ok row') c = record { holds = λ db w. (w, c) }
lifted row (err e) c = record { holds = λ db w. tt }

write_call-IsIntegral :
    (task_id call_id kind : String) (starting : Bool) (usage : Table ℕ) (elapsed : ℕ)
    (row : WorkflowJobRow)
    → IsSound row
    → Ensures
        (IsWritable row)
        (write_call task_id call_id kind starting usage elapsed row)
        (λ _. IsIntegral)
write_call-IsIntegral task_id call_id kind starting usage elapsed row s =
    Ensures-bind (lifted row _ (journal_calls-Continues call_id kind starting row s)) (λ row'.
      Ensures-assume (λ c. Ensures-bind (write_merged row row' usage elapsed c) (λ _.
        Ensures-weaken
          (event-IsWritable (merge_spent usage elapsed row') task_id (journal_event kind starting)
            (journal_payload call_id kind))
          (λ db w. w) (λ _ db w. w.integral))))

pub journal-IsIntegral :
    (now : ℕ) (task_id owner : String) (generation : ℕ) (call_id kind : String) (starting : Bool)
    (usage : Table ℕ) (elapsed : ℕ)
    → Keeps IsIntegral (journal now task_id owner generation call_id kind starting usage elapsed)
unfolding journal
journal-IsIntegral now task_id owner generation call_id kind starting usage elapsed =
    fenced_update now task_id owner generation
      (write_call task_id call_id kind starting usage elapsed)
      (λ row s e. write_call-IsIntegral task_id call_id kind starting usage elapsed row s)
