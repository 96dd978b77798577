-- ===== src/Tools/Once.antt =====
-- tool_platform/operations.py, `execute`: the action of an operation is run at most once.
use auto_scholar.Prelude.{
  ℕ, ◌+◌, ◌≤◌, String, ◌≡◌, refl, Bool, true, false, Option, none, some, List, [], ◌∷◌, ◌⊎◌, inl,
  inr, arith, ap, sym, ◌∙◌, subst, is_some, str_eq, eq_iff, eq_refl, if◌then◌else◌, Option-cases,
  Bool-cases,
}
use auto_scholar.Prelude.Table.{Table, get, put, get-put, get-put_self}
use auto_scholar.Prelude.Result.{
  Result, ok, err, gets, ◌>>=◌, ◌>>◌, bind_ok, bind_err, transaction_ok, transaction_err,
}
use auto_scholar.Durable.Rows.{ToolResult, ToolOperationRow, Db}
use auto_scholar.Tools.{
  Context, ToolError, denied, denial, deny, authorize, receipt, failure, task_in, is_same_operation,
  new_operation, reserve_or_receipt, reservation, caught,
}
use auto_scholar.Tools.Execution.{
  Action, World, run_action, run_reserved, execute_reserved, after_reservation, execute,
}

module _ (authority : Context → String) (service : String) (now : ℕ) (context : Context)
    (db : Db) where
  authorize_denied :
      {code : String}
      → denial now false context db ≡ some code
      → authorize now false context db ≡ (err (denied code), db)
  unfolding authorize
  authorize_denied h = ap (λ x. deny x db) h

  authorize_passed :
      denial now false context db ≡ none → authorize now false context db ≡ (ok tt, db)
  unfolding authorize
  authorize_passed h = ap (λ x. deny x db) h

  reservation_denied :
      {code : String}
      → denial now false context db ≡ some code
      → reservation authority service now context db ≡ (err (denied code), db)
  unfolding reservation
  reservation_denied h =
      transaction_err
        (do
          authorize now false context
          existing ← gets (λ (x : Db). get x.operations context.operation_id)
          reserve_or_receipt authority service context existing)
        (bind_err (authorize now false context)
          (λ _. do
            existing ← gets (λ (x : Db). get x.operations context.operation_id)
            reserve_or_receipt authority service context existing)
          (authorize_denied h))

  reservation_passed :
      {out : Option ToolResult} {db' : Db} (existing : Option ToolOperationRow)
      → denial now false context db ≡ none
      → get db.operations context.operation_id ≡ existing
      → reserve_or_receipt authority service context existing db ≡ (ok out, db')
      → reservation authority service now context db ≡ (ok out, db')
  unfolding reservation
  reservation_passed existing h found done =
      transaction_ok
        (do
          authorize now false context
          existing' ← gets (λ (x : Db). get x.operations context.operation_id)
          reserve_or_receipt authority service context existing')
        (bind_ok (authorize now false context)
            (λ _. do
              existing' ← gets (λ (x : Db). get x.operations context.operation_id)
              reserve_or_receipt authority service context existing')
            (authorize_passed h)
          ∙ ap (λ (x : Option ToolOperationRow). reserve_or_receipt authority service context x db)
              found
          ∙ done)

-- How often an operation's action has been run.
pub times_run : String → List String → ℕ
times_run id [] = 0
times_run id (other ∷ ran) = (if str_eq other id then 1 else 0) + times_run id ran

-- Other transactions do not delete the rows of operations.
abbrev pub IsKept : (Db → Db) → Type 0
IsKept between =
    (db : Db) (id : String)
    → is_some (get db.operations id) ≡ true
    → is_some (get (between db).operations id) ≡ true

-- What one call may do to a world.
pub record Advances (id : String) (w w' : World) : Type 0 where
  pub rows :
      (j : String)
      → is_some (get w.db.operations j) ≡ true
      → is_some (get w'.db.operations j) ≡ true
  pub runs :
      (w'.ran ≡ w.ran)
      ⊎ ((w'.ran ≡ id ∷ w.ran)
          × (is_some (get w.db.operations id) ≡ false)
          × (is_some (get w'.db.operations id) ≡ true))

has_row-put :
    (rows : Table ToolOperationRow) (id : String) (row : ToolOperationRow) (j : String)
    → is_some (get rows j) ≡ true
    → is_some (get (put rows id row) j) ≡ true
has_row-put rows id row j h = ground (arith, get-put rows id j row)

-- The second transaction, on a database that has the row.
abbrev After : Context → World → World → Type 0
After context w w' =
    ((j : String)
      → is_some (get w.db.operations j) ≡ true
      → is_some (get w'.db.operations j) ≡ true)
    × ((w'.ran ≡ w.ran) ⊎ (w'.ran ≡ context.operation_id ∷ w.ran))

run_action-After :
    (context : Context) (row : ToolOperationRow) (action : Action) (w : World)
    → After context w (run_action context row action w).1
unfolding run_action
run_action-After context row (ok result) w =
    (λ j. has_row-put w.db.operations context.operation_id _ j, inr refl)
run_action-After context row (err e) w = (λ j h. h, inr refl)

run_reserved-After :
    (context : Context) (action : Action) (existing : Option ToolOperationRow) (w : World)
    → After context w (run_reserved context action existing w).1
unfolding run_reserved
run_reserved-After context action none w = (λ j h. h, inl refl)
run_reserved-After context action (some row) w = run_action-After context row action w

execute_reserved-After :
    (now : ℕ) (context : Context) (action : Action) (code : Option String) (w : World)
    → After context w (execute_reserved now context action code w).1
unfolding execute_reserved
execute_reserved-After now context action (some code) w = (λ j h. h, inl refl)
execute_reserved-After now context action none w =
    run_reserved-After context action (get w.db.operations context.operation_id) w

module _ (authority : Context → String) (service : String) (now later : ℕ) (between : Db → Db)
    (context : Context) (action : Action) (w : World) where
  execute_at :
      (out : Result ToolError (Option ToolResult)) (db : Db)
      → reservation authority service now context w.db ≡ (out, db)
      → execute authority service now later between context action w ≡ (
        caught
            (λ result. result)
            (after_reservation later between context action out (record w { db = db })).0,
        (after_reservation later between context action out (record w { db = db })).1,
      )
  unfolding execute
  execute_at out db h =
      ap
        (λ (x : Result ToolError (Option ToolResult) × Db). (
          caught (λ result. result)
              (after_reservation later between context action x.0 (record w { db = x.1 })).0,
          (after_reservation later between context action x.0 (record w { db = x.1 })).1,
        ))
        h

  execute-denied :
      {code : String}
      → denial now false context w.db ≡ some code
      → (execute authority service now later between context action w).1 ≡ w
  unfolding after_reservation
  execute-denied h =
      ap (λ (x : Result ToolError ToolResult × World). x.1)
        (execute_at _ _ (reservation_denied authority service now context w.db h))

  execute-known :
      (row : ToolOperationRow)
      → denial now false context w.db ≡ none
      → get w.db.operations context.operation_id ≡ some row
      → execute authority service now later between context action w
        ≡ (ok (receipt authority service row context), w)
  unfolding after_reservation reserve_or_receipt
  execute-known row passed found =
      execute_at _ _
        (reservation_passed authority service now context w.db (some row) passed found refl)

  abbrev reserved : Db
  reserved = record w.db {
    operations = put w.db.operations context.operation_id (new_operation authority service context);
  }

  execute-new :
      IsKept between
      → denial now false context w.db ≡ none
      → get w.db.operations context.operation_id ≡ none
      → Advances context.operation_id w
          (execute authority service now later between context action w).1
  unfolding after_reservation reserve_or_receipt
  execute-new kept passed absent =
      let out =
        execute_at _ _
          (reservation_passed authority service now context w.db none passed absent refl) in
      let w' : World = record w { db = between reserved } in
      let (rows, runs) =
        execute_reserved-After later context action (denial later false context w'.db) w' in
      let grown : (j : String)
          → is_some (get w.db.operations j) ≡ true
          → is_some (get w'.db.operations j) ≡ true =
        λ j h. kept reserved j (has_row-put w.db.operations context.operation_id _ j h) in
      let here : is_some (get w'.db.operations context.operation_id) ≡ true =
        kept reserved context.operation_id (
          ap is_some (
            get-put_self w.db.operations context.operation_id
              (new_operation authority service context))) in
      subst (Advances context.operation_id w)
        (ap (λ (x : Result ToolError ToolResult × World). x.1) (sym out))
        (record {
          rows = λ j h. rows j (grown j h);
          runs = elim runs [
            | inl idle ↦ inl idle
            | inr ran ↦ inr (ran, ap is_some absent, rows context.operation_id here)
          ];
        })

  execute-Advances :
      IsKept between
      → Advances context.operation_id w
          (execute authority service now later between context action w).1
  execute-Advances kept = elim (Option-cases (denial now false context w.db)) [
    | inr (code, refused) ↦ still (execute-denied refused)
    | inl passed ↦ elim (Option-cases (get w.db.operations context.operation_id)) [
      | inl absent ↦ execute-new kept passed absent
      | inr (row, found) ↦
          still
            (ap (λ (x : Result ToolError ToolResult × World). x.1) (execute-known row passed found))
    ]
  ]
    where
      still : {w' : World} → w' ≡ w → Advances context.operation_id w w'
      still e =
          subst (Advances context.operation_id w) (sym e)
            (record { rows = λ j h. h; runs = inl refl })

-- Calls of `execute`: each by any service, at any times, with any context and any outcome of its action.
pub record Call : Type 0 where
  pub service : String
  pub now : ℕ
  pub later : ℕ
  pub between : Db → Db
  pub context : Context
  pub action : Action

unfoldable pub run_all : (Context → String) → List Call → World → World
run_all authority [] w = w
run_all authority (call ∷ calls) w =
    run_all authority calls
      (execute authority call.service call.now call.later call.between call.context call.action w).1

abbrev pub AreKept : List Call → Type 0
AreKept [] = Unit {0}
AreKept (call ∷ calls) = IsKept call.between × AreKept calls

-- An operation with no row has not been run, and none has been run twice.
record IsOnce (w : World) : Type 0 where
  at_most : (id : String) → times_run id w.ran ≤ 1
  unknown : (id : String) → is_some (get w.db.operations id) ≡ false → times_run id w.ran ≡ 0

lost_row : (a b : Bool) → (a ≡ true → b ≡ true) → b ≡ false → a ≡ false
lost_row true b kept h = absurd (cc (kept refl, h))
lost_row false b kept h = refl

times-idle :
    (id : String) (w w' : World) → w'.ran ≡ w.ran → times_run id w'.ran ≡ times_run id w.ran
times-idle id w w' e = ap (times_run id) e

Advances-IsOnce : (id : String) (w w' : World) → Advances id w w' → IsOnce w → IsOnce w'
unfolding times_run
Advances-IsOnce id w w' a o = elim a.runs [
  | inl idle ↦ record {
    at_most = λ j. rw idle (o.at_most j);
    unknown = λ j gone. rw idle (o.unknown j (lost_row _ _ (a.rows j) gone));
  }
  | inr (ran, fresh, known) ↦ record {
    at_most = λ j. rw ran (elim (Bool-cases (str_eq id j)) [
      | inl same ↦
          let e : id ≡ j = ground (arith, same, eq_iff id j) in
          let none_yet : times_run j w.ran ≡ 0 =
            subst (λ k. times_run k w.ran ≡ 0) e (o.unknown id fresh) in
          rw same (omega (arith, none_yet))
      | inr other ↦ rw other (omega (arith, o.at_most j))
    ]);
    unknown = λ j gone. rw ran (elim (Bool-cases (str_eq id j)) [
      | inl same ↦
          let e : id ≡ j = ground (arith, same, eq_iff id j) in
          absurd (cc (subst (λ k. is_some (get w'.db.operations k) ≡ true) e known, gone))
      | inr other ↦ rw other (omega (arith, o.unknown j (lost_row _ _ (a.rows j) gone)))
    ]);
  }
]

run_all-IsOnce :
    (authority : Context → String) (calls : List Call) (w : World)
    → AreKept calls
    → IsOnce w
    → IsOnce (run_all authority calls w)
unfolding run_all
run_all-IsOnce authority [] w kept o = o
run_all-IsOnce authority (call ∷ calls) w (kept, rest) o = run_all-IsOnce authority calls _ rest (
    Advances-IsOnce call.context.operation_id w _
      (execute-Advances authority call.service call.now call.later call.between call.context
        call.action w kept)
      o)

-- No operation is run twice. Over any calls of `execute`, by any services and with any contexts, whether
-- an action returns or raises half-way, and whatever other transactions do between the reservation and
-- the action as long as they delete no row of an operation: the action of each operation identifier is
-- run at most once.
pub execute_at_most_once :
    (authority : Context → String) (calls : List Call) (w : World) (id : String)
    → AreKept calls
    → w.ran ≡ []
    → times_run id (run_all authority calls w).ran ≤ 1
unfolding times_run
execute_at_most_once authority calls w id kept idle =
    (run_all-IsOnce authority calls w kept
        (record { at_most = λ j. rw idle (omega arith); unknown = λ j gone. rw idle refl })).at_most
      id

-- The row is that of this operation: the same service, task, tool, arguments and authority.
pub record IsSame (authority : Context → String) (service : String) (row : ToolOperationRow)
    (context : Context) : Type 0 where
  pub of_service : row.service ≡ service
  pub of_task : row.task_id ≡ task_in context
  pub of_tool : row.tool ≡ context.tool
  pub of_arguments : row.arguments_sha256 ≡ context.arguments_sha256
  pub of_authority : row.authority_sha256 ≡ authority context

-- What a repeated call is answered.
pub data Answers (authority : Context → String) (service : String) (row : ToolOperationRow)
    (context : Context) (answer : ToolResult) : Type 0 where
  stored :
      IsSame authority service row context
      → row.is_completed ≡ true
      → row.result ≡ some answer
      → Answers authority service row context answer
  unsure :
      IsSame authority service row context
      → (row.is_completed ≡ false) ⊎ (row.result ≡ none)
      → answer ≡ failure "operation_uncertain" true
      → Answers authority service row context answer
  conflict :
      ¬ IsSame authority service row context
      → answer ≡ failure "operation_identity_conflict" false
      → Answers authority service row context answer

module _ (authority : Context → String) (service : String) (row : ToolOperationRow)
    (context : Context) where
  is_same_operation-IsSame :
      is_same_operation authority service row context ≡ true → IsSame authority service row context
  is_same_operation-IsSame h = record {
    of_service = ground (arith, h, eq_iff row.service service);
    of_task = ground (arith, h, eq_iff row.task_id (task_in context));
    of_tool = ground (arith, h, eq_iff row.tool context.tool);
    of_arguments = ground (arith, h, eq_iff row.arguments_sha256 context.arguments_sha256);
    of_authority = ground (arith, h, eq_iff row.authority_sha256 (authority context));
  }

  IsSame-is_same_operation :
      IsSame authority service row context → is_same_operation authority service row context ≡ true
  IsSame-is_same_operation same =
      rw (same.of_service, same.of_task, same.of_tool, same.of_arguments, same.of_authority)
        (ground (
          arith,
          eq_refl service,
          eq_refl (task_in context),
          eq_refl context.tool,
          eq_refl context.arguments_sha256,
          eq_refl (authority context),
        ))

  receipt-Answers :
      (answer : ToolResult)
      → answer ≡ receipt authority service row context
      → Answers authority service row context answer
  unfolding receipt
  receipt-Answers answer e = elim (Bool-cases (is_same_operation authority service row context)) [
    | inl h ↦ elim (Bool-cases row.is_completed) [
      | inl done ↦ elim (Option-cases row.result) [
        | inl gone ↦ unsure (is_same_operation-IsSame h) (inr gone) (e ∙ rw (h, done, gone) refl)
        | inr (result, kept) ↦
            stored (is_same_operation-IsSame h) done
              (kept ∙ ap some (sym (e ∙ rw (h, done, kept) refl)))
      ]
      | inr open_still ↦
          unsure (is_same_operation-IsSame h) (inl open_still) (e ∙ rw (h, open_still) refl)
    ]
    | inr h ↦ conflict (λ same. absurd (cc (h, IsSame-is_same_operation same))) (e ∙ rw h refl)
  ]

-- A repeated call is answered from the receipt, and runs nothing: once an operation has a row, `execute`
-- leaves the world as it is. If the caller is authorized, its answer is the stored result if the row is of
-- the same service, task, tool, arguments and authority, completed and with a result; it is
-- `operation_uncertain` if all of these are the same and the row is not completed or has no result; it is
-- `operation_identity_conflict` if one of them differs.
pub execute_repeated :
    (authority : Context → String) (service : String) (now later : ℕ) (between : Db → Db)
    (context : Context) (action : Action) (w : World) (row : ToolOperationRow)
    → get w.db.operations context.operation_id ≡ some row
    → ((execute authority service now later between context action w).1 ≡ w)
      × (denial now false context w.db ≡ none
          → (answer : ToolResult) × ((execute authority service now later between context action
                w).0
              ≡ ok answer)
            × Answers authority service row context answer)
execute_repeated authority service now later between context action w row found = (
  elim (Option-cases (denial now false context w.db)) [
    | inl passed ↦
        ap (λ (x : Result ToolError ToolResult × World). x.1)
          (execute-known authority service now later between context action w row passed found)
    | inr (code, refused) ↦
        execute-denied authority service now later between context action w refused
  ],
  λ passed. (
    receipt authority service row context,
    ap (λ (x : Result ToolError ToolResult × World). x.0)
        (execute-known authority service now later between context action w row passed found),
    receipt-Answers authority service row context _ refl,
  ),
)
