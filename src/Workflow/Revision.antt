-- ===== src/Workflow/Revision.antt =====
-- orchestration/service.py, `_replanner`: what a revision of the plan throws away, and what it keeps.
use auto_scholar.Prelude.{
  suc, ◌+◌, ◌≤◌, String, Bool, true, false, not, ◌&&◌, Option, none, some, List, [], ◌∷◌, ◌++◌, map,
  ◌≡◌, refl, inl, inr, any, keep_if, arith, eq_iff, Bool-cases, Option-cases, if◌then◌else◌, ap,
  ◌∙◌, subst,
}
use auto_scholar.Prelude.Table.{Table, get, put, remove, get-remove}
use auto_scholar.Prelude.Sets.{contains, is_subset, subset_elem, contains-append}
use auto_scholar.Prelude.Result.{ok, Result-cases}
use auto_scholar.Budget.{used_of}
use auto_scholar.Plan.{PlanStep, TaskPlan, by_id, keys}
use auto_scholar.Plan.Index.{indexed_step}
use auto_scholar.Snapshot.{ReviewResult}
use auto_scholar.Runs.{Run}
use auto_scholar.Durable.Approvals.{dependents}
use auto_scholar.Durable.Approvals.Affected.{close_affected_closed}
use auto_scholar.Workflow.{
  PlanRevision, PlanStep-discrete, same_step, same_entry, downstream, changed_keys, retains,
  repairs_of, exceeds_repairs, issue_steps, revision_of, revision_affected, retire, apply_revision,
  validate_plan,
}

-- What the loop over the affected steps leaves.
record Retired (keys : List String) (before after : Run) : Type 0 where
  pub results :
      (key : String)
      → get after.results key ≡ (if contains keys key then none else get before.results key)
  pub sources :
      (key : String)
      → get after.sources key ≡ (if contains keys key then none else get before.sources key)

retire-Retired : (keys : List String) (run : Run) → Retired keys run (retire keys run)
unfolding retire
retire-Retired [] run = record { results = λ key. refl; sources = λ key. refl }
retire-Retired (k ∷ keys) run =
    let cut : Run = record run { results = remove run.results k; sources = remove run.sources k } in
    elim (Option-cases (get run.sources k)) [
      | inl missing ↦
          let rest = retire-Retired keys cut in
          rw missing (record {
            results = λ key. ground (arith, rest.results key, get-remove run.results k key);
            sources = λ key. ground (arith, rest.sources key, get-remove run.sources k key);
          })
      | inr (source, found) ↦
          let rest =
            retire-Retired keys
              (record cut { previous_sources = put run.previous_sources k source }) in
          rw found (record {
            results = λ key. ground (arith, rest.results key, get-remove run.results k key);
            sources = λ key. ground (arith, rest.sources key, get-remove run.sources k key);
          })
    ]

same_step_eq : (a b : PlanStep) → same_step a b ≡ true → a ≡ b
unfolding PlanStep-discrete
same_step_eq a b h =
    elim (PlanStep-discrete a b) as (λ d. elim d [ yes _ ↦ true | no _ ↦ false ] ≡ true → a ≡ b) [
      | yes e ↦ λ _. e
      | no _ ↦ λ k. absurd (cc)
    ]
      h

same_entry_eq :
    (o : Option PlanStep) (step : PlanStep) → same_entry o (some step) ≡ true → o ≡ some step
same_entry_eq none step h = absurd (cc)
same_entry_eq (some old) step h = ap some (same_step_eq old step h)

key-get :
    {V : Type 0} (t : Table V) (k : String) (v : V) → get t k ≡ some v → contains (keys t) k ≡ true
unfolding get
key-get [] k v h = absurd (cc)
key-get ((j, w) ∷ t) k v h = ground (arith, key-get t k v)

contains-keep_if :
    (p : String → Bool) (xs : List String) (x : String)
    → contains xs x ≡ true
    → p x ≡ true
    → contains (keep_if p xs) x ≡ true
contains-keep_if p [] x h k = absurd (cc)
contains-keep_if p (y ∷ xs) x h k = ground (arith, eq_iff y x, contains-keep_if p xs x)

-- A step that nobody asked to run again is the old step.
kept_step :
    (old new : TaskPlan) (reruns affected : List String) (key : String) (step : PlanStep)
    → is_subset (reruns ++ changed_keys (by_id old.steps) (by_id new.steps)) affected ≡ true
    → contains affected key ≡ false
    → get (by_id new.steps) key ≡ some step
    → get (by_id old.steps) key ≡ some step
unfolding changed_keys
kept_step old new reruns affected key step covers outside found =
    let start = reruns ++ changed_keys (by_id old.steps) (by_id new.steps) in
    let there = key-get (by_id new.steps) key step found in
    elim (Bool-cases (same_entry (get (by_id old.steps) key) (get (by_id new.steps) key))) [
      | inl same ↦ same_entry_eq (get (by_id old.steps) key) step (rw found at same)
      | inr changed ↦
          let listed =
            contains-keep_if
              (λ k. not (same_entry (get (by_id old.steps) k) (get (by_id new.steps) k)))
              (keys (by_id new.steps)) key there (rw changed refl) in
          let inside = subset_elem start affected key covers (
            ground (
              arith,
              contains-append reruns (changed_keys (by_id old.steps) (by_id new.steps)) key,
              listed,
            )) in
          absurd (cc (outside, inside))
    ]

dependents-closed :
    (p : PlanStep → Bool) (steps : List PlanStep) (affected : List String)
    → is_subset (map (λ (step : PlanStep). step.id) (keep_if p steps)) affected ≡ true
    → any (λ step. p step && not (contains affected step.id)) steps ≡ false
dependents-closed p [] affected h = refl
dependents-closed p (step ∷ steps) affected h = ground (arith, dependents-closed p steps affected)

-- A step that does not run again depends on none that does.
kept_dependencies :
    (steps : List PlanStep) (affected : List String) (key : String) (step : PlanStep)
    → is_subset (dependents steps affected) affected ≡ true
    → contains affected key ≡ false
    → get (by_id steps) key ≡ some step
    → any (λ d. contains affected d) step.dependencies ≡ false
kept_dependencies steps affected key step closed outside found =
    let p : PlanStep → Bool = λ s. any (λ d. contains affected d) s.dependencies in
    let none_left = dependents-closed p steps affected closed in
    let named : step.id ≡ key = (indexed_step (λ _. true) steps key step found refl).1 in
    elim (Bool-cases (any (λ d. contains affected d) step.dependencies)) [
      | inr free ↦ free
      | inl uses ↦
          let here =
            indexed_step (λ s. p s && not (contains affected s.id)) steps key step found
              (rw (uses, named, outside) refl) in
          absurd (cc (none_left, here.0))
    ]

-- What holds of an accepted set of affected steps.
record Accepted (run : Run) (old : TaskPlan) (review : ReviewResult) (revision : PlanRevision)
    (affected : List String) : Type 0 where
  pub collected :
      affected
      ≡ downstream revision.plan
          (revision.rerun_steps ++ changed_keys (by_id old.steps) (by_id revision.plan.steps))
  pub valid : validate_plan run revision.plan ≡ none
  pub retained : retains old revision.plan ≡ true
  pub covers_issues : is_subset (issue_steps review) affected ≡ true
  pub affordable : exceeds_repairs run affected revision.plan ≡ false

revision_of-Accepted :
    (run : Run) (old : TaskPlan) (review : ReviewResult) (revision : PlanRevision)
    (affected : List String)
    → revision_of run old review revision ≡ ok affected
    → Accepted run old review revision affected
unfolding revision_of
revision_of-Accepted run old review revision affected h = record {
  collected = ground arith;
  valid = ground arith;
  retained = ground arith;
  covers_issues = ground arith;
  affordable = ground arith;
}

is_subset-append_left :
    (xs ys zs : List String) → is_subset (xs ++ ys) zs ≡ true → is_subset xs zs ≡ true
is_subset-append_left [] ys zs h = refl
is_subset-append_left (x ∷ xs) ys zs h = ground (arith, is_subset-append_left xs ys zs)

-- A run after a revision, for the set of the steps that run again.
pub record IsRevised (old : TaskPlan) (review : ReviewResult) (revision : PlanRevision)
    (affected : List String) (before after : Run) : Type 0 where
  pub plan : after.plan ≡ some revision.plan
  pub version : after.version ≡ suc before.version
  pub retained : retains old revision.plan ≡ true
  pub reruns : is_subset revision.rerun_steps affected ≡ true
  pub issues : is_subset (issue_steps review) affected ≡ true
  pub repairs :
      repairs_of revision.plan affected + used_of before.budget.used "code_repairs"
      ≤ before.budget.limits.code_repairs
  pub cleared :
      (key : String)
      → contains affected key ≡ true
      → (get after.results key ≡ none) × (get after.sources key ≡ none)
  pub kept :
      (key : String) (step : PlanStep)
      → contains affected key ≡ false
      → get (by_id revision.plan.steps) key ≡ some step
      → (get (by_id old.steps) key ≡ some step)
        × (any (λ d. contains affected d) step.dependencies ≡ false)
        × (get after.results key ≡ get before.results key)
        × (get after.sources key ≡ get before.sources key)

repairs_le :
    (run : Run) (affected : List String) (plan : TaskPlan)
    → exceeds_repairs run affected plan ≡ false
    → repairs_of plan affected + used_of run.budget.used "code_repairs"
      ≤ run.budget.limits.code_repairs
unfolding exceeds_repairs
repairs_le run affected plan h = ground arith

Accepted-IsRevised :
    (run : Run) (old : TaskPlan) (review : ReviewResult) (revision : PlanRevision)
    (affected : List String)
    → Accepted run old review revision affected
    → IsRevised old review revision affected run
        (record (retire affected run) { plan = some revision.plan; version = suc run.version })
unfolding downstream
Accepted-IsRevised run old review revision affected a =
    let changed = changed_keys (by_id old.steps) (by_id revision.plan.steps) in
    let closed = close_affected_closed revision.plan.steps (revision.rerun_steps ++ changed) in
    let covers : is_subset (revision.rerun_steps ++ changed) affected ≡ true =
      rw a.collected closed.0 in
    let shut : is_subset (dependents revision.plan.steps affected) affected ≡ true =
      rw a.collected closed.1 in
    let retired = retire-Retired affected run in
    record {
      plan = refl;
      version = refl;
      retained = a.retained;
      reruns = is_subset-append_left revision.rerun_steps changed affected covers;
      issues = a.covers_issues;
      repairs = repairs_le run affected revision.plan a.affordable;
      cleared = λ key inside.
          (retired.results key ∙ rw inside refl, retired.sources key ∙ rw inside refl);
      kept = λ key step outside found. (
        kept_step old revision.plan revision.rerun_steps affected key step covers outside found,
        kept_dependencies revision.plan.steps affected key step shut outside found,
        retired.results key ∙ rw outside refl,
        retired.sources key ∙ rw outside refl,
      );
    }

-- After a plan was revised for a review, whatever revision a model proposed: there is a set of
-- affected steps with every step that was to run again and every step that the review named; the
-- coding steps among them, with the repairs that were spent, are within the limit. The affected
-- steps have no result and no source. Every other step of the new plan is a step of the old plan,
-- unchanged; it depends on no affected step, and keeps its result and its source. The new plan has
-- all steps of the old one with their types, and its goal, and the version is the next one.
pub apply_revision-IsRevised :
    (run : Run) (old : TaskPlan) (review : ReviewResult) (revision : PlanRevision) {after : Run}
    → run.plan ≡ some old
    → run.review ≡ some review
    → apply_revision run revision ≡ ok after
    → (affected : List String) × IsRevised old review revision affected run after
unfolding apply_revision revision_affected
apply_revision-IsRevised run old review revision {after} planned reviewed h =
    elim (Result-cases (revision_of run old review revision)) [
      | inl (e, refused) ↦
          absurd (cc (rw (planned, reviewed, refused, revision_affected, apply_revision) at h))
      | inr (affected, accepted) ↦
          let revised =
            Accepted-IsRevised run old review revision affected
              (revision_of-Accepted run old review revision affected accepted) in
          let same : record (retire affected run) {
            plan = some revision.plan;
            version = suc run.version;
          }
              ≡ after =
            cc (rw (planned, reviewed, accepted, revision_affected, apply_revision) at h) in
          (affected, subst (IsRevised old review revision affected run) same revised)
    ]
