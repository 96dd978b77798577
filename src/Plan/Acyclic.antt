-- ===== src/Plan/Acyclic.antt =====
-- orchestration/models.py, `validate_graph`: which plans are refused for a cycle.
use auto_scholar.Prelude.{
  ℕ, String, ◌≡◌, ◌≢◌, refl, true, false, Option, none, some, List, [], ◌∷◌, inl, inr, arith, any,
  Option-cases, length, is_some, ◌∙◌,
}
use auto_scholar.Prelude.Table.{Table}
use auto_scholar.Prelude.Sets.{is_subset, subset_elem}
use auto_scholar.Prelude.Result.{err}
use auto_scholar.Plan.{
  PlanStep, TaskPlan, PlanError, cycle, by_id, keys, resolves, validate_graph, first_error,
  check_step, check_coding,
}
use auto_scholar.Plan.Index.{get_key, indexed_step}
use auto_scholar.Plan.Complete.{IsRanked, IsClosed, resolves_complete}

no_error :
    (check : PlanStep → Option PlanError) (steps : List PlanStep)
    → first_error check steps ≡ none
    → any (λ step. is_some (check step)) steps ≡ false
unfolding first_error
no_error check [] h = refl
no_error check (step ∷ steps) h = ground (arith, no_error check steps)

checked_dependencies :
    (table : Table PlanStep) (step : PlanStep)
    → check_step table step ≡ none
    → is_subset step.dependencies (keys table) ≡ true
unfolding check_step
checked_dependencies table step h = ground arith

keys-IsClosed :
    (steps : List PlanStep)
    → first_error (check_step (by_id steps)) steps ≡ none
    → IsClosed (by_id steps) (keys (by_id steps)) []
keys-IsClosed steps h = record {
  known = λ key d m needs.
      let (s, row) = get_key (by_id steps) key m in
      elim (Option-cases (check_step (by_id steps) s)) [
        | inl fine ↦ inl (
            subset_elem s.dependencies (keys (by_id steps)) d
              (checked_dependencies (by_id steps) s fine) (rw row at needs))
        | inr (e, wrong) ↦ absurd (
            cc (
              no_error (check_step (by_id steps)) steps h,
              (indexed_step (λ step. is_some (check_step (by_id steps) step)) steps key s row
                  (rw wrong)).0,
            ))
      ];
}

first_error-ne :
    (check : PlanStep → Option PlanError) (e : PlanError) (steps : List PlanStep)
    → ((step : PlanStep) → check step ≢ some e)
    → first_error check steps ≢ some e
unfolding first_error
first_error-ne check e [] never h = cc
first_error-ne check e (step ∷ steps) never h = elim (Option-cases (check step)) [
  | inl fine ↦ first_error-ne check e steps never (rw (fine, first_error) at h)
  | inr (other, wrong) ↦ never step (wrong ∙ rw (wrong, first_error) at h)
]

check_step-ne : (table : Table PlanStep) (step : PlanStep) → check_step table step ≢ some cycle
unfolding check_step
check_step-ne table step h = ground arith

check_coding-ne : (table : Table PlanStep) (step : PlanStep) → check_coding table step ≢ some cycle
unfolding check_coding
check_coding-ne table step h = ground arith

cycle_checked :
    (plan : TaskPlan)
    → validate_graph plan ≡ err cycle
    → (first_error (check_step (by_id plan.steps)) plan.steps ≡ none)
      × (resolves (by_id plan.steps) (length (keys (by_id plan.steps))) (keys (by_id plan.steps)) []
          ≡ false)
unfolding validate_graph
cycle_checked plan h =
    elim (Option-cases (first_error (check_step (by_id plan.steps)) plan.steps)) [
      | inr (e, wrong) ↦ absurd (
          ground (
            arith,
            wrong,
            first_error-ne (check_step (by_id plan.steps)) cycle plan.steps
                (check_step-ne (by_id plan.steps)),
          ))
      | inl fine ↦ (
        fine,
        ground (
          arith,
          fine,
          first_error-ne (check_coding (by_id plan.steps)) cycle plan.steps
              (check_coding-ne (by_id plan.steps)),
        ),
      )
    ]

-- A plan is refused for a cycle only if it has one: never if the steps can be ranked so that every
-- step ranks above its dependencies.
pub ranked_not_cycle :
    (plan : TaskPlan) (rank : String → ℕ)
    → IsRanked (by_id plan.steps) rank
    → validate_graph plan ≢ err cycle
ranked_not_cycle plan rank r h =
    let (fine, stuck) = cycle_checked plan h in
    cc (
      stuck,
      resolves_complete (by_id plan.steps) rank (length (keys (by_id plan.steps)))
          (keys (by_id plan.steps)) [] r (keys-IsClosed plan.steps fine) (omega arith),
    )
