-- ===== src/Durable/Approvals/Affected.antt =====
-- orchestration/approvals.py, `modified`: the steps whose results a change of parameters throws away.
use auto_scholar.Prelude.{
  ℕ, zero, suc, ◌≤◌, ◌<◌, String, ◌≡◌, refl, Bool, true, false, not, ◌||◌, List, [], ◌∷◌, ◌++◌, map,
  any, keep_if, length, length-keep_if, arith, Bool-cases, inl, inr, eq_refl,
}
use auto_scholar.Prelude.Sets.{contains, is_subset, contains-append}
use auto_scholar.Plan.{PlanStep, is_coding, is_experiment}
use auto_scholar.Durable.Approvals.{dependents, close_affected, affected_steps}

abbrev waiting : List PlanStep → List String → List PlanStep
waiting steps ids = keep_if (λ step. not (contains ids step.id)) steps

waiting-grow :
    (steps : List PlanStep) (less more : List String)
    → ((x : String) → contains less x ≡ true → contains more x ≡ true)
    → length (waiting steps more) ≤ length (waiting steps less)
waiting-grow [] less more h = omega arith
waiting-grow (step ∷ steps) less more h = ground (arith, waiting-grow steps less more h, h step.id)

waiting-shrink :
    (p : PlanStep → Bool) (steps : List PlanStep) (less more : List String)
    → ((x : String) → contains less x ≡ true → contains more x ≡ true)
    → is_subset (map (λ (step : PlanStep). step.id) (keep_if p steps)) more ≡ true
    → is_subset (map (λ (step : PlanStep). step.id) (keep_if p steps)) less ≡ false
    → length (waiting steps more) < length (waiting steps less)
waiting-shrink p [] less more h inside outside = absurd (cc)
waiting-shrink p (step ∷ steps) less more h inside outside = elim (Bool-cases (p step)) [
  | inl chosen ↦
      ground (
        arith,
        chosen,
        waiting-grow steps less more h,
        h step.id,
        waiting-shrink p steps less more h,
      )
  | inr other ↦ ground (arith, other, waiting-shrink p steps less more h, h step.id)
]

elem_subset :
    (xs zs : List String)
    → ((x : String) → contains xs x ≡ true → contains zs x ≡ true)
    → is_subset xs zs ≡ true
elem_subset [] zs h = refl
elem_subset (y ∷ xs) zs h =
    ground (arith, h y (rw (eq_refl y) refl), elem_subset xs zs (λ x m. h x (ground (arith, m))))

append_left :
    (xs ys : List String) (x : String) → contains xs x ≡ true → contains (xs ++ ys) x ≡ true
append_left xs ys x h = ground (arith, contains-append xs ys x, h)

append_right :
    (xs ys : List String) (x : String) → contains ys x ≡ true → contains (xs ++ ys) x ≡ true
append_right xs ys x h = ground (arith, contains-append xs ys x, h)

close_affected-closes :
    (fuel : ℕ) (steps : List PlanStep) (affected : List String)
    → length (waiting steps affected) < fuel
    → is_subset
        (dependents steps (close_affected fuel steps affected))
        (close_affected fuel steps affected)
      ≡ true
unfolding close_affected
close_affected-closes zero steps affected enough = absurd (omega (arith, enough))
close_affected-closes (suc fuel) steps affected enough =
    elim (Bool-cases (is_subset (dependents steps affected) affected)) [
      | inl closed ↦ rw closed closed
      | inr more ↦ rw more (
          close_affected-closes fuel steps (dependents steps affected ++ affected) (
            omega (
              arith,
              enough,
              waiting-shrink (λ step. any (λ d. contains affected d) step.dependencies) steps
                  affected (dependents steps affected ++ affected)
                  (append_right (dependents steps affected) affected)
                  (elem_subset (dependents steps affected) (dependents steps affected ++ affected)
                    (append_left (dependents steps affected) affected))
                  more,
            )))
    ]

close_affected-keeps :
    (fuel : ℕ) (steps : List PlanStep) (affected : List String) (x : String)
    → contains affected x ≡ true
    → contains (close_affected fuel steps affected) x ≡ true
unfolding close_affected
close_affected-keeps zero steps affected x h = h
close_affected-keeps (suc fuel) steps affected x h =
    elim (Bool-cases (is_subset (dependents steps affected) affected)) [
      | inl closed ↦ rw closed h
      | inr more ↦ rw more (
          close_affected-keeps fuel steps (dependents steps affected ++ affected) x
            (append_right (dependents steps affected) affected x h))
    ]

-- The steps that run again.
abbrev pub changed_steps : List PlanStep → List String
changed_steps steps =
    map (λ (step : PlanStep). step.id)
      (keep_if (λ step. is_coding step.kind || is_experiment step.kind) steps)

-- As many turns as there are steps, and one, are enough for the loop from any start on.
pub close_affected_closed :
    (steps : List PlanStep) (start : List String)
    → (is_subset start (close_affected (suc (length steps)) steps start) ≡ true)
      × (is_subset
            (dependents steps (close_affected (suc (length steps)) steps start))
            (close_affected (suc (length steps)) steps start)
          ≡ true)
close_affected_closed steps start = (
  elem_subset start (close_affected (suc (length steps)) steps start)
      (close_affected-keeps (suc (length steps)) steps start),
  close_affected-closes (suc (length steps)) steps start
      (omega (arith, length-keep_if (λ (step : PlanStep). not (contains start step.id)) steps)),
)

-- The loop that collects the affected steps ends: as many turns as there are steps, and one, are enough.
-- What it collects has every coding step and every experiment, and with each step all steps that depend
-- on it, directly or not, so that no kept result was computed from one that is thrown away.
pub affected_closed :
    (steps : List PlanStep)
    → (is_subset (changed_steps steps) (affected_steps steps) ≡ true)
      × (is_subset (dependents steps (affected_steps steps)) (affected_steps steps) ≡ true)
affected_closed steps = close_affected_closed steps (changed_steps steps)
