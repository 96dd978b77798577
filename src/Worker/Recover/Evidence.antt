-- ===== src/Worker/Recover/Evidence.antt =====
-- orchestration/durable.py, `_reconcile` and `_verify_sources`: what the records say of a unit that was
-- interrupted, and that the sources are as they were.
use auto_scholar.Prelude.{
  ℕ, String, true, ◌≡◌, refl, subst, Option, none, some, List, [], ◌∷◌, keep_if, str_eq, eq_iff,
  inl, inr, ◌⊎◌, Bool-cases, Option-cases,
}
use auto_scholar.Prelude.Table.{Table, get}
use auto_scholar.Prelude.Result.{Result, ok, err, Result-cases}
use auto_scholar.Prelude.Ensures.{
  Ensures, After, Ensures-bind, Ensures-raise, Ensures-gets, Ensures-if, Ensures-assume,
}
use auto_scholar.Plan.{TaskPlan}
use auto_scholar.Snapshot.{Value, null, text, number, flag, writer, ReviewResult}
use auto_scholar.Runs.{Run}
use auto_scholar.Worker.{Flow, World, Failure, Files, same_source, value_text, is_text}
use auto_scholar.Worker.Reconcile.{
  StepAttempt, Records, uncertain, is_attempt_of, of_version, ended_attempt, recover_step,
  recover_executor, recover_planner, recover_reviewer, recover_run, reconcile, source_failure,
  sources_failure, verify_sources,
}
use auto_scholar.Worker.Stages.{Anything, is_text_iff}

-- The records tell how a unit ended: for a step exactly one attempt in this version of the plan, which
-- succeeded or failed; exactly one plan or one review of this version; a writer is begun again.
pub data IsEnded (records : Records) (version : ℕ) (active : Table Value) : Type 0 where
  stepped :
      (item : StepAttempt)
      → get active "stage" ≡ some (text "executor")
      → keep_if (is_attempt_of version active) records.attempts ≡ item ∷ []
      → (item.status ≡ "succeeded") ⊎ (item.status ≡ "failed")
      → IsEnded records version active
  planned :
      (n : ℕ) (plan : TaskPlan)
      → get active "stage" ≡ some (text "planner")
      → of_version version records.plans ≡ (n, plan) ∷ []
      → IsEnded records version active
  reviewed :
      (n : ℕ) (review : ReviewResult)
      → get active "stage" ≡ some (text "reviewer")
      → of_version version records.reviews ≡ (n, review) ∷ []
      → IsEnded records version active
  rewritten : get active "stage" ≡ some (text "writer") → IsEnded records version active

-- What is known whatever an action does.
known : {A F : Type 0} (m : Flow A) → F → Ensures Anything m (λ _ _. F)
known {A} {F} m f = record { holds = λ w _. kept (m w) }
  where
    kept : (out : Result Failure A × World) → After (λ _ _. F) out
    kept (ok a, w) = f
    kept (err e, w) = tt

module _ (files : Files) (records : Records) (active : Table Value) where
  executor-IsEnded :
      (version : ℕ) (items : List StepAttempt)
      → keep_if (is_attempt_of version active) records.attempts ≡ items
      → get active "stage" ≡ some (text "executor")
      → Ensures Anything
          (recover_executor files records (ended_attempt items))
          (λ _ _. IsEnded records version active)
  unfolding recover_executor ended_attempt
  executor-IsEnded version [] found at_stage = Ensures-raise uncertain
  executor-IsEnded version (item ∷ []) found at_stage =
      elim (Bool-cases (str_eq item.status "succeeded")) [
        | inl good ↦ rw good (
            known (recover_step files records item)
              (stepped item at_stage found (inl ((eq_iff item.status "succeeded").0 good))))
        | inr other ↦ elim (Bool-cases (str_eq item.status "failed")) [
          | inl bad ↦
              rw (other, bad)
                (known (recover_step files records item)
                  (stepped item at_stage found (inr ((eq_iff item.status "failed").0 bad))))
          | inr open_still ↦ rw (other, open_still) (Ensures-raise uncertain)
        ]
      ]
  executor-IsEnded version (item ∷ item' ∷ items) found at_stage = Ensures-raise uncertain

  planner-IsEnded :
      (version : ℕ) (items : List (ℕ × TaskPlan))
      → of_version version records.plans ≡ items
      → get active "stage" ≡ some (text "planner")
      → Ensures Anything (recover_planner items) (λ _ _. IsEnded records version active)
  unfolding recover_planner
  planner-IsEnded version [] found at_stage = Ensures-raise uncertain
  planner-IsEnded version ((n, plan) ∷ []) found at_stage =
      known (recover_planner ((n, plan) ∷ [])) (planned n plan at_stage found)
  planner-IsEnded version (a ∷ b ∷ items) found at_stage = Ensures-raise uncertain

  reviewer-IsEnded :
      (version : ℕ) (items : List (ℕ × ReviewResult))
      → of_version version records.reviews ≡ items
      → get active "stage" ≡ some (text "reviewer")
      → Ensures Anything (recover_reviewer items) (λ _ _. IsEnded records version active)
  unfolding recover_reviewer
  reviewer-IsEnded version [] found at_stage = Ensures-raise uncertain
  reviewer-IsEnded version ((n, review) ∷ []) found at_stage =
      known (recover_reviewer ((n, review) ∷ [])) (reviewed n review at_stage found)
  reviewer-IsEnded version (a ∷ b ∷ items) found at_stage = Ensures-raise uncertain

  recover_run-IsEnded :
      (run : Run)
      → Ensures Anything
          (recover_run files records active run)
          (λ _ _. IsEnded records run.version active)
  unfolding recover_run
  recover_run-IsEnded run =
      Ensures-if (is_text (get active "stage") "executor")
        (λ h.
          executor-IsEnded run.version (keep_if (is_attempt_of run.version active) records.attempts)
            refl ((is_text_iff (get active "stage") "executor").0 h))
        (λ _.
          Ensures-if (is_text (get active "stage") "planner")
            (λ h.
              planner-IsEnded run.version (of_version run.version records.plans) refl
                ((is_text_iff (get active "stage") "planner").0 h))
            (λ _.
              Ensures-if (is_text (get active "stage") "reviewer")
                (λ h.
                  reviewer-IsEnded run.version (of_version run.version records.reviews) refl
                    ((is_text_iff (get active "stage") "reviewer").0 h))
                (λ _.
                  Ensures-if (is_text (get active "stage") "writer")
                    (λ h.
                      known (λ w. (ok writer, w))
                        (rewritten ((is_text_iff (get active "stage") "writer").0 h)))
                    (λ _. Ensures-raise uncertain))))

  pub reconcile-IsEnded :
      (version : ℕ)
      → Ensures
          (λ w. w.run.version ≡ version)
          (reconcile files records active)
          (λ _ _. IsEnded records version active)
  unfolding reconcile
  reconcile-IsEnded version =
      Ensures-bind
        (Ensures-gets {Q = λ run w. Anything w × (run.version ≡ version)} (λ (w : World). w.run)
          (λ w e. (tt, e)))
        (λ run. Ensures-assume (λ e.
          subst
            (λ n.
              Ensures Anything (recover_run files records active run)
                (λ _ _. IsEnded records n active))
            e (recover_run-IsEnded run)))

module _ (files : Files) (run : Run) where
  -- A source has the digest that its step recorded, and is the one that the step's child task has now.
  abbrev pub IsUnchanged : String → Table String → Type 0
  IsUnchanged key source =
      (result : Table Value) × (get run.results key ≡ some result)
      × (get result "source_sha256" ≡ some (text (files.source_digest source)))
      × (child : String) × (get result "child_task_id" ≡ some (text child))
      × (now : Table String) × (files.source_snapshot child ≡ ok now)
      × (same_source source now ≡ true)

  abbrev pub AreUnchanged : Table (Table String) → Type 0
  AreUnchanged [] = Unit
  AreUnchanged ((key, source) ∷ sources) = IsUnchanged key source × AreUnchanged sources

  only_text : (o : Option Value) (s : String) → value_text o ≡ some s → o ≡ some (text s)
  only_text none s h = absurd (cc (h))
  only_text (some null) s h = absurd (cc (h))
  only_text (some (text t)) s h = cc
  only_text (some (number n)) s h = absurd (cc (h))
  only_text (some (flag b)) s h = absurd (cc (h))

  source-IsUnchanged :
      (key : String) (source : Table String)
      → source_failure files run key source ≡ none
      → IsUnchanged key source
  unfolding source_failure get
  source-IsUnchanged key source h = elim (Option-cases (get run.results key)) [
    | inl missing ↦ absurd (cc (rw (missing, source_failure) at h))
    | inr (result, found) ↦
        elim (Bool-cases (is_text (get result "source_sha256") (files.source_digest source))) [
          | inr differs ↦ absurd (cc (rw (found, differs, source_failure) at h))
          | inl same ↦ elim (Option-cases (value_text (get result "child_task_id"))) [
            | inl unnamed ↦ absurd (cc (rw (found, same, unnamed, source_failure) at h))
            | inr (child, named) ↦ elim (Result-cases (files.source_snapshot child)) [
              | inl (code, failed) ↦
                  absurd (cc (rw (found, same, named, failed, source_failure) at h))
              | inr (now, taken) ↦ elim (Bool-cases (same_source source now)) [
                | inr changed ↦
                    absurd (cc (rw (found, same, named, taken, changed, source_failure) at h))
                | inl kept ↦ (
                  result,
                  found,
                  (is_text_iff (get result "source_sha256") (files.source_digest source)).0 same,
                  child,
                  only_text (get result "child_task_id") child named,
                  now,
                  taken,
                  kept,
                )
              ]
            ]
          ]
        ]
  ]

  sources-AreUnchanged :
      (sources : Table (Table String))
      → sources_failure files run sources ≡ none
      → AreUnchanged sources
  unfolding sources_failure
  sources-AreUnchanged [] h = tt
  sources-AreUnchanged ((key, source) ∷ sources) h =
      elim (Option-cases (source_failure files run key source)) [
        | inl good ↦ (
          source-IsUnchanged key source good,
          sources-AreUnchanged sources (rw (good, sources_failure) at h),
        )
        | inr (e, bad) ↦ absurd (cc (rw (bad, sources_failure) at h))
      ]

pub verify_sources-AreUnchanged :
    {F : Type 0} (files : Files)
    → Ensures (λ _. F) (verify_sources files) (λ _ w. F × AreUnchanged files w.run w.run.sources)
unfolding verify_sources
verify_sources-AreUnchanged files = record {
  holds = λ w f. elim (Option-cases (sources_failure files w.run w.run.sources)) [
    | inl good ↦ rw good (f, sources-AreUnchanged files w.run w.run.sources good)
    | inr (e, bad) ↦ rw bad tt
  ];
}
