-- ===== src/Worker/Stages.antt =====
-- The stages of orchestration/durable.py, `_unit`, as a state machine.
use auto_scholar.Prelude.{
  String, ◌≢◌, [], ◌∷◌, ap, sym, subst, ℕ, Bool, true, not, ◌&&◌, Option, none, some, List, ◌≡◌,
  refl, inl, inr, Bool-cases, all, length, ◌==◌, str_eq, eq_iff, if◌then◌else◌, arith,
}
use auto_scholar.Prelude.Table.{Table, get}
use auto_scholar.Prelude.Result.{Result, ok, err, gets, refuse_if}
use auto_scholar.Prelude.Ensures.{After, Ensures, Ensures-bind, Ensures-pure, Ensures-gets}
use auto_scholar.Plan.{PlanStep, TaskPlan}
use auto_scholar.Snapshot.{
  Value, text, Stage, planner, executor, quality, reviewer, replanner, writer, done, Verdict, pass,
  replan, ReviewResult, is_research,
}
use auto_scholar.Runs.{Run}
use auto_scholar.Worker.{Flow, World, Failure, raised, Agents, Claim, is_text}
use auto_scholar.Worker.Unit.{
  unit, run_executor, work_on, plan_steps, next_step, next_stage, after_execution, after_review,
  after_verdict, after_quality,
}

-- The status of every result is "succeeded".
abbrev pub HaveSucceeded : Table (Table Value) → Type 0
HaveSucceeded [] = Unit
HaveSucceeded ((key, item) ∷ results) =
    (get item "status" ≡ some (text "succeeded")) × HaveSucceeded results

-- Research that is to be improved: at more than the quick depth, and every step succeeded.
pub record IsImprovable (run : Run) : Type 0 where
  pub researches : is_research run.workflow_kind ≡ true
  pub thorough : run.research_depth ≢ "quick"
  pub succeeded : HaveSucceeded run.results

-- Which stage may follow which, in the world after the unit. The executor stays as long as there are
-- not as many results as steps; a review decides between the writer and a new plan.
pub data Edge (w : World) : Stage → Stage → Type 0 where
  plans : Edge w planner executor
  works :
      (plan : TaskPlan)
      → w.run.plan ≡ some plan
      → length w.run.results ≢ length plan.steps
      → Edge w executor executor
  drafts :
      (plan : TaskPlan)
      → w.run.plan ≡ some plan
      → length w.run.results ≡ length plan.steps
      → IsImprovable w.run
      → Edge w executor quality
  submits :
      (plan : TaskPlan)
      → w.run.plan ≡ some plan
      → length w.run.results ≡ length plan.steps
      → ¬ IsImprovable w.run
      → Edge w executor reviewer
  improves : w.run.quality.phase ≢ "done" → Edge w quality quality
  audits : w.run.quality.phase ≡ "done" → Edge w quality reviewer
  accepts :
      (review : ReviewResult)
      → w.run.review ≡ some review
      → review.status ≡ pass
      → Edge w reviewer writer
  refuses :
      (review : ReviewResult)
      → w.run.review ≡ some review
      → review.status ≡ replan
      → Edge w reviewer replanner
  replans : Edge w replanner executor
  finishes : Edge w writer done
  rests : Edge w done done

abbrev pub Anything : World → Type 0
Anything w = Unit

After-any : {A : Type 0} (out : Result Failure A × World) → After (λ _ w. Anything w) out
After-any (ok a, w) = tt
After-any (err e, w) = tt

-- Nothing is asked of an agent.
pub some_flow : {A : Type 0} (m : Flow A) → Ensures Anything m (λ _ w. Anything w)
some_flow m = record { holds = λ w _. After-any (m w) }

pub is_text_iff :
    (o : Option Value) (word : String)
    → (is_text o word ≡ true → o ≡ some (text word))
      × (o ≡ some (text word) → is_text o word ≡ true)
is_text_iff none word = (λ h. absurd (cc (h)), λ h. absurd (cc (h)))
is_text_iff (some (text s)) word = (
  λ h. ap (λ (t : String). some (text t)) ((eq_iff s word).0 h),
  λ h. ground (arith, h, eq_iff s word),
)
is_text_iff (some v) word = (λ h. absurd (cc (h)), λ h. absurd (cc (h)))

abbrev all_succeeded : Table (Table Value) → Bool
all_succeeded results = all (λ (key, item). is_text (get item "status") "succeeded") results

all-HaveSucceeded :
    (results : Table (Table Value))
    → (all_succeeded results ≡ true → HaveSucceeded results)
      × (HaveSucceeded results → all_succeeded results ≡ true)
all-HaveSucceeded [] = (λ _. tt, λ _. refl)
all-HaveSucceeded ((key, item) ∷ results) =
    let (found, told) = is_text_iff (get item "status") "succeeded" in
    let (rest, rest_told) = all-HaveSucceeded results in
    (
      λ h. (found (ground (arith, h)), rest (ground (arith, h))),
      λ (h, hs). rw (told h) (rest_told hs),
    )

is_improvable : Run → Bool
is_improvable run =
    is_research run.workflow_kind
    && not (str_eq run.research_depth "quick")
    && all_succeeded run.results

is_improvable-IsImprovable :
    (run : Run)
    → (is_improvable run ≡ true → IsImprovable run) × (IsImprovable run → is_improvable run ≡ true)
unfolding is_improvable
is_improvable-IsImprovable run = (
  λ h. record {
    researches = ground (arith, h);
    thorough = λ e. absurd (ground (arith, h, e, eq_iff run.research_depth "quick"));
    succeeded = (all-HaveSucceeded run.results).0 (ground (arith, h));
  },
  λ i. ground (
    arith,
    i.researches,
    i.thorough,
    eq_iff run.research_depth "quick",
    (all-HaveSucceeded run.results).1 i.succeeded,
  ),
)

after_execution-Edge :
    (w : World) (plan : TaskPlan)
    → w.run.plan ≡ some plan
    → length w.run.results ≡ length plan.steps
    → Edge w executor (after_execution w.run)
unfolding after_execution is_improvable
after_execution-Edge w plan h full = elim (Bool-cases (is_improvable w.run)) [
  | inl better ↦ rw better (drafts plan h full ((is_improvable-IsImprovable w.run).0 better))
  | inr plain ↦
      rw plain
        (submits plan h full (λ i. absurd (cc (plain, (is_improvable-IsImprovable w.run).1 i))))
]

-- The steps are those of the run's plan.
abbrev HasSteps : List PlanStep → World → Type 0
HasSteps steps w = (plan : TaskPlan) × (w.run.plan ≡ some plan) × (steps ≡ plan.steps)

plan_steps-HasSteps :
    (planned : Option TaskPlan)
    → Ensures (λ w. w.run.plan ≡ planned) (plan_steps planned) (λ steps w. HasSteps steps w)
unfolding plan_steps
plan_steps-HasSteps none = record { holds = λ w h. tt }
plan_steps-HasSteps (some plan) = record { holds = λ w h. (plan, h, refl) }

next_stage-Edge :
    (steps : List PlanStep)
    → Ensures (HasSteps steps) (next_stage steps) (λ next w. Edge w executor next)
unfolding next_stage
next_stage-Edge steps = record {
  holds = λ w (plan, h, same).
      subst
        (λ (s : List PlanStep).
          Edge w executor
            (if length w.run.results == length s then after_execution w.run else executor))
        (sym same)
        (elim (Bool-cases (length w.run.results == length plan.steps)) [
          | inl full ↦ rw full (after_execution-Edge w plan h (ground (arith, full)))
          | inr going ↦ rw going (works plan h (λ e. absurd (ground (arith, going, e))))
        ]);
}

run_executor-Edge :
    (now : ℕ) (claim : Claim) (agents : Agents)
    → Ensures Anything (run_executor now claim agents) (λ next w. Edge w executor next)
unfolding run_executor
run_executor-Edge now claim agents =
    Ensures-bind (some_flow (gets (λ (w : World). w.run.plan))) (λ planned.
      Ensures-bind (some_flow (plan_steps planned)) (λ _.
        Ensures-bind (some_flow (gets next_step)) (λ ready.
          Ensures-bind (some_flow (work_on now claim agents ready)) (λ _.
            Ensures-bind
              (Ensures-gets {P = Anything} {Q = λ revised w. w.run.plan ≡ revised}
                (λ (w : World). w.run.plan) (λ w _. refl))
              (λ revised.
                Ensures-bind (plan_steps-HasSteps revised) (λ steps. next_stage-Edge steps))))))

verdict-Edge :
    (w : World) (review : ReviewResult) (verdict : Verdict)
    → w.run.review ≡ some review
    → review.status ≡ verdict
    → Edge w reviewer (elim verdict [ pass ↦ writer | replan ↦ replanner ])
verdict-Edge w review pass h v = accepts review h v
verdict-Edge w review replan h v = refuses review h v

after_review-Edge :
    (o : Option ReviewResult) (w : World)
    → w.run.review ≡ o
    → After (λ next w. Edge w reviewer next) (after_review o w)
unfolding after_review
after_review-Edge none w h = tt
after_review-Edge (some review) w h = verdict-Edge w review review.status h refl

phase-Edge :
    (w : World) → Edge w quality (if str_eq w.run.quality.phase "done" then reviewer else quality)
phase-Edge w = elim (Bool-cases (str_eq w.run.quality.phase "done")) [
  | inl finished ↦ rw finished (audits ((eq_iff w.run.quality.phase "done").0 finished))
  | inr going ↦
      rw going
        (improves (λ e. absurd (ground (arith, going, e, eq_iff w.run.quality.phase "done"))))
]

after_quality-Edge : Ensures Anything after_quality (λ next w. Edge w quality next)
unfolding after_quality
after_quality-Edge = record { holds = λ w _. phase-Edge w }

after_verdict-Edge : Ensures Anything after_verdict (λ next w. Edge w reviewer next)
unfolding after_verdict
after_verdict-Edge = record { holds = λ w _. after_review-Edge w.run.review w refl }

-- Whatever the agents do, a unit that returns leads from its stage to one that the state machine has
-- next. The executor stays as long as there are not as many results as the plan has steps. Once there
-- are, research that is deeper than quick and all of whose steps succeeded is improved, until the phase
-- of its quality is done; anything else goes straight to the review. A review that passes is followed by
-- the writer and any other by a new plan; only the writer ends the work.
pub unit-Edge :
    (now : ℕ) (claim : Claim) (agents : Agents) (stage : Stage)
    → Ensures Anything (unit now claim agents stage) (λ next w. Edge w stage next)
unfolding unit
unit-Edge now claim agents planner =
    Ensures-bind (some_flow agents.remember)
      (λ _. Ensures-bind (some_flow agents.planner) (λ _. Ensures-pure executor (λ w _. plans)))
unit-Edge now claim agents executor = run_executor-Edge now claim agents
unit-Edge now claim agents quality =
    Ensures-bind (some_flow agents.quality) (λ _. after_quality-Edge)
unit-Edge now claim agents reviewer =
    Ensures-bind (some_flow agents.reviewer) (λ _. after_verdict-Edge)
unit-Edge now claim agents replanner =
    Ensures-bind (some_flow agents.remember)
      (λ _. Ensures-bind (some_flow agents.replanner) (λ _. Ensures-pure executor (λ w _. replans)))
unit-Edge now claim agents writer = Ensures-bind (some_flow agents.rules) (λ issues.
    Ensures-bind (some_flow (refuse_if issues (raised "checkpoint_integrity_failed")))
      (λ _. Ensures-bind (some_flow agents.writer) (λ _. Ensures-pure done (λ w _. finishes))))
unit-Edge now claim agents done = Ensures-pure done (λ w _. rests)
