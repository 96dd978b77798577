-- ===== src/Worker/Reviewed.antt =====
-- orchestration/durable.py: a workflow's units in a row, each at the stage that the last one left.
use auto_scholar.Prelude.{ℕ, some, ◌≡◌, refl, ◌⊎◌, inl, inr, subst}
use auto_scholar.Prelude.Result.{ok}
use auto_scholar.Prelude.Ensures.{After}
use auto_scholar.Snapshot.{Stage, planner, reviewer, writer, done, pass, ReviewResult}
use auto_scholar.Worker.{World, Agents, Claim}
use auto_scholar.Worker.Unit.{unit}
use auto_scholar.Worker.Stages.{
  Edge, plans, works, drafts, submits, improves, audits, accepts, refuses, replans, finishes, rests,
  unit-Edge,
}

-- Units that returned, from a stage to a stage. What happens to the run and to the database between two
-- of them, and which worker executes them, is left open.
pub data Units (from : Stage) : Stage → Type 0 where
  start : (stage : Stage) → from ≡ stage → Units from stage
  next :
      (stage stage' : Stage)
      → Units from stage
      → (now : ℕ) (claim : Claim) (agents : Agents) (before after : World)
      → unit now claim agents stage before ≡ (ok stage', after)
      → Units from stage'

abbrev pub IsPassed : Stage → World → Type 0
IsPassed stage w =
    (stage ≡ reviewer)
    × (review : ReviewResult) × (w.run.review ≡ some review)
    × (review.status ≡ pass)

-- One of the units was a review that passed.
abbrev pub WasPassed : (from stage : Stage) → Units from stage → Type 0
WasPassed from _ (start stage e) = ⊥
WasPassed from _ (next stage stage' units now claim agents before after e) =
    WasPassed from stage units ⊎ IsPassed stage after

into_writer : (w : World) (a b : Stage) → Edge w a b → b ≡ writer → IsPassed a w
into_writer w _ _ plans e = absurd (cc)
into_writer w _ _ (works g h i) e = absurd (cc)
into_writer w _ _ (drafts g h i j) e = absurd (cc)
into_writer w _ _ (submits g h i j) e = absurd (cc)
into_writer w _ _ (improves g) e = absurd (cc)
into_writer w _ _ (audits h) e = absurd (cc)
into_writer w _ _ (accepts review h v) e = (refl, review, h, v)
into_writer w _ _ (refuses review h v) e = absurd (cc)
into_writer w _ _ replans e = absurd (cc)
into_writer w _ _ finishes e = absurd (cc)
into_writer w _ _ rests e = absurd (cc)

pub into_done : (w : World) (a b : Stage) → Edge w a b → b ≡ done → (a ≡ writer) ⊎ (a ≡ done)
into_done w _ _ plans e = absurd (cc)
into_done w _ _ (works g h i) e = absurd (cc)
into_done w _ _ (drafts g h i j) e = absurd (cc)
into_done w _ _ (submits g h i j) e = absurd (cc)
into_done w _ _ (improves g) e = absurd (cc)
into_done w _ _ (audits h) e = absurd (cc)
into_done w _ _ (accepts review h v) e = absurd (cc)
into_done w _ _ (refuses review h v) e = absurd (cc)
into_done w _ _ replans e = absurd (cc)
into_done w _ _ finishes e = inl refl
into_done w _ _ rests e = inr refl

unit-Edge_at :
    (now : ℕ) (claim : Claim) (agents : Agents) (stage stage' : Stage) (before after : World)
    → unit now claim agents stage before ≡ (ok stage', after)
    → Edge after stage stage'
unit-Edge_at now claim agents stage stage' before after e =
    subst (After (λ (next : Stage) w. Edge w stage next)) e
      ((unit-Edge now claim agents stage).holds before tt)

at_the_end :
    (stage : Stage) (units : Units planner stage)
    → (stage ≡ writer) ⊎ (stage ≡ done)
    → WasPassed planner stage units
at_the_end _ (start stage e) (inl h) = absurd (cc)
at_the_end _ (start stage e) (inr h) = absurd (cc)
at_the_end _ (next stage stage' units now claim agents before after e) (inl h) =
    inr
      (into_writer after stage stage' (unit-Edge_at now claim agents stage stage' before after e) h)
at_the_end _ (next stage stage' units now claim agents before after e) (inr h) = inl (
    at_the_end stage units
      (into_done after stage stage' (unit-Edge_at now claim agents stage stage' before after e) h))

-- However a chain of units that returned got from the planner to the end, each unit at the stage that
-- the last one left: whatever the agents did in them, whoever executed them and whatever happened to
-- the run and the database in between, one of the units was a review that passed.
pub units-WasPassed : (units : Units planner done) → WasPassed planner done units
units-WasPassed units = at_the_end done units (inr refl)
