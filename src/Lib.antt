-- ===== src/Lib.antt =====
-- AutoScholar: the durable workflows of an autonomous research assistant, the budget of its requests and
-- the plans that it executes. Paths below are from the repository's root, under src/autoscholar/.
--
-- The parts and how they interact. A request is submitted as a workflow (Durable/Enqueue), which a worker
-- claims under a lease with a generation (Durable/Lease). The worker (Worker) restores the run from the last
-- checkpoint, begins a unit of work (Durable/Work), journals each external call around it (Journal,
-- Durable/Work), pays for it from the budget (Budget), and saves a checkpoint (Durable/Save), which ends
-- the lease. A client pauses, resumes or cancels (Durable/Control), or decides on an expensive experiment
-- (Durable/Approvals). A worker that died leaves a lease that runs out; what it had started is settled from
-- the receipts of the tools (Durable/Receipts, Durable/Recovery), never replayed blindly. The work itself
-- is a plan, a graph of steps that a validator accepts and an executor runs in order (Plan); a review may
-- have the plan revised and some of its steps run again (Workflow). Around it stand the chunks of the
-- documents that a step searches (Rag), the usage and the cost of a call (Llm) and the metrics that judge a
-- search (Evaluation).
--
-- Which file models which code:
--   Prelude    Python's dicts and sets, signed numbers, and code that changes a state and may raise.
--   Usage      llm/models.py, `TokenUsage`.
--   Budget     core/budget.py: `BudgetLimits`, `Budget.check` and `Budget.consume`; Budget/Llm is
--              `BudgetedLLM.generate`, with the provider as a parameter.
--   Journal    core/journal.py: the hooks around an external operation; each hook is a parameter.
--   Plan       orchestration/models.py, `TaskPlan.validate_graph`; Plan/Progress is the executor's
--              choice of a step in orchestration/durable.py, Plan/Execution `_executor` of
--              orchestration/service.py, with `_step` as a parameter.
--   Snapshot   orchestration/checkpoints.py, what a checkpoint holds.
--   Runs       orchestration/checkpoints.py, `restore` and `capture`, with `Run` of orchestration/service.py.
--   Durable    orchestration/durable_repository.py, one module for each group of its methods; the rows
--              of the database are in Durable/Rows. Durable/Approvals is orchestration/approvals.py, with
--              `decide` in Durable/Approvals/Decisions.
--   Tools      tool_platform/operations.py, operations of tools that run at most once: the reservation and the
--              receipt in the database, and in Tools/Execution the action between them, which is a parameter.
--              Tools/Registry is tool_platform/registry.py, whose receipt_status is in Durable/Receipts.
--   Workflow   orchestration/service.py, which plan and which revision of it is accepted, and what a revision
--              retires: `_validate_plan`, `_revision_affected` and what calls them.
--   Worker     orchestration/durable.py: Worker/Unit is `_unit`, Worker/Reconcile is `_reconcile` and
--              `_verify_sources`, Worker/Attempts is the `try` block of
--              `_execute` and Worker/Execute the rest of it; Worker/Recover is
--              `reconcile`. The other modules are proofs.
--   Rag        Rag/Chunking is rag/chunking.py.
--   Evaluation Evaluation/Ranking is evaluation/ranking.py.
--   Llm        Llm/Parser is llm/usage_parser.py, Llm/Pricing is llm/pricing.py.
--   Examples   the theorems at concrete inputs.
--
-- State and errors. A method is a function from a state to a result or an error and a state. What a method
-- wrote before it raised stays written in memory; in the database a transaction gives the old state back.
-- A table is an association list by primary key. An identifier that the code draws at random is a counter.
-- Dumping a value to JSON and loading it again gives the same value, except that a snapshot is validated when
-- it is read: its version, its limits, the graph of its plan and the verdict of its review.
-- Time is a number of microseconds and every reading of the clock is an argument.
--
-- Bounds and fuel. Python's integers have no bound, and are natural numbers where the code keeps them from
-- going below zero, signed numbers where a provider reports them. The loop of `validate_graph` runs on
-- fuel, one turn for each key of the plan; it removes at least one key in a turn. The executor runs on one
-- turn more than the plan has steps, which is proved to be enough. The set of steps that run again grows in
-- one turn for each step and one more, since a turn that goes on adds a step. The windows of a section are
-- read in as many turns as Python's `range` has elements. A rate is a whole number of millionths, a cost one
-- of 10^-10, and a score a fraction with its denominator; the worth of a rank, `1 / log2(rank + 1)`, is a
-- parameter.
--
-- Agents. What the planner, a step, the quality rounds, the reviewer, the replanner and the writer do to the
-- run and to the database is a parameter of the worker, as are the files and the recorded history that it
-- compares with, what Unicode and the regular expressions say of a text, and each digest.
--
-- Not modelled: the HTTP interface, the providers of models, the tool servers, the retrieval database, the
-- training and most of the evaluation programs, whose code is for the most part calls of other systems;
-- the worker's heartbeat, which runs beside an execution; validation of field patterns by pydantic; the
-- races that the database serializes, since one transaction runs at a time.
pub mod Prelude
pub mod Usage
pub mod Budget
pub mod Journal
pub mod Plan
pub mod Snapshot
pub mod Runs
pub mod Durable
pub mod Tools
pub mod Workflow
pub mod Worker
pub mod Rag
pub mod Llm
pub mod Evaluation
pub mod Examples
