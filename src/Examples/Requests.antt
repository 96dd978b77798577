-- ===== src/Examples/Requests.antt =====
-- core/budget.py at concrete inputs: a fresh budget with the default limits, one call of a model.
use auto_scholar.Prelude.{
  ℕ, ◌+◌, ◌≤◌, String, ◌≡◌, ◌≢◌, ◌↔◌, refl, none, some, List, [], ◌∷◌, false, true, arith,
}
use auto_scholar.Prelude.Table.{get}
use auto_scholar.Prelude.Int.{pos}
use auto_scholar.Prelude.Result.{ok, err}
use auto_scholar.Usage.{TokenUsage}
use auto_scholar.Budget
use auto_scholar.Budget.{
  check, charge, Budget, BudgetLimits, BudgetError, default_limits, bounded_by, limit_of, used_of,
  validate,
}
use auto_scholar.Budget.Limits.{Within, IsValid, bounded_by-IsGreatest}
use auto_scholar.Budget.Bounds.{
  Attempt, Fits, Permits, consume_all, accepted, consume_exact, consume_all_bounded,
}
use auto_scholar.Journal.{local_request_rejected, journaled, audited, dispatched, hook_call}
use auto_scholar.Budget.Llm.{Provider, Times, generate}
use auto_scholar.Budget.Llm.Steps.{
  writing, with_budget, paid_call, sent, finished, answering, add_reported, judged,
}
use auto_scholar.Budget.Llm.Rejected.{
  rejecting, generate_preflight_rejected, generate_local_rejected,
}
use auto_scholar.Budget.Llm.Answered.{reply, charged, generate_answered}
use auto_scholar.Budget.Llm.Unmetered.{unmetered, exhausted, missing, generate_unmetered}

abbrev fresh : Budget
fresh = record { limits = default_limits; used = []; started = 0 }

abbrev small_limits : BudgetLimits
small_limits = record default_limits { steps = 5; model_calls = 2 }

abbrev first_times : Times
first_times = record { consumed_at = 1; accounted_at = 2; finished_at = 3 }

abbrev guarded : Provider
guarded = record {
  check_available = none;
  preflight = some local_request_rejected;
  generate = err local_request_rejected;
  record_usage = none;
}

-- The first call fits.
fits_first : (Budget.consume 1 "model_calls" 1 fresh).0 ≡ ok tt
unfolding Budget.consume check charge get
fits_first = refl

abbrev small_usage : TokenUsage
small_usage = record {
  input_tokens = pos 10;
  output_tokens = pos 5;
  total_tokens = pos 15;
  cached_input_tokens = none;
  uncached_input_tokens = none;
  reasoning_tokens = none;
}

bounded_by-IsGreatest_example :
    (r : BudgetLimits) × (bounded_by default_limits small_limits ≡ some r)
    × IsValid r
    × Within r default_limits
    × Within r small_limits
    × ((m : BudgetLimits) → Within m default_limits → Within m small_limits → Within m r)
unfolding validate
bounded_by-IsGreatest_example = bounded_by-IsGreatest default_limits small_limits refl refl

consume_exact_example :
    (Budget.consume 1 "steps" 20 fresh).0 ≡ ok tt ↔ Permits 1 "steps" 20 20 fresh
unfolding get
consume_exact_example = (consume_exact 1 "steps" 20 fresh refl).0

abbrev attempts : List Attempt
attempts = (1, "steps", 19) ∷ (2, "steps", 2) ∷ (3, "steps", 1) ∷ []

fresh-Fits : Fits fresh
unfolding get
fresh-Fits = record { fits = λ r limit e. omega arith }

consume_all_bounded_example :
    (used_of (consume_all attempts fresh).used "steps" ≡ 0 + accepted "steps" attempts fresh)
    × (0 + accepted "steps" attempts fresh ≤ 20)
unfolding get
consume_all_bounded_example = consume_all_bounded attempts fresh "steps" fresh-Fits refl

generate_preflight_rejected_example :
    generate guarded writing first_times "c1" (with_budget fresh []) ≡ (
      err local_request_rejected,
      with_budget fresh (journaled (hook_call "" "llm_local_rejected" false) ∷ []),
    )
generate_preflight_rejected_example =
    generate_preflight_rejected guarded first_times "c1" (with_budget fresh []) refl refl

generate_local_rejected_example :
    (b' : Budget) × (generate (rejecting none) writing first_times "c1" (with_budget fresh []) ≡ (
      err local_request_rejected,
      with_budget b' (
          journaled (hook_call "c1" "llm_local_rejected" false)
          ∷ dispatched
          ∷ journaled (hook_call "c1" "llm" true)
          ∷ audited (hook_call "c1" "llm" true)
          ∷ []),
    ))
    × ((j : String) → used_of b'.used j ≡ used_of fresh.used j)
    × (b'.limits ≡ fresh.limits)
generate_local_rejected_example = generate_local_rejected first_times "c1" fresh [] none fits_first

generate_answered_example :
    (generate
        (answering (reply first_times "c1" fresh [] "yes" "m" small_usage))
        writing
        first_times
        "c1"
        (with_budget fresh [])
      ≡ (
        judged
            (Budget.check 3 (add_reported small_usage (paid_call fresh))).0
            (reply first_times "c1" fresh [] "yes" "m" small_usage),
        with_budget (add_reported small_usage (paid_call fresh)) (finished "c1" []),
      ))
    × (fresh.limits ≡ fresh.limits)
    × (fresh.started ≡ fresh.started)
    × ((j : String)
        → used_of (add_reported small_usage (paid_call fresh)).used j
          ≡ used_of fresh.used j + charged small_usage j)
generate_answered_example =
    generate_answered first_times "c1" fresh [] "yes" "m" small_usage fits_first

generate_unmetered_example :
    (generate
        (answering (unmetered first_times "c1" fresh [] "yes" "m"))
        writing
        first_times
        "c1"
        (with_budget fresh [])
      ≡ (err missing, with_budget (exhausted (paid_call fresh)) (sent "c1" [])))
    × ((now : ℕ) (resource : String) (amount : ℕ)
        → (Budget.consume now resource amount (exhausted (paid_call fresh))).0 ≢ ok tt)
generate_unmetered_example = generate_unmetered first_times "c1" fresh [] "yes" "m" fits_first
