-- ===== src/Examples/Rankings.antt =====
-- The theorems on evaluation/ranking.py at a small ranking.
use mathlib.Core.Quot
use auto_scholar.Prelude.{
  ℕ, suc, ◌+◌, ◌-◌, ◌*◌, ◌≤◌, ◌<◌, String, true, some, List, [], ◌∷◌, ◌≡◌, refl, ◌↔◌, map, take,
  length, arith,
}
use auto_scholar.Prelude.Result.{ok}
use auto_scholar.Prelude.Int.{ℤ, pos, pos_part}
use auto_scholar.Evaluation.Ranking.{
  RankingScore, normalize_ks, sorted_set, insert_sorted, validate_ids, has_control, score_ranking,
  score_ranked, score_at, last_cutoff, gains, first_gain, found,
}
use auto_scholar.Evaluation.Ranking.Gains.{gain_count, gains-found, hit-first_gain}
use auto_scholar.Evaluation.Ranking.Cutoffs.{AreCutoffs, has, normalize_ks-ok}
use auto_scholar.Evaluation.Ranking.Bounds.{AreScores, IsProper, score_ranking-IsProper}
use auto_scholar.Evaluation.Ranking.Order.{judge, score_ranking-judge}

abbrev same_text : String → String
same_text text = text

-- The worth of a gain, in thousandths, at ranks 1 and 2, and less later.
abbrev worth : ℕ → ℕ
worth rank = 1 + (1000 - 300 * rank)

abbrev selected : List ℤ
selected = pos 3 ∷ pos 1 ∷ pos 3 ∷ []

abbrev ranked : List String
ranked = "x" ∷ "a" ∷ "a" ∷ "b" ∷ []

abbrev relevant : List String
relevant = "a" ∷ "b" ∷ []

selected_cutoffs : normalize_ks selected ≡ ok (1 ∷ 3 ∷ [])
unfolding normalize_ks sorted_set insert_sorted
selected_cutoffs = refl

abbrev scored : RankingScore
scored = score_ranked worth relevant (take 3 ranked) (1 ∷ 3 ∷ [])

scored_ok : score_ranking same_text worth ranked relevant selected ≡ ok scored
unfolding score_ranking normalize_ks sorted_set insert_sorted validate_ids has_control last_cutoff
scored_ok = refl

gains-found_example :
    gain_count (take 3 (gains relevant [] ranked)) ≡ found relevant (take 3 ranked)
gains-found_example = gains-found relevant ranked 3

hit-first_gain_example :
    ((score_at worth relevant ranked (gains relevant [] ranked) 3).hit ≡ true)
    ↔ ((r : ℕ) × (first_gain 1 (gains relevant [] ranked) ≡ some r) × (r ≤ 3))
hit-first_gain_example = hit-first_gain worth relevant ranked 3

normalize_ks-ok_example :
    AreCutoffs 1 (1 ∷ 3 ∷ [])
    × (length {A = ℕ} (1 ∷ 3 ∷ []) ≤ 10)
    × ((x : ℕ) → has (1 ∷ 3 ∷ []) x ≡ has (map pos_part selected) x)
normalize_ks-ok_example = normalize_ks-ok selected selected_cutoffs

worth_falls : (rank : ℕ) → worth (suc rank) ≤ worth rank
worth_falls rank = omega arith

worth_positive : (rank : ℕ) → 0 < worth rank
worth_positive rank = omega arith

score_ranking-IsProper_example : AreScores scored.at_k × IsProper scored.mrr
score_ranking-IsProper_example =
    score_ranking-IsProper same_text worth ranked relevant selected worth_falls worth_positive
      scored_ok

score_ranking-judge_example :
    (cutoffs : List ℕ) × (normalize_ks selected ≡ ok cutoffs)
    × (scored ≡ judge worth (take (last_cutoff cutoffs) ranked) cutoffs (Quot.mk relevant))
score_ranking-judge_example = score_ranking-judge same_text worth ranked relevant selected scored_ok
