-- ===== src/Evaluation/Ranking/Bounds.antt =====
-- The metrics of evaluation/ranking.py lie between 0 and 1 and grow with the cutoff.
use auto_scholar.Prelude.{
  ℕ, zero, suc, ◌≤◌, ◌<◌, min, String, Bool, true, false, not, ◌&&◌, List, [], ◌∷◌, map, ◌≡◌, refl,
  inl, inr, length, is_empty, take, keep_if, Bool-cases, Option-cases, arith, eq_iff, str_eq,
}
use auto_scholar.Prelude.Sets.{contains, distinct}
use auto_scholar.Prelude.Result.{ok, Result-cases}
use auto_scholar.Prelude.Int.{ℤ}
use auto_scholar.Evaluation.Ranking.{
  Fraction, CutoffScore, RankingScore, gains, found, dcg, ideal_dcg, score_at, first_gain,
  reciprocal, normalize_ks, last_cutoff, score_ranking, score_ranked,
}
use auto_scholar.Evaluation.Ranking.Cutoffs.{AreCutoffs, normalize_ks-ok}
use auto_scholar.Evaluation.Ranking.Gains.{
  gain_count, gains-found, first_gain-ge, keep_if-distinct, keep_if-same,
}

keep_if-le :
    (p q : String → Bool) (xs : List String)
    → ((x : String) → p x ≡ true → q x ≡ true)
    → length (keep_if p xs) ≤ length (keep_if q xs)
keep_if-le p q [] h = omega arith
keep_if-le p q (x ∷ xs) h = ground (arith, h x, keep_if-le p q xs h)

distinct_le : (xs : List String) → length (distinct xs) ≤ length xs
unfolding distinct
distinct_le [] = omega arith
distinct_le (x ∷ xs) = ground (arith, distinct_le xs)

keep_none : (xs : List String) → keep_if (contains []) xs ≡ []
keep_none [] = refl
keep_none (x ∷ xs) = keep_none xs

-- A set meets another in no more elements than that one has.
pub found-le-size : (relevant xs : List String) → found relevant xs ≤ length (distinct relevant)
unfolding found distinct
found-le-size [] xs = rw (keep_none (distinct xs)) (omega arith)
found-le-size (r ∷ relevant) xs =
    let rest = found-le-size relevant xs in
    elim (Bool-cases (contains relevant r)) [
      | inl old ↦
          let same =
            keep_if-same (contains (r ∷ relevant)) (contains relevant) (distinct xs)
              (λ y. ground (arith, eq_iff r y)) in
          rw (old, distinct) (omega (arith, same, rest))
      | inr new ↦
          let aside = keep_if-distinct (contains (r ∷ relevant)) r xs in
          let others =
            keep_if-le (λ y. contains (r ∷ relevant) y && not (str_eq r y)) (contains relevant)
              (distinct xs) (λ y h. ground arith) in
          rw (new, distinct) (ground (arith, aside, others, rest))
    ]

take_count-le : (gained : List Bool) (k : ℕ) → gain_count (take k gained) ≤ k
take_count-le gained zero = omega arith
take_count-le [] (suc k) = omega arith
take_count-le (true ∷ rest) (suc k) = omega (arith, take_count-le rest k)
take_count-le (false ∷ rest) (suc k) = omega (arith, take_count-le rest k)

take_count_mono :
    (gained : List Bool) (k j : ℕ) → k ≤ j → gain_count (take k gained) ≤ gain_count (take j gained)
take_count_mono gained zero j h = omega arith
take_count_mono [] (suc k) zero h = absurd (omega arith)
take_count_mono [] (suc k) (suc j) h = omega arith
take_count_mono (gain ∷ rest) (suc k) zero h = absurd (omega arith)
take_count_mono (gain ∷ rest) (suc k) (suc j) h =
    omega (arith, take_count_mono rest k j (omega arith))

-- A gain is worth less at a later rank.
abbrev pub IsFalling : (ℕ → ℕ) → Type 0
IsFalling weight = (rank : ℕ) → weight (suc rank) ≤ weight rank

module _ (weight : ℕ → ℕ) (falls : IsFalling weight) where
  ideal-shift : (rank m : ℕ) → ideal_dcg weight (suc rank) m ≤ ideal_dcg weight rank m
  unfolding ideal_dcg
  ideal-shift rank zero = omega arith
  ideal-shift rank (suc m) = omega (arith, falls rank, ideal-shift (suc rank) m)

  dcg-le-ideal :
      (gained : List Bool) (rank m : ℕ)
      → gain_count gained ≤ m
      → dcg weight rank gained ≤ ideal_dcg weight rank m
  unfolding dcg ideal_dcg
  dcg-le-ideal [] rank m h = omega arith
  dcg-le-ideal (true ∷ rest) rank zero h = absurd (omega arith)
  dcg-le-ideal (true ∷ rest) rank (suc m) h =
      omega (arith, dcg-le-ideal rest (suc rank) m (omega arith))
  dcg-le-ideal (false ∷ rest) rank m h =
      omega (arith, dcg-le-ideal rest (suc rank) m (omega arith), ideal-shift rank m)

-- Between 0 and 1, with a denominator that is not 0.
abbrev pub IsProper : Fraction → Type 0
IsProper (numerator, denominator) = (numerator ≤ denominator) × (0 < denominator)

abbrev pub IsScore : CutoffScore → Type 0
IsScore s = IsProper s.recall × IsProper s.ndcg × (s.recall.0 ≤ s.k)

abbrev pub AreScores : List CutoffScore → Type 0
AreScores [] = Unit
AreScores (s ∷ scores) = IsScore s × AreScores scores

distinct_pos : (x : String) (xs : List String) → 0 < length (distinct (x ∷ xs))
unfolding distinct
distinct_pos x [] = omega arith
distinct_pos x (y ∷ xs) = ground (arith, distinct_pos y xs)

module _ (weight : ℕ → ℕ) (falls : IsFalling weight) (worth : (rank : ℕ) → 0 < weight rank) where
  ideal-pos : (m : ℕ) → 0 < m → 0 < ideal_dcg weight 1 m
  unfolding ideal_dcg
  ideal-pos zero h = absurd (omega arith)
  ideal-pos (suc m) h = omega (arith, worth 1)

  score_at-IsScore :
      (relevant ranked : List String) (k : ℕ)
      → is_empty relevant ≡ false
      → 0 < k
      → IsScore (score_at weight relevant ranked (gains relevant [] ranked) k)
  unfolding score_at
  score_at-IsScore [] ranked k h p = absurd (cc)
  score_at-IsScore (r ∷ relevant) ranked k h p =
      let count = gains-found (r ∷ relevant) ranked k in
      let within = found-le-size (r ∷ relevant) (take k ranked) in
      let early = take_count-le (gains (r ∷ relevant) [] ranked) k in
      let ideal =
        dcg-le-ideal weight falls (take k (gains (r ∷ relevant) [] ranked)) 1
          (min k (length (distinct (r ∷ relevant)))) (omega (arith, count, within, early)) in
      let positive =
        ideal-pos (min k (length (distinct (r ∷ relevant))))
          (omega (arith, distinct_pos r relevant)) in
      ((within, distinct_pos r relevant), (ideal, positive), omega (arith, count, early))

  scores-AreScores :
      (relevant ranked : List String) (lo : ℕ) (cutoffs : List ℕ)
      → is_empty relevant ≡ false
      → AreCutoffs (suc lo) cutoffs
      → AreScores (map (score_at weight relevant ranked (gains relevant [] ranked)) cutoffs)
  scores-AreScores relevant ranked lo [] h a = tt
  scores-AreScores relevant ranked lo (k ∷ cutoffs) h a = (
    score_at-IsScore relevant ranked k h (omega arith),
    scores-AreScores relevant ranked k cutoffs h a.2,
  )

reciprocal-IsProper : (gained : List Bool) → IsProper (reciprocal (first_gain 1 gained))
unfolding reciprocal
reciprocal-IsProper gained = elim (Option-cases (first_gain 1 gained)) [
  | inl missing ↦ rw missing (omega arith)
  | inr (r, e) ↦ let late = first_gain-ge gained 1 e in rw e (omega arith)
]

-- For gains whose worth is positive and does not rise with the rank, as that of the code's
-- `1 / log2(rank + 1)`: every score that `score_ranking` returns has a recall, an NDCG and an MRR
-- between 0 and 1, with a denominator that is not 0, so no division fails; and its recall at a
-- cutoff counts no more identifiers than the cutoff.
pub score_ranking-IsProper :
    (strip : String → String) (weight : ℕ → ℕ) (ranked_ids relevant_ids : List String) (ks : List ℤ)
    {score : RankingScore}
    → IsFalling weight
    → ((rank : ℕ) → 0 < weight rank)
    → score_ranking strip weight ranked_ids relevant_ids ks ≡ ok score
    → AreScores score.at_k × IsProper score.mrr
unfolding score_ranking score_ranked
score_ranking-IsProper strip weight ranked_ids relevant_ids ks {score} falls worth h =
    elim (Result-cases (normalize_ks ks)) [
      | inl (e, bad) ↦ absurd (cc (rw (bad, score_ranking) at h))
      | inr (cutoffs, e) ↦
          let ranked = take (last_cutoff cutoffs) ranked_ids in
          let result : (is_empty relevant_ids ≡ false)
              × (score_ranked weight relevant_ids ranked cutoffs ≡ score) =
            ground (arith, e) in
          rw (← result.1) (
            scores-AreScores weight falls worth relevant_ids ranked 0 cutoffs result.0
                (normalize_ks-ok ks e).0,
            reciprocal-IsProper (gains relevant_ids [] ranked),
          )
    ]
