-- ===== src/Evaluation/Ranking/Order.antt =====
-- The relevant identifiers of evaluation/ranking.py are a set: neither their order nor repeats count.
use mathlib.Core.Quot
use mathlib.Core.Quot.{Quot, Quot-set}
use auto_scholar.Prelude.{
  ℕ, ◌≤◌, String, Bool, true, List, [], ◌∷◌, map, ◌≡◌, refl, sym, ◌∙◌, inl, inr, length, take,
  keep_if, arith, eq_refl,
}
use auto_scholar.Prelude.Sets.{contains, distinct}
use auto_scholar.Prelude.Result.{ok, Result-cases}
use auto_scholar.Prelude.Int.{ℤ}
use auto_scholar.Evaluation.Ranking.{
  normalize_ks, last_cutoff, score_ranking, RankingScore, gains, found, score_at, score_ranked,
}
use auto_scholar.Evaluation.Ranking.Gains.{keep_if-same}
use auto_scholar.Evaluation.Ranking.Bounds.{found-le-size}

abbrev pub SameIds : List String → List String → Type 0
SameIds xs ys = (x : String) → contains xs x ≡ contains ys x

-- A set of identifiers: a list that forgets its order and its repeats.
abbrev pub IdSet : Type 0
IdSet = Quot SameIds

gains-SameIds :
    (xs ys seen ranked : List String) → SameIds xs ys → gains xs seen ranked ≡ gains ys seen ranked
unfolding gains
gains-SameIds xs ys seen [] same = refl
gains-SameIds xs ys seen (x ∷ ranked) same =
    rw (same x, gains-SameIds xs ys (x ∷ seen) ranked same) refl

found-SameIds : (xs ys ranked : List String) → SameIds xs ys → found xs ranked ≡ found ys ranked
unfolding found
found-SameIds xs ys ranked same = keep_if-same (contains xs) (contains ys) (distinct ranked) same

keep_if_all :
    (p : String → Bool) (xs : List String)
    → ((x : String) → contains xs x ≡ true → p x ≡ true)
    → length (keep_if p (distinct xs)) ≡ length (distinct xs)
unfolding distinct
keep_if_all p [] h = refl
keep_if_all p (x ∷ xs) h =
    ground (arith, h x, eq_refl x, keep_if_all p xs (λ y k. h y (ground arith)))

size-le : (xs ys : List String) → SameIds xs ys → length (distinct xs) ≤ length (distinct ys)
unfolding found
size-le xs ys same =
    let all_found = keep_if_all (contains ys) xs (λ x h. sym (same x) ∙ h) in
    omega (arith, found-le-size ys xs, all_found)

size-SameIds : (xs ys : List String) → SameIds xs ys → length (distinct xs) ≡ length (distinct ys)
size-SameIds xs ys same = omega (arith, size-le xs ys same, size-le ys xs (λ x. sym (same x)))

module _ (weight : ℕ → ℕ) (ranked : List String) where
  score_at-SameIds :
      (xs ys : List String) (k : ℕ)
      → SameIds xs ys
      → score_at weight xs ranked (gains xs [] ranked) k
        ≡ score_at weight ys ranked (gains ys [] ranked) k
  unfolding score_at
  score_at-SameIds xs ys k same =
      rw
        (
          gains-SameIds xs ys [] ranked same,
          found-SameIds xs ys (take k ranked) same,
          size-SameIds xs ys same,
        )
        refl

  scores-SameIds :
      (xs ys : List String) (cutoffs : List ℕ)
      → SameIds xs ys
      → map (score_at weight xs ranked (gains xs [] ranked)) cutoffs
        ≡ map (score_at weight ys ranked (gains ys [] ranked)) cutoffs
  scores-SameIds xs ys [] same = refl
  scores-SameIds xs ys (k ∷ cutoffs) same =
      rw (score_at-SameIds xs ys k same, scores-SameIds xs ys cutoffs same) refl

  pub score_ranked-SameIds :
      (cutoffs : List ℕ) (xs ys : List String)
      → SameIds xs ys
      → score_ranked weight xs ranked cutoffs ≡ score_ranked weight ys ranked cutoffs
  unfolding score_ranked
  score_ranked-SameIds cutoffs xs ys same =
      rw (scores-SameIds xs ys cutoffs same, gains-SameIds xs ys [] ranked same) refl

pub RankingScore-set : IsSet RankingScore
RankingScore-set = hlevel

-- The metrics as a function of the set of relevant identifiers.
unfoldable pub judge : (ℕ → ℕ) → List String → List ℕ → IdSet → RankingScore
judge weight ranked cutoffs =
    Quot.lift RankingScore-set (λ relevant. score_ranked weight relevant ranked cutoffs)
      (score_ranked-SameIds weight ranked cutoffs)

-- What `score_ranking` returns is a function of the set of relevant identifiers, whatever list
-- stands for the set, of the ranked identifiers up to the last cutoff, and of the cutoffs.
pub score_ranking-judge :
    (strip : String → String) (weight : ℕ → ℕ) (ranked_ids relevant_ids : List String) (ks : List ℤ)
    {score : RankingScore}
    → score_ranking strip weight ranked_ids relevant_ids ks ≡ ok score
    → (cutoffs : List ℕ) × (normalize_ks ks ≡ ok cutoffs)
      × (score
          ≡ judge weight (take (last_cutoff cutoffs) ranked_ids) cutoffs (Quot.mk relevant_ids))
unfolding score_ranking judge
score_ranking-judge strip weight ranked_ids relevant_ids ks {score} h =
    elim (Result-cases (normalize_ks ks)) [
      | inl (e, bad) ↦ absurd (cc (rw (bad, score_ranking) at h))
      | inr (cutoffs, e) ↦ (cutoffs, e, ground (arith, e))
    ]
