-- ===== src/Evaluation/Ranking/Gains.antt =====
-- The gains of evaluation/ranking.py, which are marked in one pass with a set of what was seen, count
-- the relevant identifiers that were found.
use auto_scholar.Prelude.{
  ℕ, zero, suc, ◌+◌, ◌≤◌, ◌<◌, String, Bool, true, false, not, ◌&&◌, ◌||◌, some, List, [], ◌∷◌, ◌≡◌,
  refl, ◌↔◌, if◌then◌else◌, ltb→lt, lt→ltb, length, take, keep_if, arith, eq_iff, str_eq,
}
use auto_scholar.Prelude.Sets.{contains, distinct}
use auto_scholar.Evaluation.Ranking.{gains, found, first_gain, score_at}

-- How many gains there are.
abbrev pub gain_count : List Bool → ℕ
gain_count [] = 0
gain_count (gain ∷ rest) = (if gain then 1 else 0) + gain_count rest

abbrev marked : Bool → ℕ
marked b = if b then 1 else 0

-- One identifier set aside: it counts once, if it is there and passes.
pub keep_if-distinct :
    (p : String → Bool) (x : String) (xs : List String)
    → length (keep_if p (distinct xs))
      ≡ marked (contains xs x && p x)
        + length (keep_if (λ y. p y && not (str_eq x y)) (distinct xs))
unfolding distinct
keep_if-distinct p x [] = refl
keep_if-distinct p x (y ∷ ys) = ground (arith, eq_iff x y, eq_iff y x, keep_if-distinct p x ys)

pub keep_if-same :
    (p q : String → Bool) (xs : List String)
    → ((x : String) → p x ≡ q x)
    → length (keep_if p xs) ≡ length (keep_if q xs)
keep_if-same p q [] h = refl
keep_if-same p q (x ∷ xs) h = ground (arith, h x, keep_if-same p q xs h)

count-gains :
    (relevant seen ranked : List String)
    → gain_count (gains relevant seen ranked)
      ≡ length (keep_if (λ x. contains relevant x && not (contains seen x)) (distinct ranked))
unfolding gains distinct
count-gains relevant seen [] = refl
count-gains relevant seen (x ∷ ranked) =
    let fresh : String → Bool = λ y. contains relevant y && not (contains seen y) in
    let set_aside = keep_if-distinct fresh x ranked in
    let same =
      keep_if-same (λ y. contains relevant y && not (str_eq x y || contains seen y))
        (λ y. fresh y && not (str_eq x y)) (distinct ranked) (λ y. ground arith) in
    ground (arith, count-gains relevant (x ∷ seen) ranked, set_aside, same)

take-gains :
    (relevant seen ranked : List String) (k : ℕ)
    → take k (gains relevant seen ranked) ≡ gains relevant seen (take k ranked)
unfolding gains
take-gains relevant seen ranked zero = refl
take-gains relevant seen [] (suc k) = refl
take-gains relevant seen (x ∷ ranked) (suc k) = rw (take-gains relevant (x ∷ seen) ranked k) refl

-- At every cutoff, the gains marked by the pass up to the cutoff are as many as the relevant
-- identifiers in the set of those ranked up to it: a repeated identifier gains once, an irrelevant
-- one never.
pub gains-found :
    (relevant ranked : List String) (k : ℕ)
    → gain_count (take k (gains relevant [] ranked)) ≡ found relevant (take k ranked)
unfolding found
gains-found relevant ranked k =
    let same =
      keep_if-same (λ y. contains relevant y && not (contains [] y)) (contains relevant)
        (distinct (take k ranked)) (λ y. ground arith) in
    rw (take-gains relevant [] ranked k, count-gains relevant [] (take k ranked)) same

pub first_gain-ge :
    (gained : List Bool) (rank : ℕ) {r : ℕ} → first_gain rank gained ≡ some r → rank ≤ r
unfolding first_gain
first_gain-ge [] rank h = absurd (cc)
first_gain-ge (true ∷ rest) rank h = ground arith
first_gain-ge (false ∷ rest) rank h = omega (arith, first_gain-ge rest (suc rank) h)

-- The first gain stands within a cutoff exactly if there are gains up to it.
first_gain-count :
    (gained : List Bool) (rank k : ℕ)
    → (0 < gain_count (take k gained))
      ↔ ((r : ℕ) × (first_gain rank gained ≡ some r) × (r < rank + k))
unfolding first_gain
first_gain-count [] rank zero = (λ h. absurd (omega arith), λ (r, e, h). absurd (cc))
first_gain-count [] rank (suc k) = (λ h. absurd (omega arith), λ (r, e, h). absurd (cc))
first_gain-count (true ∷ rest) rank zero = (
  λ h. absurd (omega arith),
  λ (r, e, h). absurd (omega (arith, first_gain-ge (true ∷ rest) rank e)),
)
first_gain-count (true ∷ rest) rank (suc k) = (λ h. (rank, refl, omega arith), λ h. omega arith)
first_gain-count (false ∷ rest) rank zero = (
  λ h. absurd (omega arith),
  λ (r, e, h). absurd (omega (arith, first_gain-ge (false ∷ rest) rank e)),
)
first_gain-count (false ∷ rest) rank (suc k) =
    let ih = first_gain-count rest (suc rank) k in
    (
      λ h. let found_at = ih.0 (omega arith) in (found_at.0, found_at.1, omega (arith, found_at.2)),
      λ (r, e, h). omega (arith, ih.1 (r, e, omega arith)),
    )

-- The list is a hit at a cutoff exactly if the rank whose reciprocal is the MRR stands within it.
pub hit-first_gain :
    (weight : ℕ → ℕ) (relevant ranked : List String) (k : ℕ)
    → ((score_at weight relevant ranked (gains relevant [] ranked) k).hit ≡ true)
      ↔ ((r : ℕ) × (first_gain 1 (gains relevant [] ranked) ≡ some r) × (r ≤ k))
unfolding score_at
hit-first_gain weight relevant ranked k =
    let equal = gains-found relevant ranked k in
    let first = first_gain-count (gains relevant [] ranked) 1 k in
    (
      λ h.
          let at = first.0 (omega (arith, equal, ltb→lt 0 (found relevant (take k ranked)) h)) in
          (at.0, at.1, omega (arith, at.2)),
      λ (r, e, h). lt→ltb 0 _ (omega (arith, equal, first.1 (r, e, omega arith))),
    )
