-- ===== src/Evaluation/Ranking.antt =====
-- evaluation/ranking.py: binary relevance metrics of a ranked list of identifiers.
use Prim.Native.Char.{code}
use auto_scholar.Prelude.{
  ℕ, zero, suc, ◌+◌, ◌*◌, min, String, Bool, true, false, not, ◌&&◌, ◌||◌, Option, none, some, List,
  [], ◌∷◌, map, if◌then◌else◌, ltb, leb, ◌==◌, length, take, is_empty, any, keep_if, str_eq,
}
use auto_scholar.Prelude.Text.{is_empty_text, text_length}
use auto_scholar.Prelude.Result.{Result, ok, err}
use auto_scholar.Prelude.Int.{ℤ, pos, pos_part, leb_ℤ}
use auto_scholar.Prelude.Sets.{contains, distinct}
pub mod Gains
pub mod Bounds
pub mod Order
pub mod Cutoffs

pub data RankingError : Type 0 where
  invalid_ks : RankingError
  too_many_ks : RankingError
  invalid_ids : RankingError
  no_relevant_ids : RankingError

-- A quotient, by its numerator and its denominator.
abbrev pub Fraction : Type 0
Fraction = ℕ × ℕ

-- The metrics at one cutoff.
pub record CutoffScore : Type 0 where
  pub k : ℕ
  pub recall : Fraction
  pub hit : Bool
  pub ndcg : Fraction

pub record RankingScore : Type 0 where
  pub at_k : List CutoffScore
  pub mrr : Fraction

-- `sorted(set(values) | {k})` of a sorted list with no repeats.
unfoldable pub insert_sorted : ℕ → List ℕ → List ℕ
insert_sorted k [] = k ∷ []
insert_sorted k (v ∷ values) =
    if ltb k v then k ∷ v ∷ values else if k == v then v ∷ values else v ∷ insert_sorted k values

unfoldable pub sorted_set : List ℕ → List ℕ
sorted_set [] = []
sorted_set (k ∷ ks) = insert_sorted k (sorted_set ks)

unfoldable pub normalize_ks : List ℤ → Result RankingError (List ℕ)
normalize_ks ks =
    if is_empty ks || any (λ k. not (leb_ℤ (pos 1) k && leb_ℤ k (pos 50))) ks
    then err invalid_ks
    else let result = sorted_set (map pos_part ks) in
      if ltb 10 (length result) then err too_many_ks else ok result

unfoldable pub has_control : String → Bool
has_control String.[] = false
has_control (String.◌∷◌ c s) = ltb (code c) 32 || has_control s

-- `strip` is Python's, which knows the blanks of Unicode.
unfoldable pub validate_ids : (String → String) → List String → Bool
validate_ids strip ids = not (
    ltb 100 (length ids)
    || any
        (λ value.
          is_empty_text value
          || ltb 200 (text_length value)
          || not (str_eq value (strip value))
          || has_control value)
        ids)

-- The loop over the ranked identifiers, with those that were seen.
unfoldable pub gains : List String → List String → List String → List Bool
gains relevant seen [] = []
gains relevant seen (identifier ∷ ranked) =
    (contains relevant identifier && not (contains seen identifier))
    ∷ gains relevant (identifier ∷ seen) ranked

-- `next((rank for rank, gain in enumerate(gains, rank) if gain), None)`.
unfoldable pub first_gain : ℕ → List Bool → Option ℕ
first_gain rank [] = none
first_gain rank (gain ∷ rest) = if gain then some rank else first_gain (suc rank) rest

-- `len(set(identifiers) & relevant)`.
unfoldable pub found : List String → List String → ℕ
found relevant identifiers = length (keep_if (contains relevant) (distinct identifiers))

-- What a gain at a rank is worth stands for the code's `1 / log2(rank + 1)`.
unfoldable pub dcg : (ℕ → ℕ) → ℕ → List Bool → ℕ
dcg weight rank [] = 0
dcg weight rank (gain ∷ rest) = (if gain then weight rank else 0) + dcg weight (suc rank) rest

-- `sum(weight(rank) for rank in range(rank, rank + count))`.
unfoldable pub ideal_dcg : (ℕ → ℕ) → ℕ → ℕ → ℕ
ideal_dcg weight rank zero = 0
ideal_dcg weight rank (suc count) = weight rank + ideal_dcg weight (suc rank) count

unfoldable pub score_at : (ℕ → ℕ) → List String → List String → List Bool → ℕ → CutoffScore
score_at weight relevant ranked gained k =
    let count = found relevant (take k ranked) in
    let size = length (distinct relevant) in
    record {
      k = k;
      recall = (count, size);
      hit = ltb 0 count;
      ndcg = (dcg weight 1 (take k gained), ideal_dcg weight 1 (min k size));
    }

unfoldable pub reciprocal : Option ℕ → Fraction
reciprocal none = (0, 1)
reciprocal (some rank) = (1, rank)

unfoldable pub score_ranked : (ℕ → ℕ) → List String → List String → List ℕ → RankingScore
score_ranked weight relevant ranked cutoffs =
    let gained = gains relevant [] ranked in
    record {
      at_k = map (score_at weight relevant ranked gained) cutoffs;
      mrr = reciprocal (first_gain 1 gained);
    }

-- `cutoffs[-1]`.
unfoldable pub last_cutoff : List ℕ → ℕ
last_cutoff [] = 0
last_cutoff (k ∷ []) = k
last_cutoff (k ∷ j ∷ ks) = last_cutoff (j ∷ ks)

unfoldable pub score_ranking :
    (String → String)
    → (ℕ → ℕ)
    → List String
    → List String
    → List ℤ
    → Result RankingError RankingScore
score_ranking strip weight ranked_ids relevant_ids ks = elim (normalize_ks ks) [
  | err e ↦ err e
  | ok cutoffs ↦
      let ranked = take (last_cutoff cutoffs) ranked_ids in
      if not (validate_ids strip relevant_ids)
      then err invalid_ids
      else if is_empty relevant_ids
      then err no_relevant_ids
      else if not (validate_ids strip ranked)
      then err invalid_ids
      else ok (score_ranked weight relevant_ids ranked cutoffs)
]
