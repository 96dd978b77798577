-- ===== src/Evaluation/Ranking/Cutoffs.antt =====
-- The cutoffs that evaluation/ranking.py makes of a selection of K values.
use auto_scholar.Prelude.{
  ℕ, suc, ◌≤◌, Bool, false, not, ◌&&◌, ◌||◌, List, [], ◌∷◌, map, ◌≡◌, refl, subst, sym, ap, ◌∙◌,
  ◌==◌, length, any, arith,
}
use auto_scholar.Prelude.Result.{ok}
use auto_scholar.Prelude.Int.{ℤ, pos, negsuc, pos_part, leb_ℤ}
use auto_scholar.Evaluation.Ranking.{insert_sorted, sorted_set, normalize_ks}

-- Ascending, from `lo` on, and at most 50.
abbrev pub AreCutoffs : ℕ → List ℕ → Type 0
AreCutoffs lo [] = Unit
AreCutoffs lo (k ∷ ks) = (lo ≤ k) × (k ≤ 50) × AreCutoffs (suc k) ks

abbrev pub has : List ℕ → ℕ → Bool
has ks x = any (λ k. k == x) ks

insert_sorted-AreCutoffs :
    (k lo : ℕ) (values : List ℕ)
    → lo ≤ k
    → k ≤ 50
    → AreCutoffs lo values
    → AreCutoffs lo (insert_sorted k values)
unfolding insert_sorted
insert_sorted-AreCutoffs k lo [] h m a = (h, m, tt)
insert_sorted-AreCutoffs k lo (v ∷ values) h m a =
    ground (arith, insert_sorted-AreCutoffs k (suc v) values)

has-insert_sorted :
    (k : ℕ) (values : List ℕ) (x : ℕ) → has (insert_sorted k values) x ≡ (k == x || has values x)
unfolding insert_sorted
has-insert_sorted k [] x = refl
has-insert_sorted k (v ∷ values) x = ground (arith, has-insert_sorted k values x)

has-sorted_set : (ks : List ℕ) (x : ℕ) → has (sorted_set ks) x ≡ has ks x
unfolding sorted_set
has-sorted_set [] x = refl
has-sorted_set (k ∷ ks) x =
    ground (arith, has-insert_sorted k (sorted_set ks) x, has-sorted_set ks x)

sorted_set-AreCutoffs :
    (ks : List ℤ)
    → any (λ k. not (leb_ℤ (pos 1) k && leb_ℤ k (pos 50))) ks ≡ false
    → AreCutoffs 1 (sorted_set (map pos_part ks))
unfolding sorted_set
sorted_set-AreCutoffs [] h = tt
sorted_set-AreCutoffs (pos k ∷ ks) h =
    insert_sorted-AreCutoffs k 1 (sorted_set (map pos_part ks)) (ground arith) (ground arith)
      (sorted_set-AreCutoffs ks (ground arith))
sorted_set-AreCutoffs (negsuc k ∷ ks) h = absurd (ground arith)

-- Cutoffs that are accepted are at most ten numbers between 1 and 50 in ascending order, without
-- repeats, and exactly those of the selection.
pub normalize_ks-ok :
    (ks : List ℤ) {cutoffs : List ℕ}
    → normalize_ks ks ≡ ok cutoffs
    → AreCutoffs 1 cutoffs
      × (length cutoffs ≤ 10)
      × ((x : ℕ) → has cutoffs x ≡ has (map pos_part ks) x)
unfolding normalize_ks
normalize_ks-ok ks {cutoffs} h =
    let legal : any (λ k. not (leb_ℤ (pos 1) k && leb_ℤ k (pos 50))) ks ≡ false = ground arith in
    let few : length cutoffs ≤ 10 = ground arith in
    let same : sorted_set (map pos_part ks) ≡ cutoffs = ground arith in
    (
      subst (AreCutoffs 1) same (sorted_set-AreCutoffs ks legal),
      few,
      λ x. ap (λ values. has values x) (sym same) ∙ has-sorted_set (map pos_part ks) x,
    )
