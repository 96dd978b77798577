-- ===== src/Plan/Resolve.antt =====
-- orchestration/models.py, the loop over `pending` in `validate_graph`: what it means to end well.
use auto_scholar.Prelude.{
  ℕ, zero, suc, String, ◌≡◌, refl, true, false, List, [], ◌∷◌, ◌++◌, ◌⊎◌, inl, inr, arith,
  Bool-cases, eq_refl,
}
use auto_scholar.Prelude.Table.{Table}
use auto_scholar.Prelude.Sets.{contains, is_subset, minus, subset_trans, subset_elem}
use auto_scholar.Plan.{PlanStep, dependencies_of, ready_keys, resolves}

-- A key that is pending, has no result, and whose dependencies have results.
pub record IsOpen (table : Table PlanStep) (pending results : List String) (key : String)
    : Type 0 where
  pub waits : contains pending key ≡ true
  pub unfinished : contains results key ≡ false
  pub resolved : is_subset (dependencies_of table key) results ≡ true

module _ (table : Table PlanStep) where
  subset-append :
      (xs ys zs : List String)
      → is_subset xs zs ≡ true
      → is_subset ys zs ≡ true
      → is_subset (xs ++ ys) zs ≡ true
  subset-append [] ys zs h k = k
  subset-append (x ∷ xs) ys zs h k = ground (arith, subset-append xs ys zs)

  -- What is taken away and what is left are all of it.
  subset-minus :
      (xs ready results : List String)
      → is_subset ready results ≡ true
      → is_subset (minus xs ready) results ≡ true
      → is_subset xs results ≡ true
  subset-minus [] ready results h k = refl
  subset-minus (x ∷ xs) ready results h k =
      ground (arith, subset_elem ready results x h, subset-minus xs ready results h)

  contains-minus_sub :
      (xs ready : List String) (key : String)
      → contains (minus xs ready) key ≡ true
      → contains xs key ≡ true
  contains-minus_sub [] ready key h = h
  contains-minus_sub (x ∷ xs) ready key h = ground (arith, contains-minus_sub xs ready key)

  -- The keys that a round finds ready have results, or one of them is open.
  round :
      (pending done results : List String)
      → is_subset done results ≡ true
      → (is_subset (ready_keys table pending done) results ≡ true)
        ⊎ ((key : String) × IsOpen table pending results key)
  round [] done results h = inl refl
  round (key ∷ pending) done results h = elim (round pending done results h) [
    | inr (other, o) ↦ inr (
      other,
      record { waits = ground (arith, o.waits); unfinished = o.unfinished; resolved = o.resolved },
    )
    | inl rest ↦ elim (Bool-cases (is_subset (dependencies_of table key) done)) [
      | inr blocked ↦ inl (rw blocked rest)
      | inl resolved ↦ elim (Bool-cases (contains results key)) [
        | inl finished ↦ inl (rw resolved (rw finished rest))
        | inr unfinished ↦ inr (
          key,
          record {
            waits = simp eq_refl;
            unfinished = unfinished;
            resolved = subset_trans (dependencies_of table key) done results resolved h;
          },
        )
      ]
    ]
  ]

  -- If the loop ends with nothing pending, then whatever results contain those of the keys done:
  -- every pending key has a result, or one of them is open.
  pub resolves-IsOpen :
      (fuel : ℕ) (pending done results : List String)
      → resolves table fuel pending done ≡ true
      → is_subset done results ≡ true
      → (is_subset pending results ≡ true) ⊎ ((key : String) × IsOpen table pending results key)
  unfolding resolves
  resolves-IsOpen fuel [] done results ok h = inl refl
  resolves-IsOpen zero (key ∷ pending) done results ok h = cc
  resolves-IsOpen (suc fuel) (key ∷ pending) done results ok h =
      elim (round (key ∷ pending) done results h) [
        | inr open_key ↦ inr open_key
        | inl ready_done ↦
            elim (resolves-IsOpen fuel
              (minus (key ∷ pending) (ready_keys table (key ∷ pending) done))
              (done ++ ready_keys table (key ∷ pending) done) results (ground (arith, ok))
              (subset-append done _ results h ready_done)) [
                | inl rest ↦ inl (subset-minus (key ∷ pending) _ results ready_done rest)
                | inr (other, o) ↦ inr (
                  other,
                  record {
                    waits = contains-minus_sub (key ∷ pending) _ other o.waits;
                    unfinished = o.unfinished;
                    resolved = o.resolved;
                  },
                )
              ]
      ]
