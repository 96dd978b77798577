-- ===== src/Plan/Complete.antt =====
-- orchestration/models.py, `validate_graph`: a graph with a rank is never taken for a cycle.
use auto_scholar.Prelude.{
  ℕ, zero, suc, ◌≤◌, ◌<◌, String, ◌≡◌, refl, Bool, true, false, not, List, [], ◌∷◌, ◌++◌, ◌⊎◌, inl,
  inr, arith, eq_iff, eq_refl, Bool-cases, length, length-keep_if, is_empty, keep_if,
}
use auto_scholar.Prelude.Table.{Table}
use auto_scholar.Prelude.Sets.{contains, is_subset, minus, contains-minus, contains-append}
use auto_scholar.Plan.{PlanStep, dependencies_of, ready_keys, resolves}

-- The dependencies of every key rank below it.
pub record IsRanked (table : Table PlanStep) (rank : String → ℕ) : Type 0 where
  pub lower : (key d : String) → contains (dependencies_of table key) d ≡ true → rank d < rank key

-- Every dependency of a pending key is pending or done.
pub record IsClosed (table : Table PlanStep) (pending done : List String) : Type 0 where
  pub known :
      (key d : String)
      → contains pending key ≡ true
      → contains (dependencies_of table key) d ≡ true
      → (contains pending d ≡ true) ⊎ (contains done d ≡ true)

missing_elem :
    (xs ys : List String)
    → is_subset xs ys ≡ false
    → (d : String) × (contains xs d ≡ true) × (contains ys d ≡ false)
missing_elem [] ys h = absurd (cc)
missing_elem (x ∷ xs) ys h = elim (Bool-cases (contains ys x)) [
  | inr out ↦ (x, simp eq_refl, out)
  | inl there ↦ let (d, m, out) = missing_elem xs ys (rw there at h) in (d, ground (arith, m), out)
]

keep_elem :
    (p : String → Bool) (xs : List String) (x : String)
    → contains xs x ≡ true
    → p x ≡ true
    → contains (keep_if p xs) x ≡ true
keep_elem p [] x m h = m
keep_elem p (y ∷ xs) x m h = ground (arith, eq_iff y x, keep_elem p xs x, h)

keep_sub :
    (p : String → Bool) (xs : List String) (x : String)
    → contains (keep_if p xs) x ≡ true
    → contains xs x ≡ true
keep_sub p [] x m = m
keep_sub p (y ∷ xs) x m = ground (arith, keep_sub p xs x)

elem_nonempty : (xs : List String) (x : String) → contains xs x ≡ true → is_empty xs ≡ false
elem_nonempty [] x m = cc
elem_nonempty (y ∷ xs) x m = refl

some_elem : (xs : List String) → is_empty xs ≡ false → (x : String) × (contains xs x ≡ true)
some_elem [] h = absurd (cc)
some_elem (x ∷ xs) h = (x, simp eq_refl)

minus_lt :
    (xs ys : List String) (x : String)
    → contains xs x ≡ true
    → contains ys x ≡ true
    → length (minus xs ys) < length xs
minus_lt [] ys x m n = absurd (cc)
minus_lt (y ∷ xs) ys x m n =
    ground (arith, eq_iff y x, minus_lt xs ys x, length-keep_if (λ z. not (contains ys z)) xs)

-- A pending key of least rank is ready, so a round with pending keys makes progress.
some_ready :
    (table : Table PlanStep) (rank : String → ℕ) (n : ℕ) (pending done : List String) (key : String)
    → IsRanked table rank
    → IsClosed table pending done
    → rank key < n
    → contains pending key ≡ true
    → is_empty (ready_keys table pending done) ≡ false
some_ready table rank zero pending done key r c low m = absurd (omega arith)
some_ready table rank (suc n) pending done key r c low m =
    elim (Bool-cases (is_subset (dependencies_of table key) done)) [
      | inl resolved ↦
          elem_nonempty (ready_keys table pending done) key
            (keep_elem (λ k. is_subset (dependencies_of table k) done) pending key m resolved)
      | inr blocked ↦
          let (d, needs, undone) = missing_elem (dependencies_of table key) done blocked in
          elim (c.known key d m needs) [
            | inr was_done ↦ absurd (cc (was_done, undone))
            | inl waits ↦
                some_ready table rank n pending done d r c (omega (arith, r.lower key d needs))
                  waits
          ]
    ]

next-IsClosed :
    (table : Table PlanStep) (pending done ready : List String)
    → IsClosed table pending done
    → IsClosed table (minus pending ready) (done ++ ready)
next-IsClosed table pending done ready c = record {
  known = λ key d m needs.
      elim (c.known key d (keep_sub (λ x. not (contains ready x)) pending key m) needs) [
        | inr was_done ↦ inr (rw (contains-append, was_done))
        | inl waits ↦ elim (Bool-cases (contains ready d)) [
          | inl now_ready ↦ inr (rw contains-append (ground (arith, now_ready)))
          | inr later ↦ inl (rw (contains-minus pending ready d later) waits)
        ]
      ];
}

-- With fuel for the pending keys the loop ends with nothing pending, whenever the dependencies have
-- a rank and are keys themselves.
pub resolves_complete :
    (table : Table PlanStep) (rank : String → ℕ) (fuel : ℕ) (pending done : List String)
    → IsRanked table rank
    → IsClosed table pending done
    → length pending ≤ fuel
    → resolves table fuel pending done ≡ true
unfolding resolves
resolves_complete table rank fuel [] done r c enough = refl
resolves_complete table rank zero (key ∷ pending) done r c enough = absurd (omega arith)
resolves_complete table rank (suc fuel) (key ∷ pending) done r c enough =
    let progress =
      some_ready table rank (suc (rank key)) (key ∷ pending) done key r c (omega arith)
        (simp eq_refl) in
    let (x, m) = some_elem (ready_keys table (key ∷ pending) done) progress in
    rw progress (
      resolves_complete table rank fuel
        (minus (key ∷ pending) (ready_keys table (key ∷ pending) done))
        (done ++ ready_keys table (key ∷ pending) done) r
        (next-IsClosed table (key ∷ pending) done _ c)
        (omega (
          arith,
          minus_lt (key ∷ pending) (ready_keys table (key ∷ pending) done) x
              (keep_sub (λ k. is_subset (dependencies_of table k) done) (key ∷ pending) x m) m,
        )))
