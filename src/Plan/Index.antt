-- ===== src/Plan/Index.antt =====
-- orchestration/models.py, `by_id`: the table of the steps by their identifiers.
use auto_scholar.Prelude.{
  String, ◌≡◌, refl, Bool, true, some, List, [], ◌∷◌, ◌⊎◌, inl, inr, arith, any, all, eq_iff,
  eq_refl, Bool-cases, str_eq, ap, sym, ◌∙◌,
}
use auto_scholar.Prelude.Table.{Table, get, put, get-put}
use auto_scholar.Prelude.Sets.{contains, is_subset, subset_elem}
use auto_scholar.Plan.{PlanStep, index, by_id, keys}

module _ {V : Type 0} where
  pub get_key :
      (t : Table V) (k : String) → contains (keys t) k ≡ true → (v : V) × (get t k ≡ some v)
  unfolding get
  get_key [] k h = cc
  get_key ((j, v) ∷ t) k h = elim (Bool-cases (str_eq j k)) [
    | inl same ↦ (v, rw same)
    | inr other ↦ let (w, e) = get_key t k (rw other at h) in (w, rw other e)
  ]

  key_put : (t : Table V) (k : String) (v : V) → contains (keys (put t k v)) k ≡ true
  unfolding put
  key_put [] k v = simp eq_refl
  key_put ((j, w) ∷ t) k v = ground (arith, key_put t k v)

  keys-put :
      (t : Table V) (k j : String) (v : V)
      → contains (keys t) j ≡ true
      → contains (keys (put t k v)) j ≡ true
  unfolding put
  keys-put [] k j v h = cc
  keys-put ((i, w) ∷ t) k j v h = ground (arith, keys-put t k j v)

keys-index :
    (steps : List PlanStep) (t : Table PlanStep) (j : String)
    → contains (keys t) j ≡ true
    → contains (keys (index steps t)) j ≡ true
unfolding index
keys-index [] t j h = h
keys-index (step ∷ steps) t j h =
    keys-index steps (put t step.id step) j (keys-put t step.id j step h)

-- Whatever contains the keys contains the identifier of each step.
pub finished_steps :
    (steps : List PlanStep) (t : Table PlanStep) (results : List String)
    → is_subset (keys (index steps t)) results ≡ true
    → all (λ step. contains results step.id) steps ≡ true
unfolding index
finished_steps [] t results h = refl
finished_steps (step ∷ steps) t results h = ground (
  arith,
  subset_elem (keys (index steps (put t step.id step))) results step.id h
      (keys-index steps (put t step.id step) step.id (key_put t step.id step)),
  finished_steps steps (put t step.id step) results h,
)

pub some_eq : (a b : PlanStep) → some a ≡ some b → a ≡ b
some_eq a b h = cc

-- A row of the table is a row that was there, or a step with that identifier.
indexed :
    (p : PlanStep → Bool) (steps : List PlanStep) (t : Table PlanStep) (key : String) (s : PlanStep)
    → get (index steps t) key ≡ some s
    → p s ≡ true
    → (get t key ≡ some s) ⊎ ((any p steps ≡ true) × (s.id ≡ key))
unfolding index
indexed p [] t key s h ps = inl h
indexed p (step ∷ steps) t key s h ps = elim (indexed p steps (put t step.id step) key s h ps) [
  | inr (found, named) ↦ inr (ground (arith, found), named)
  | inl old ↦ elim (Bool-cases (str_eq step.id key)) [
    | inl same ↦
        let e : step ≡ s = some_eq step s (rw (get-put, same) at old) in
        inr (
          ground (arith, ap p e, ps),
          sym (ap (λ (x : PlanStep). x.id) e) ∙ (eq_iff step.id key).0 same,
        )
    | inr other ↦ inl (ground (arith, get-put t step.id key step, old))
  ]
]

pub indexed_step :
    (p : PlanStep → Bool) (steps : List PlanStep) (key : String) (s : PlanStep)
    → get (by_id steps) key ≡ some s
    → p s ≡ true
    → (any p steps ≡ true) × (s.id ≡ key)
unfolding get
indexed_step p steps key s h ps = elim (indexed p steps [] key s h ps) [
  | inl nothing ↦ absurd (cc)
  | inr found ↦ found
]
