-- ===== src/Budget/Bounds.antt =====
-- core/budget.py, `Budget.check` and `Budget.consume`: no request passes its limits.
use auto_scholar.Prelude.{
  ℕ, ◌+◌, ◌≤◌, ◌<◌, String, ◌⊎◌, inl, inr, Bool-cases, ltb, ◌≡◌, false, refl, ◌↔◌, ◌≢◌, false,
  Option, none, some, List, [], ◌∷◌, arith, str_eq, eq_iff, ◌∙◌, if◌then◌else◌,
}
use auto_scholar.Prelude.Table.{get-put, put}
use auto_scholar.Prelude.Result.{Result, ok, err, ◌>>=◌, ◌>>◌}
use auto_scholar.Budget.{
  Budget, BudgetError, budget_exceeded, used_of, limit_of, seconds, is_late, is_spent, check,
  charge, budget_exceeded, attribute_error, is_late, is_spent, check, charge, consume,
}

pub check-unchanged : (now : ℕ) (b : Budget) → (check now b).1 ≡ b
unfolding check
check-unchanged now b = ground arith

pub check-cases :
    (now : ℕ) (b : Budget)
    → ((check now b ≡ (ok tt, b)) × (is_late now b ≡ false) × (is_spent b ≡ false))
      ⊎ ((limit : String) × (check now b ≡ (err (budget_exceeded limit), b)))
unfolding check
check-cases now b = elim (Bool-cases (is_late now b)) [
  | inl late ↦ inr ("wall_seconds", rw late)
  | inr early ↦ elim (Bool-cases (is_spent b)) [
    | inl spent ↦ inr ("total_tokens", rw (early, spent))
    | inr left ↦ inl (rw (early, left), early, left)
  ]
]

charge-cases :
    (resource : String) (amount : ℕ) (b : Budget) (limit : Option ℕ)
    → (charge resource amount limit b
        ≡ (ok tt, record b { used = put b.used resource (used_of b.used resource + amount) }))
      ⊎ ((e : BudgetError) × (charge resource amount limit b ≡ (err e, b)))
unfolding charge
charge-cases resource amount b none = inr (attribute_error resource, refl)
charge-cases resource amount b (some limit) =
    elim (Bool-cases (ltb limit (used_of b.used resource + amount))) [
      | inl over ↦ inr (budget_exceeded resource, rw over)
      | inr fits ↦ inl (rw fits)
    ]

-- What has to hold for a charge to be accepted at a time.
pub record Permits (now : ℕ) (resource : String) (amount limit : ℕ) (b : Budget) : Type 0 where
  pub in_time : now < b.started + seconds b.limits.wall_seconds
  pub tokens_left : used_of b.used "total_tokens" < b.limits.total_tokens
  pub fits : used_of b.used resource + amount ≤ limit

module _ (now : ℕ) (resource : String) (amount : ℕ) (b : Budget) where
  consume_ok-Permits :
      {limit : ℕ}
      → limit_of b.limits resource ≡ some limit
      → (consume now resource amount b).0 ≡ ok tt
      → Permits now resource amount limit b
  unfolding consume check charge
  consume_ok-Permits known h = ground arith

  Permits-consume :
      {limit : ℕ}
      → limit_of b.limits resource ≡ some limit
      → Permits now resource amount limit b
      → (consume now resource amount b).0 ≡ ok tt
  unfolding consume check charge
  Permits-consume known p = ground arith

  consume_error_unchanged :
      {e : BudgetError}
      → (consume now resource amount b).0 ≡ err e
      → (consume now resource amount b).1 ≡ b
  unfolding consume check charge
  consume_error_unchanged h = ground arith

  pub consume-cases :
      (consume now resource amount b
        ≡ (ok tt, record b { used = put b.used resource (used_of b.used resource + amount) }))
      ⊎ ((e : BudgetError) × (consume now resource amount b ≡ (err e, b)))
  unfolding consume
  consume-cases = elim (check-cases now b) [
    | inl (passed, _, _) ↦
        rw (passed, ◌>>=◌, ◌>>◌)
          (rw (check-unchanged now b) (charge-cases resource amount b (limit_of b.limits resource)))
    | inr (e, failed) ↦
        inr (budget_exceeded e, rw (failed, ◌>>=◌, ◌>>◌) (rw (check-unchanged now b)))
  ]

  limits-consume : (consume now resource amount b).1.limits ≡ b.limits
  unfolding consume check charge
  limits-consume = ground arith

  started-consume : (consume now resource amount b).1.started ≡ b.started
  unfolding consume check charge
  started-consume = ground arith

  used-consume :
      (j : String)
      → (consume now resource amount b).0 ≡ ok tt
      → used_of (consume now resource amount b).1.used j
        ≡ (if str_eq resource j then used_of b.used resource + amount else used_of b.used j)
  unfolding consume check charge
  used-consume j h = ground (arith, get-put b.used resource j (used_of b.used resource + amount))

-- For a resource that has a limit: `consume` succeeds exactly when the clock is before the deadline,
-- tokens are left and the charge fits the limit. A success adds the amount to that resource and to
-- no other, and leaves the limits and the start as they are.
-- After an error the budget is unchanged.
pub consume_exact :
    (now : ℕ) (resource : String) (amount : ℕ) (b : Budget) {limit : ℕ}
    → limit_of b.limits resource ≡ some limit
    → let (r, b') = consume now resource amount b in
      ((r ≡ ok tt) ↔ Permits now resource amount limit b)
      × (r ≡ ok tt
          → (j : String)
          → used_of b'.used j
            ≡ (if str_eq resource j then used_of b.used resource + amount else used_of b.used j))
      × (b'.limits ≡ b.limits)
      × (b'.started ≡ b.started)
      × ((e : BudgetError) → r ≡ err e → b' ≡ b)
consume_exact now resource amount b known = (
  (consume_ok-Permits now resource amount b known, Permits-consume now resource amount b known),
  λ h j. used-consume now resource amount b j h,
  limits-consume now resource amount b,
  started-consume now resource amount b,
  λ e. consume_error_unchanged now resource amount b,
)

-- Nothing has been used beyond its limit.
pub record Fits (b : Budget) : Type 0 where
  pub fits : (r : String) (limit : ℕ) → limit_of b.limits r ≡ some limit → used_of b.used r ≤ limit

consume-fits :
    (now : ℕ) (resource : String) (amount : ℕ) (b : Budget) (r : String) (limit : ℕ)
    → (limit_of b.limits r ≡ some limit → used_of b.used r ≤ limit)
    → limit_of b.limits r ≡ some limit
    → used_of (consume now resource amount b).1.used r ≤ limit
unfolding consume check charge
consume-fits now resource amount b r limit h e =
    ground
      (arith, h e, eq_iff resource r, get-put b.used resource r (used_of b.used resource + amount))

consume-Fits :
    (now : ℕ) (resource : String) (amount : ℕ) (b : Budget)
    → Fits b
    → Fits (consume now resource amount b).1
consume-Fits now resource amount b h = record {
  fits = λ r limit e.
      consume-fits now resource amount b r limit (h.fits r limit)
        (rw (limits-consume now resource amount b) at e);
}

-- The calls of `consume` in a request: the time, the resource, the amount.
abbrev pub Attempt : Type 0
Attempt = ℕ × String × ℕ

-- A caller that catches the error goes on with the budget as it is.
pub consume_all : List Attempt → Budget → Budget
consume_all [] b = b
consume_all ((now, resource, amount) ∷ rest) b = consume_all rest (consume now resource amount b).1

taken : {A : Type 0} → Result BudgetError A → ℕ → ℕ
taken (ok _) amount = amount
taken (err _) amount = 0

-- How much of a resource the accepted calls have taken.
pub accepted : String → List Attempt → Budget → ℕ
accepted r [] b = 0
accepted r ((now, resource, amount) ∷ rest) b =
    let (result, b') = consume now resource amount b in
    (if str_eq resource r then taken result amount else 0) + accepted r rest b'

used_step :
    (now : ℕ) (resource : String) (amount : ℕ) (b : Budget) (r : String)
    → used_of (consume now resource amount b).1.used r
      ≡ used_of b.used r
        + (if str_eq resource r then taken (consume now resource amount b).0 amount else 0)
unfolding consume check charge taken
used_step now resource amount b r =
    ground (arith, eq_iff resource r, get-put b.used resource r (used_of b.used resource + amount))

used-consume_all :
    (r : String) (calls : List Attempt) (b : Budget)
    → used_of (consume_all calls b).used r ≡ used_of b.used r + accepted r calls b
unfolding consume_all accepted
used-consume_all r [] b = omega arith
used-consume_all r ((now, resource, amount) ∷ rest) b = ground (
  arith,
  used-consume_all r rest (consume now resource amount b).1,
  used_step now resource amount b r,
)

limits-consume_all : (calls : List Attempt) (b : Budget) → (consume_all calls b).limits ≡ b.limits
unfolding consume_all
limits-consume_all [] b = refl
limits-consume_all ((now, resource, amount) ∷ rest) b =
    limits-consume_all rest (consume now resource amount b).1 ∙ limits-consume now resource amount b

consume_all-Fits : (calls : List Attempt) (b : Budget) → Fits b → Fits (consume_all calls b)
unfolding consume_all
consume_all-Fits [] b h = h
consume_all-Fits ((now, resource, amount) ∷ rest) b h =
    consume_all-Fits rest (consume now resource amount b).1 (consume-Fits now resource amount b h)

-- Over any calls of `consume`, at any times and for any resources, from a budget within its limits
-- (as a resumed workflow has it): what the budget records for a resource with a limit is what it had
-- recorded and the sum of the accepted charges, and it is within that limit.
pub consume_all_bounded :
    (calls : List Attempt) (b : Budget) (r : String) {limit : ℕ}
    → Fits b
    → limit_of b.limits r ≡ some limit
    → (used_of (consume_all calls b).used r ≡ used_of b.used r + accepted r calls b)
      × (used_of b.used r + accepted r calls b ≤ limit)
consume_all_bounded calls b r {limit} h known = (
  used-consume_all r calls b,
  omega (
    arith,
    used-consume_all r calls b,
    (consume_all-Fits calls b h).fits r limit (rw limits-consume_all known),
  ),
)

-- Once the tokens are used up no charge of any resource is accepted.
pub consume_spent :
    (now : ℕ) (resource : String) (amount : ℕ) (b : Budget)
    → used_of b.used "total_tokens" ≡ b.limits.total_tokens
    → (consume now resource amount b).0 ≢ ok tt
unfolding consume check charge
consume_spent now resource amount b full h = ground arith
