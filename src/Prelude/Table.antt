-- ===== src/Prelude/Table.antt =====
-- A Python `dict` with text keys, and a database table by its primary key: an association list
-- that keeps the order of insertion.
use Prim.Native.String.{String}
use mathlib.Core.Path.{◌≡◌, refl, ◌∙◌}
use mathlib.Core.Bool.{false}
use mathlib.Core.List.{List, [], ◌∷◌}
use mathlib.Core.Option.{Option, none, some}
use mathlib.Core.Logic.{inl, inr}
use native.Mathlib.Omega.{arith}
use text.Mathlib.Text.{◌==◌ as str_eq}
use text.Mathlib.TextEquality.{eq_iff}
use text.Mathlib.TextPositions.{eq_refl}
use auto_scholar.Prelude.Tests.{if◌then◌else◌, Bool-cases}

abbrev pub Table {ℓ} : Type ℓ → Type ℓ
Table V = List (String × V)

module _ {ℓ} {V : Type ℓ} where
  -- `d.get(k)`, `session.get(Row, k)`.
  unfoldable pub get : Table V → String → Option V
  get [] k = none
  get ((j, v) ∷ m) k = if str_eq j k then some v else get m k

  -- `d[k] = v`, and the write of a row.
  unfoldable pub put : Table V → String → V → Table V
  put [] k v = (k, v) ∷ []
  put ((j, w) ∷ m) k v = if str_eq j k then (j, v) ∷ m else (j, w) ∷ put m k v

  -- `d.pop(k, None)`.
  unfoldable pub remove : Table V → String → Table V
  remove [] k = []
  remove ((j, v) ∷ m) k = let rest = remove m k in if str_eq j k then rest else (j, v) ∷ rest

  pub get-put :
      (m : Table V) (k j : String) (v : V)
      → get (put m k v) j ≡ (if str_eq k j then some v else get m j)
  unfolding get put
  get-put [] k j v = refl
  get-put ((i, w) ∷ m) k j v = ground (arith, eq_iff k j, eq_iff i k, eq_iff i j, get-put m k j v)

  pub get-remove :
      (m : Table V) (k j : String) → get (remove m k) j ≡ (if str_eq k j then none else get m j)
  unfolding get remove
  get-remove [] k j = ground arith
  get-remove ((i, w) ∷ m) k j = ground (arith, eq_iff k j, eq_iff i k, eq_iff i j, get-remove m k j)

  pub get-put_self : (m : Table V) (k : String) (v : V) → get (put m k v) k ≡ some v
  get-put_self m k v = simp (get-put, eq_refl)

  pub get-put_ne :
      (m : Table V) (k j : String) (v : V) → str_eq k j ≡ false → get (put m k v) j ≡ get m j
  get-put_ne m k j v h = rw (get-put, h)

  -- No key stands twice.
  abbrev pub IsUnique : Table V → Type ℓ
  IsUnique [] = Unit {ℓ}
  IsUnique ((k, v) ∷ m) = (get m k ≡ none) × IsUnique m

  pub put-IsUnique : (m : Table V) (k : String) (v : V) → IsUnique m → IsUnique (put m k v)
  unfolding put get
  put-IsUnique [] k v u = (refl, tt)
  put-IsUnique ((j, w) ∷ m) k v (fresh, u) = elim (Bool-cases (str_eq j k)) [
    | inl same ↦ rw same (fresh, u)
    | inr other ↦ rw other (
      get-put_ne m k j v (ground (arith, other, eq_iff j k, eq_iff k j)) ∙ fresh,
      put-IsUnique m k v u,
    )
  ]

pub ruleset table_laws = (get-put, get-remove, eq_refl)
