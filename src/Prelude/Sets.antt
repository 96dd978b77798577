-- ===== src/Prelude/Sets.antt =====
-- Python sets of texts as lists: membership, inclusion, the elements with no repeats.
use Prim.Native.String.{String}
use mathlib.Core.Path.{◌≡◌, refl}
use mathlib.Core.Bool.{Bool, true, false, ◌||◌, not}
use mathlib.Core.List.{List, [], ◌∷◌, ◌++◌}
use native.Mathlib.Omega.{arith}
use text.Mathlib.Text.{◌==◌ as str_eq}
use text.Mathlib.TextEquality.{eq_iff}
use auto_scholar.Prelude.Tests.{if◌then◌else◌}
use auto_scholar.Prelude.Lists.{any, all, keep_if}

-- `x in xs`.
abbrev pub contains : List String → String → Bool
contains xs x = any (λ y. str_eq y x) xs

-- `set(xs) <= set(ys)`.
abbrev pub is_subset : List String → List String → Bool
is_subset xs ys = all (contains ys) xs

-- `set(xs) - set(ys)`.
abbrev pub minus : List String → List String → List String
minus xs ys = keep_if (λ x. not (contains ys x)) xs

-- `set(xs)`.
unfoldable pub distinct : List String → List String
distinct [] = []
distinct (x ∷ xs) = if contains xs x then distinct xs else x ∷ distinct xs

pub contains-append :
    (xs ys : List String) (x : String) → contains (xs ++ ys) x ≡ (contains xs x || contains ys x)
contains-append [] ys x = refl
contains-append (y ∷ xs) ys x = ground (arith, contains-append xs ys x)

pub contains-minus :
    (xs ys : List String) (x : String)
    → contains ys x ≡ false
    → contains (minus xs ys) x ≡ contains xs x
contains-minus [] ys x h = refl
contains-minus (y ∷ xs) ys x h = ground (arith, eq_iff y x, contains-minus xs ys x h)

-- Inclusion, by its elements.
pub subset_elem :
    (xs ys : List String) (x : String)
    → is_subset xs ys ≡ true
    → contains xs x ≡ true
    → contains ys x ≡ true
subset_elem [] ys x h m = ground arith
subset_elem (y ∷ xs) ys x h m = ground (arith, eq_iff y x, subset_elem xs ys x)

pub subset_trans :
    (xs ys zs : List String)
    → is_subset xs ys ≡ true
    → is_subset ys zs ≡ true
    → is_subset xs zs ≡ true
subset_trans [] ys zs h k = refl
subset_trans (x ∷ xs) ys zs h k = ground (arith, subset_elem ys zs x k, subset_trans xs ys zs)
