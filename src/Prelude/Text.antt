-- ===== src/Prelude/Text.antt =====
-- Texts as the program cuts and joins them, by code points.
use Prim.Native.Nat.{ℕ, zero, suc}
use Prim.Native.String.{String}
use mathlib.Core.Bool.{Bool, true, false}
use text.Mathlib.Text.{◌==◌ as str_eq}
use text.Mathlib.TextEquality.{eq_iff}
use mathlib.Core.Path.{◌≡◌, refl}
use mathlib.Core.List.{List, [], ◌∷◌}

-- `not text`.
abbrev pub is_empty_text : String → Bool
is_empty_text String.[] = true
is_empty_text (String.◌∷◌ c s) = false

-- `len(text)`.
abbrev pub text_length : String → ℕ
text_length String.[] = 0
text_length (String.◌∷◌ c s) = suc (text_length s)

-- `text[:n]` and `text[n:]`.
abbrev pub text_take : ℕ → String → String
text_take zero s = String.[]
text_take (suc n) String.[] = String.[]
text_take (suc n) (String.◌∷◌ c s) = String.◌∷◌ c (text_take n s)

abbrev pub text_drop : ℕ → String → String
text_drop zero s = s
text_drop (suc n) String.[] = String.[]
text_drop (suc n) (String.◌∷◌ c s) = text_drop n s

-- `left + right`.
abbrev pub text_append : String → String → String
text_append String.[] t = t
text_append (String.◌∷◌ c s) t = String.◌∷◌ c (text_append s t)

-- `separator.join(texts)`.
abbrev pub join : String → List String → String
join separator [] = String.[]
join separator (t ∷ []) = t
join separator (t ∷ u ∷ ts) = text_append t (text_append separator (join separator (u ∷ ts)))

unfoldable pub String-discrete : Discrete String
String-discrete s t =
    elim (str_eq s t) as (λ b. str_eq s t ≡ b → Dec (s ≡ t)) [
      | true ↦ λ same. yes ((eq_iff s t).0 same)
      | false ↦ λ other. no (λ e. cc (other, (eq_iff s t).1 e))
    ]
      refl
