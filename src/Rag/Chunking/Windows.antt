-- ===== src/Rag/Chunking/Windows.antt =====
-- The windows that rag/chunking.py lays over the tokens of a section: they cover the tokens in
-- order, each begins with the last tokens of the one before it, and none is longer than it may be.
use auto_scholar.Prelude.{
  ℕ, zero, suc, ◌+◌, ◌-◌, ◌*◌, ◌≤◌, ◌<◌, String, false, List, [], ◌∷◌, ◌++◌, ◌≡◌, refl, ◌∙◌, sym,
  ap, inl, inr, leb, leb→le, if◌then◌else◌, length, take, drop, is_empty, Bool-cases, arith,
  length-take, length-drop, append-nil, take_all, is_empty-take, List-cases, take-append-drop,
  drop-drop, drop-append, drop-take, take-take,
}
use auto_scholar.Prelude.Text.{is_empty_text}
use auto_scholar.Prelude.Result.{ok}
use native.Mathlib.Nat.{lt-div-mul-add, div-eq_of_lt}
use auto_scholar.Rag.Chunking.{
  Characters, Chunker, ChunkRecord, Place, Span, final, append, turn, window_loop, window_content,
  chunk_record, chunk_section, range_length, chunker,
}

-- What windows of at most `max` tokens that start `step` tokens apart are, whatever computes them.
data Cut {ℓ} {A : Type ℓ} (max step : ℕ) : List A → List (List A) → Type ℓ where
  last : (s : List A) → length s ≤ max → Cut max step s (s ∷ [])
  more :
      (s : List A) (ws : List (List A))
      → max < length s
      → Cut max step (drop step s) ws
      → Cut max step s (take max s ∷ ws)

module _ {ℓ} {A : Type ℓ} where
  -- The windows after the first, each without the tokens that it repeats.
  abbrev news : ℕ → List (List A) → List A
  news overlap [] = []
  news overlap (w ∷ ws) = drop overlap w ++ news overlap ws

  -- All tokens that the windows show, the repeated ones once.
  abbrev pub stitch : ℕ → List (List A) → List A
  stitch overlap [] = []
  stitch overlap (w ∷ ws) = w ++ news overlap ws

  -- The last `overlap` tokens of a window are the first of the next.
  abbrev pub Linked : ℕ → List (List A) → Type ℓ
  Linked overlap [] = Unit
  Linked overlap (w ∷ []) = Unit
  Linked overlap (w ∷ v ∷ ws) =
      (drop (length w - overlap) w ≡ take overlap v) × Linked overlap (v ∷ ws)

  -- Every window has `max` tokens but the last, which has at most so many.
  abbrev pub Filled : ℕ → List (List A) → Type 0
  Filled max [] = Unit
  Filled max (w ∷ []) = length w ≤ max
  Filled max (w ∷ v ∷ ws) = (length w ≡ max) × Filled max (v ∷ ws)

  module _ (max overlap : ℕ) (small : overlap < max) where
    news-Cut :
        {s : List A} {ws : List (List A)}
        → Cut max (max - overlap) s ws
        → overlap ≤ length s
        → news overlap ws ≡ drop overlap s
    news-Cut (last s h) k = append-nil (drop overlap s)
    news-Cut (more s ws h c) k =
        let ih = news-Cut c (omega (arith, length-drop (max - overlap) s)) in
        rw (ih, drop-drop (max - overlap) overlap max s (omega arith))
          (drop-append overlap (take max s) (drop max s) (omega (arith, length-take max s))
            ∙ ap (drop overlap) (take-append-drop max s))

    stitch-Cut :
        {s : List A} {ws : List (List A)} → Cut max (max - overlap) s ws → stitch overlap ws ≡ s
    stitch-Cut (last s h) = append-nil s
    stitch-Cut (more s ws h c) =
        rw
          (
            news-Cut c (omega (arith, length-drop (max - overlap) s)),
            drop-drop (max - overlap) overlap max s (omega arith),
          )
          (take-append-drop max s)

    Filled-cons :
        (w : List A) (ws : List (List A)) → length w ≡ max → Filled max ws → Filled max (w ∷ ws)
    Filled-cons w [] h f = omega arith
    Filled-cons w (v ∷ ws) h f = (h, f)

    Filled-Cut : {s : List A} {ws : List (List A)} → Cut max (max - overlap) s ws → Filled max ws
    Filled-Cut (last s h) = h
    Filled-Cut (more s ws h c) =
        Filled-cons (take max s) ws (omega (arith, length-take max s)) (Filled-Cut c)

    -- The first window begins as the tokens do.
    abbrev Starts : List A → List (List A) → Type ℓ
    Starts s [] = Unit
    Starts s (v ∷ ws) = take overlap v ≡ take overlap s

    Starts-Cut : {s : List A} {ws : List (List A)} → Cut max (max - overlap) s ws → Starts s ws
    Starts-Cut (last s h) = refl
    Starts-Cut (more s ws h c) = take-take overlap max s (omega arith)

    Linked-cons :
        (s : List A) (ws : List (List A))
        → max < length s
        → Starts (drop (max - overlap) s) ws
        → Linked overlap ws
        → Linked overlap (take max s ∷ ws)
    Linked-cons s [] h b l = tt
    Linked-cons s (v ∷ ws) h b l =
        let e : length (take max s) ≡ max = omega (arith, length-take max s) in
        (rw e (drop-take (max - overlap) overlap max s (omega arith) ∙ sym b), l)

    Linked-Cut :
        {s : List A} {ws : List (List A)} → Cut max (max - overlap) s ws → Linked overlap ws
    Linked-Cut (last s h) = tt
    Linked-Cut (more s ws h c) = Linked-cons s ws h (Starts-Cut c) (Linked-Cut c)

module _ (chars : Characters) where
  -- The records of the windows, with ordinals from `ordinal` on.
  abbrev pub records : Place → ℕ → List (List Span) → List ChunkRecord
  records at ordinal [] = []
  records at ordinal (w ∷ ws) = chunk_record chars at ordinal w ∷ records at (suc ordinal) ws

  -- What begins and ends with a token is not blank.
  abbrev pub AreTokens : Chunker → String → List Span → Type 0
  AreTokens c text spans =
      (start : ℕ)
      → start < length spans
      → is_empty_text (window_content chars text (take c.max_tokens (drop start spans))) ≡ false

  module _ (c : Chunker) (at : Place) (spans : List Span)
      (small : c.overlap_tokens < c.max_tokens) where
    window : ℕ → List Span
    window start = take c.max_tokens (drop start spans)

    turn_lem :
        (start ordinal : ℕ)
        → start < length spans
        → is_empty_text (window_content chars at.section.content (window start)) ≡ false
        → turn chars c at spans start ordinal ≡ (
            if leb (length spans) (start + c.max_tokens)
            then final (chunk_record chars at ordinal (window start))
            else append (chunk_record chars at ordinal (window start)))
    unfolding turn window
    turn_lem start ordinal h e =
        let some_tokens : is_empty (take c.max_tokens (drop start spans)) ≡ false =
          is_empty-take c.max_tokens (drop start spans) (omega arith)
            (omega (arith, length-drop start spans)) in
        rw (e, some_tokens) refl

    -- The loop, from a start on that has tokens, with turns enough for them.
    window_loop-Cut :
        AreTokens c at.section.content spans
        → (turns start ordinal : ℕ) → start < length spans
        → length spans ≤ start + turns * (c.max_tokens - c.overlap_tokens)
        → (ws : List (List Span)) × Cut c.max_tokens
            (c.max_tokens - c.overlap_tokens)
            (drop start spans)
            ws
          × (window_loop chars c at spans turns start ordinal ≡ records at ordinal ws)
    unfolding window_loop window
    window_loop-Cut tokens zero start ordinal h k = absurd (omega arith)
    window_loop-Cut tokens (suc turns) start ordinal h k =
        elim (Bool-cases (leb (length spans) (start + c.max_tokens))) [
          | inl done ↦
              let short : length (drop start spans) ≤ c.max_tokens =
                omega
                  (arith, length-drop start spans, leb→le (length spans) (start + c.max_tokens)) in
              (
                drop start spans ∷ [],
                last (drop start spans) short,
                let t : turn chars c at spans start ordinal
                        ≡ final (chunk_record chars at ordinal (drop start spans)) =
                      rw
                        (
                          turn_lem start ordinal h (tokens start h),
                          done,
                          take_all c.max_tokens (drop start spans) short,
                        )
                        refl in
                    rw (t, window_loop) refl,
              )
          | inr further ↦
              let long : start + c.max_tokens < length spans = ground arith in
              let next =
                window_loop-Cut tokens turns (start + (c.max_tokens - c.overlap_tokens))
                  (suc ordinal) (omega arith) (grind arith) in
              (
                take c.max_tokens (drop start spans) ∷ next.0,
                more (drop start spans) next.0 (omega (arith, length-drop start spans))
                    (rw (drop-drop start (c.max_tokens - c.overlap_tokens) _ spans refl) next.1),
                let t : turn chars c at spans start ordinal
                        ≡ append (chunk_record chars at ordinal (window start)) =
                      rw (turn_lem start ordinal h (tokens start h), further) refl in
                    rw (t, window_loop, next.2) refl,
              )
        ]

-- The range has turns enough.
range-enough : (count step : ℕ) → 0 < step → count ≤ 0 + range_length count step * step
unfolding range_length
range-enough count step h = omega (arith, lt-div-mul-add {a = count + step - 1} h)

range-zero : (step : ℕ) → 0 < step → range_length 0 step ≡ 0
unfolding range_length
range-zero step h = div-eq_of_lt {n = 0 + step - 1} {m = step} (omega arith)

chunker-ok :
    (max overlap : ℕ) {c : Chunker} → chunker max overlap ≡ ok c → c.overlap_tokens < c.max_tokens
unfolding chunker
chunker-ok max overlap h = ground arith

module _ (chars : Characters) (max overlap : ℕ) {c : Chunker}
    (made : chunker max overlap ≡ ok c) where
  -- For a chunker that the constructor accepts, and a section in which what begins and ends with a
  -- token is not blank: the chunks of the section are the records of windows, with consecutive
  -- ordinals. The windows show all tokens of the section in their order and nothing else, each
  -- begins with the last `overlap_tokens` tokens of the one before it, and each has `max_tokens`
  -- tokens, or at most so many if it is the last. A section with no tokens has no chunks.
  pub chunk_section_windows :
      (at : Place) (ordinal : ℕ)
      → AreTokens chars c at.section.content (chars.tokens at.section.content)
      → (ws : List (List Span)) × (chunk_section chars c at ordinal ≡ records chars at ordinal ws)
        × (stitch c.overlap_tokens ws ≡ chars.tokens at.section.content)
        × Linked c.overlap_tokens ws
        × Filled c.max_tokens ws
  unfolding chunk_section window_loop
  chunk_section_windows at ordinal tokens =
      let spans = chars.tokens at.section.content in
      let small = chunker-ok max overlap made in
      elim (List-cases spans) [
        | inl none_left ↦ (
          [],
          rw (none_left, range-zero (c.max_tokens - c.overlap_tokens) (omega arith), window_loop)
              refl,
          sym none_left,
          tt,
          tt,
        )
        | inr (first, rest, e) ↦
            let cut =
              window_loop-Cut chars c at spans small tokens
                (range_length (length spans) (c.max_tokens - c.overlap_tokens)) 0 ordinal
                (rw e (omega arith))
                (range-enough (length spans) (c.max_tokens - c.overlap_tokens) (omega arith)) in
            (
              cut.0,
              cut.2,
              stitch-Cut c.max_tokens c.overlap_tokens small cut.1,
              Linked-Cut c.max_tokens c.overlap_tokens small cut.1,
              Filled-Cut c.max_tokens c.overlap_tokens small cut.1,
            )
      ]
