-- ===== src/Rag/Chunking/Ordinals.antt =====
-- The chunks that rag/chunking.py makes of a whole document: their numbers and their bounds.
use auto_scholar.Prelude.{
  ℕ, zero, suc, ◌+◌, ◌-◌, ◌≤◌, ◌<◌, String, false, ◌||◌, List, [], ◌∷◌, ◌++◌, ◌≡◌, refl, subst, inl,
  inr, leb, length, take, drop, is_empty, Bool-cases, arith, length-take,
}
use auto_scholar.Prelude.Text.{is_empty_text}
use auto_scholar.Rag.Chunking.{
  Characters, Chunker, ChunkRecord, Place, Section, Span, ParsedPage, Turn, skip, final, append,
  turn, window_loop, window_content, chunk_record, chunk_section, chunk_sections, chunk_pages,
  chunk, sections,
}

-- A chunk of the document with this ordinal: not blank, with some tokens but no more than allowed.
abbrev pub IsChunk : Chunker → String → String → ℕ → ChunkRecord → Type 0
IsChunk c document_id project_id ordinal x =
    (x.ordinal ≡ ordinal)
    × (0 < x.token_count)
    × (x.token_count ≤ c.max_tokens)
    × (is_empty_text x.content ≡ false)
    × (x.document_id ≡ document_id)
    × (x.project_id ≡ project_id)

-- Such chunks, with consecutive ordinals.
abbrev pub AreNumbered : Chunker → String → String → ℕ → List ChunkRecord → Type 0
AreNumbered c document_id project_id ordinal [] = Unit
AreNumbered c document_id project_id ordinal (x ∷ xs) =
    IsChunk c document_id project_id ordinal x
    × AreNumbered c document_id project_id (suc ordinal) xs

append-AreNumbered :
    (c : Chunker) (document_id project_id : String) (n k : ℕ) (xs ys : List ChunkRecord)
    → k ≡ n + length xs
    → AreNumbered c document_id project_id n xs
    → AreNumbered c document_id project_id k ys
    → AreNumbered c document_id project_id n (xs ++ ys)
append-AreNumbered c d p n k [] ys e h t =
    let same : k ≡ n = omega arith in subst (λ m. AreNumbered c d p m ys) same t
append-AreNumbered c d p n k (x ∷ xs) ys e h t =
    (h.0, append-AreNumbered c d p (suc n) k xs ys (omega arith) h.1 t)

length-pos : (xs : List Span) → is_empty xs ≡ false → 0 < length xs
length-pos [] h = absurd (cc)
length-pos (x ∷ xs) h = omega arith

module _ (chars : Characters) (c : Chunker) where
  abbrev IsTurn : Place → ℕ → Turn → Type 0
  IsTurn at n skip = Unit
  IsTurn at n (final x) = IsChunk c at.document_id at.project_id n x
  IsTurn at n (append x) = IsChunk c at.document_id at.project_id n x

  module _ (at : Place) (spans : List Span) where
    turn-IsTurn : (start n : ℕ) → IsTurn at n (turn chars c at spans start n)
    unfolding turn chunk_record
    turn-IsTurn start n =
        let window = take c.max_tokens (drop start spans) in
        elim (Bool-cases
          (is_empty window || is_empty_text (window_content chars at.section.content window))) [
            | inl blank ↦ rw blank tt
            | inr full ↦
                let some_tokens : is_empty window ≡ false = ground arith in
                let content : is_empty_text (window_content chars at.section.content window)
                    ≡ false =
                  ground arith in
                let good : IsChunk c at.document_id at.project_id n
                    (chunk_record chars at n window) =
                  (
                    refl,
                    length-pos window some_tokens,
                    omega (arith, length-take c.max_tokens (drop start spans)),
                    content,
                    refl,
                    refl,
                  ) in
                elim (Bool-cases (leb (length spans) (start + c.max_tokens))) [
                  | inl done ↦ rw (full, done) good
                  | inr further ↦ rw (full, further) good
                ]
          ]

    window_loop-AreNumbered :
        (turns start n : ℕ)
        → AreNumbered c at.document_id at.project_id n (window_loop chars c at spans turns start n)
    unfolding window_loop
    window_loop-AreNumbered zero start n = tt
    window_loop-AreNumbered (suc turns) start n =
        let next = start + (c.max_tokens - c.overlap_tokens) in
        let rest = window_loop-AreNumbered turns next in
        elim (turn chars c at spans start n)
            as (λ t.
              IsTurn at n t
              → AreNumbered c at.document_id at.project_id n (elim t [
                | skip ↦ window_loop chars c at spans turns next n
                | final x ↦ x ∷ []
                | append x ↦ x ∷ window_loop chars c at spans turns next (suc n)
              ])) [
                | skip ↦ λ g. rest n
                | final x ↦ λ g. (g, tt)
                | append x ↦ λ g. (g, rest (suc n))
              ]
          (turn-IsTurn start n)

  chunk_section-AreNumbered :
      (at : Place) (n : ℕ)
      → AreNumbered c at.document_id at.project_id n (chunk_section chars c at n)
  unfolding chunk_section
  chunk_section-AreNumbered at n =
      window_loop-AreNumbered at (chars.tokens at.section.content) _ 0 n

  module _ (document_id project_id : String) (now : ℕ) where
    chunk_sections-AreNumbered :
        (page : ℕ) (found : List Section) (n : ℕ)
        → AreNumbered c document_id project_id n (
            chunk_sections chars c
              (λ section. record {
                document_id = document_id;
                project_id = project_id;
                page = page;
                section = section;
                now = now;
              })
              found
              n)
    unfolding chunk_sections
    chunk_sections-AreNumbered page [] n = tt
    chunk_sections-AreNumbered page (section ∷ rest) n =
        append-AreNumbered c document_id project_id n _ _ _ refl (chunk_section-AreNumbered _ n)
          (chunk_sections-AreNumbered page rest _)

    chunk_pages-AreNumbered :
        (pages : List ParsedPage) (n : ℕ)
        → AreNumbered c document_id project_id n
            (chunk_pages chars c document_id project_id now pages n)
    unfolding chunk_pages
    chunk_pages-AreNumbered [] n = tt
    chunk_pages-AreNumbered (page ∷ rest) n =
        append-AreNumbered c document_id project_id n _ _ _ refl
          (chunk_sections-AreNumbered page.page (sections chars page.text) n)
          (chunk_pages-AreNumbered rest _)

-- Whatever the document, its chunks are numbered from 0 on without a gap, across sections and
-- pages, in the order in which they are returned; each belongs to the document and the project,
-- its content is not empty, and it counts at least one token and at most `max_tokens`.
pub chunk-AreNumbered :
    (chars : Characters) (c : Chunker) (pages : List ParsedPage) (document_id project_id : String)
    (now : ℕ)
    → AreNumbered c document_id project_id 0 (chunk chars c pages document_id project_id now)
unfolding chunk
chunk-AreNumbered chars c pages document_id project_id now =
    chunk_pages-AreNumbered chars c document_id project_id now pages 0
