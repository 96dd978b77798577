-- ===== src/Rag/Chunking.antt =====
-- rag/chunking.py: `StructureAwareChunker` cuts the pages of a document into sections at their
-- headings, and each section into windows of tokens that overlap.
use auto_scholar.Prelude.{
  ℕ, zero, suc, ◌+◌, ◌-◌, ◌/◌, String, Bool, true, false, not, ◌&&◌, ◌||◌, Option, none, some, List,
  [], ◌∷◌, ◌++◌, if◌then◌else◌, ltb, leb, length, take, drop, is_empty, keep_if, str_eq,
}
use auto_scholar.Prelude.Text.{is_empty_text, text_length, text_take, text_drop, join}
use auto_scholar.Prelude.Result.{Result, ok, err}
use auto_scholar.Prelude.Sets.{contains}
pub mod Windows
pub mod Sections
pub mod Ordinals

-- Where a token stands in the text of its section: the match's `start()` and `end()`.
pub record Span : Type 0 where
  pub start : ℕ
  pub end : ℕ

-- What the code takes from the tables of Unicode and from regular expressions, and the identifier
-- that `uuid5` makes of a name.
pub record Characters : Type 0 where
  -- `_TOKEN_PATTERN.finditer(text)`.
  pub tokens : String → List Span
  pub strip : String → String
  pub splitlines : String → List String
  pub split : String → List String
  -- `text.rstrip(":.\uFF1A").casefold()`.
  pub bare : String → String
  -- `_NUMBERED_HEADING.match(text)`.
  pub is_numbered : String → Bool
  pub is_upper : String → Bool
  -- `any(char.isalpha() for char in text)`.
  pub has_letter : String → Bool
  pub uuid5 : String → ℕ → ℕ → String → String

pub data ChunkError : Type 0 where
  overlap_too_large : ChunkError

pub record Chunker : Type 0 where
  pub max_tokens : ℕ
  pub overlap_tokens : ℕ

unfoldable pub chunker : ℕ → ℕ → Result ChunkError Chunker
chunker max_tokens overlap_tokens =
    if leb max_tokens overlap_tokens
    then err overlap_too_large
    else ok (record { max_tokens = max_tokens; overlap_tokens = overlap_tokens })

pub record Section : Type 0 where
  pub name : Option String
  pub content : String

pub record ParsedPage : Type 0 where
  pub page : ℕ
  pub text : String

pub record ChunkRecord : Type 0 where
  pub id : String
  pub document_id : String
  pub project_id : String
  pub ordinal : ℕ
  pub page : ℕ
  pub section : Option String
  pub content : String
  pub token_count : ℕ
  pub created_at : ℕ

-- What the chunks of a section have in common.
pub record Place : Type 0 where
  pub document_id : String
  pub project_id : String
  pub page : ℕ
  pub section : Section
  pub now : ℕ

unfoldable pub last_end : Span → List Span → ℕ
last_end token [] = token.end
last_end token (next ∷ more) = last_end next more

-- What a turn of the loop over the windows does: `continue`, append and `break`, or append.
pub data Turn : Type 0 where
  skip : Turn
  final : ChunkRecord → Turn
  append : ChunkRecord → Turn

-- `len(range(0, tokens, step))`.
unfoldable pub range_length : ℕ → ℕ → ℕ
range_length tokens step = (tokens + step - 1) / step

abbrev pub known_headings : List String
known_headings =
    "abstract" ∷ "introduction" ∷ "background" ∷ "related work" ∷ "method" ∷ "methods"
    ∷ "methodology" ∷ "experiments" ∷ "results" ∷ "discussion" ∷ "limitations" ∷ "conclusion"
    ∷ "conclusions" ∷ "references" ∷ "摘要" ∷ "引言" ∷ "背景" ∷ "相关工作" ∷ "方法" ∷ "实验" ∷ "结果" ∷ "讨论" ∷ "局限性"
    ∷ "结论" ∷ "参考文献" ∷ []

module _ (chars : Characters) where
  open chars use {tokens, strip, splitlines, split, bare, is_numbered, is_upper, has_letter, uuid5}

  unfoldable pub is_heading : String → Bool
  is_heading line =
      let value = strip line in
      if is_empty_text value || ltb 120 (text_length value)
      then false
      else if contains known_headings (bare value) || is_numbered value
      then true
      else let words = length (split value) in
        leb 1 words && leb words 10 && is_upper value && has_letter value

  -- `_Section(current_name, "\n".join(body).strip())`.
  unfoldable pub close : Option String → List String → Section
  close name body = record { name = name; content = strip (join "\n" body) }

  -- The loop over the lines, with the name and the body of the section that is being read.
  unfoldable pub scan : Option String → List String → List String → List Section
  scan name body [] = if is_empty body then [] else close name body ∷ []
  scan name body (line ∷ rest) = elim (is_heading line) [
    | true ↦
        (if is_empty body then [] else close name body ∷ [])
        ++ scan (some (text_take 500 line)) [] rest
    | false ↦ scan name (body ++ line ∷ []) rest
  ]

  unfoldable pub sections : String → List Section
  sections text =
      let found = scan none [] (splitlines text) in
      let whole : Section = record { name = none; content = strip text } in
      keep_if (λ section. not (is_empty_text section.content))
        (if is_empty found && not (is_empty_text (strip text)) then whole ∷ [] else found)

  -- `section.content[window[0].start() : window[-1].end()].strip()`.
  unfoldable pub window_content : String → List Span → String
  window_content text [] = strip String.[]
  window_content text (token ∷ more) =
      strip (text_drop token.start (text_take (last_end token more) text))

  unfoldable pub chunk_record : Place → ℕ → List Span → ChunkRecord
  chunk_record at ordinal window =
      let content = window_content at.section.content window in
      record {
        id = uuid5 at.document_id at.page ordinal content;
        document_id = at.document_id;
        project_id = at.project_id;
        ordinal = ordinal;
        page = at.page;
        section = at.section.name;
        content = content;
        token_count = length window;
        created_at = at.now;
      }

  unfoldable pub turn : Chunker → Place → List Span → ℕ → ℕ → Turn
  turn c at spans start_index ordinal =
      let window = take c.max_tokens (drop start_index spans) in
      if is_empty window || is_empty_text (window_content at.section.content window)
      then skip
      else if leb (length spans) (start_index + c.max_tokens)
      then final (chunk_record at ordinal window)
      else append (chunk_record at ordinal window)

  -- `for start_index in range(0, len(spans), step)`, a turn for each index that the range has left.
  unfoldable pub window_loop : Chunker → Place → List Span → ℕ → ℕ → ℕ → List ChunkRecord
  window_loop c at spans zero start_index ordinal = []
  window_loop c at spans (suc turns) start_index ordinal =
      let next = start_index + (c.max_tokens - c.overlap_tokens) in
      elim (turn c at spans start_index ordinal) [
        | skip ↦ window_loop c at spans turns next ordinal
        | final chunk ↦ chunk ∷ []
        | append chunk ↦ chunk ∷ window_loop c at spans turns next (suc ordinal)
      ]

  unfoldable pub chunk_section : Chunker → Place → ℕ → List ChunkRecord
  chunk_section c at ordinal =
      let spans = tokens at.section.content in
      window_loop c at spans (range_length (length spans) (c.max_tokens - c.overlap_tokens)) 0
        ordinal

  unfoldable pub chunk_sections : Chunker → (Section → Place) → List Section → ℕ → List ChunkRecord
  chunk_sections c at [] ordinal = []
  chunk_sections c at (section ∷ rest) ordinal =
      let chunks = chunk_section c (at section) ordinal in
      chunks ++ chunk_sections c at rest (ordinal + length chunks)

  unfoldable pub chunk_pages :
      Chunker → String → String → ℕ → List ParsedPage → ℕ → List ChunkRecord
  chunk_pages c document_id project_id now [] ordinal = []
  chunk_pages c document_id project_id now (page ∷ rest) ordinal =
      let at : Section → Place = λ section. record {
        document_id = document_id;
        project_id = project_id;
        page = page.page;
        section = section;
        now = now;
      } in
      let chunks = chunk_sections c at (sections page.text) ordinal in
      chunks ++ chunk_pages c document_id project_id now rest (ordinal + length chunks)

  unfoldable pub chunk : Chunker → List ParsedPage → String → String → ℕ → List ChunkRecord
  chunk c pages document_id project_id now = chunk_pages c document_id project_id now pages 0
