-- ===== src/Rag/Chunking/Sections.antt =====
-- How rag/chunking.py divides the lines of a page among its sections.
use auto_scholar.Prelude.{
  String, Bool, true, not, Option, none, some, List, [], ◌∷◌, ◌++◌, ◌≡◌, if◌then◌else◌, is_empty,
  all,
}
use auto_scholar.Prelude.Text.{is_empty_text, text_take}
use auto_scholar.Rag.Chunking.{Characters, Section, is_heading, close}

-- A heading with the lines up to the next, or the lines before the first heading.
abbrev pub Group : Type 0
Group = Option String × List String

abbrev pub heading_lines : Option String → List String
heading_lines none = []
heading_lines (some line) = line ∷ []

-- The lines of the page that the groups hold, in order.
abbrev pub lines_of : List Group → List String
lines_of [] = []
lines_of ((heading, body) ∷ groups) = (heading_lines heading ++ body) ++ lines_of groups

abbrev pub name_of : Option String → Option String
name_of none = none
name_of (some line) = some (text_take 500 line)

abbrev pub has_content : Section → Bool
has_content section = not (is_empty_text section.content)

module _ (chars : Characters) where
  abbrev pub IsBody : List String → Type 0
  IsBody body = all (λ line. not (is_heading chars line)) body ≡ true

  abbrev pub HasHeading : Option String → Type 0
  HasHeading none = Unit
  HasHeading (some line) = is_heading chars line ≡ true

  -- A line heads a group exactly if it is a heading.
  abbrev pub AreGroups : List Group → Type 0
  AreGroups [] = Unit
  AreGroups ((heading, body) ∷ groups) = HasHeading heading × IsBody body × AreGroups groups

  -- Every group has a heading.
  abbrev AreHeaded : List Group → Type 0
  AreHeaded [] = Unit
  AreHeaded ((none, body) ∷ groups) = ⊥
  AreHeaded ((some line, body) ∷ groups) = AreHeaded groups

  -- The first group has the heading that is given, all others have one of their own.
  abbrev pub StartsWith : Option String → List Group → Type 0
  StartsWith heading [] = ⊥
  StartsWith heading ((first, body) ∷ groups) = (first ≡ heading) × AreHeaded groups

  -- A section for each group that has a line under its heading.
  abbrev pub sections_of : List Group → List Section
  sections_of [] = []
  sections_of ((heading, body) ∷ groups) =
      (if is_empty body then [] else close chars (name_of heading) body ∷ []) ++ sections_of groups
