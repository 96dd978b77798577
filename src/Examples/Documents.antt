-- ===== src/Examples/Documents.antt =====
-- The theorems on rag/chunking.py at a small document, with a table of characters for it.
use Prim.Native.Char.{code}
use auto_scholar.Prelude.{
  ℕ, zero, suc, String, true, false, none, List, [], ◌∷◌, ◌≡◌, refl, ◌==◌, if◌then◌else◌, arith,
}
use auto_scholar.Prelude.Text.{text_append}
use auto_scholar.Prelude.Result.{ok}
use auto_scholar.Rag.Chunking.{
  Characters, Chunker, Span, Place, ParsedPage, chunker, chunk, chunk_section, window_content,
  last_end,
}
use auto_scholar.Rag.Chunking.Windows.{
  chunk_section_windows, records, stitch, Linked, Filled, AreTokens,
}
use auto_scholar.Rag.Chunking.Ordinals.{chunk-AreNumbered, AreNumbered}

-- Each character is a token.
abbrev each_character : ℕ → String → List Span
each_character n String.[] = []
each_character n (String.◌∷◌ c s) = record { start = n; end = suc n } ∷ each_character (suc n) s

-- The lines of a text, the first one continuing `line`.
abbrev lines_after : String → String → List String
lines_after line String.[] = line ∷ []
lines_after line (String.◌∷◌ c s) =
    if code c == 10
    then line ∷ lines_after String.[] s
    else lines_after (text_append line (String.◌∷◌ c String.[])) s

abbrev characters : Characters
characters = record {
  tokens = each_character 0;
  strip = λ text. text;
  splitlines = lines_after "";
  split = λ text. text ∷ [];
  bare = λ text. text;
  is_numbered = λ text. false;
  is_upper = λ text. false;
  has_letter = λ text. true;
  uuid5 = λ document page ordinal content. content;
}

abbrev small_chunker : Chunker
small_chunker = record { max_tokens = 3; overlap_tokens = 1 }

chunker_accepts : chunker 3 1 ≡ ok small_chunker
unfolding chunker
chunker_accepts = refl

abbrev letters : Place
letters = record {
  document_id = "d";
  project_id = "p";
  page = 1;
  section = record { name = none; content = "abcd" };
  now = 0;
}

letters_tokens : AreTokens characters small_chunker "abcd" (each_character 0 "abcd")
unfolding window_content last_end
letters_tokens zero h = refl
letters_tokens (suc zero) h = refl
letters_tokens (suc (suc zero)) h = refl
letters_tokens (suc (suc (suc zero))) h = refl
letters_tokens (suc (suc (suc (suc n)))) h = absurd (omega arith)

chunk_section_windows_example :
    (ws : List (List Span)) × (chunk_section characters small_chunker letters 0
      ≡ records characters letters 0 ws)
    × (stitch 1 ws ≡ each_character 0 "abcd")
    × Linked 1 ws
    × Filled 3 ws
chunk_section_windows_example =
    chunk_section_windows characters 3 1 chunker_accepts letters 0 letters_tokens

abbrev pages : List ParsedPage
pages = record { page = 1; text = "abcd" } ∷ record { page = 2; text = "methods\nxyz" } ∷ []

chunk-AreNumbered_example :
    AreNumbered small_chunker "d" "p" 0 (chunk characters small_chunker pages "d" "p" 0)
chunk-AreNumbered_example = chunk-AreNumbered characters small_chunker pages "d" "p" 0
