-- ===== src/Chunker/Search.antt =====
-- The searches of src/core/content_chunker.cpp. `std::regex` is a parameter.
pub mod Laws
use open_crank.Prelude.{
  ltb, ◌==◌, if◌then◌else◌, Bytes, codes, length, take, is_empty, ℕ, zero, suc, ◌+◌, ◌-◌, ◌/◌, min,
  Bool, true, false, Option, none, some, List, [], ◌∷◌, ◌++◌, map,
}
use open_crank.Prelude.Maps.{Map, nat_key, str_key, lookup, insert}
use open_crank.Text.Trim.{to_lower}
use open_crank.Text.Find.{find_from_index, substr, to_string}
use open_crank.Chunker.{ChunkedContent, ContentChunker}

pub record Match : Type 0 where
  pub position : ℕ
  pub length_of : ℕ
  pub chunk_index : ℕ

-- The loop of `find` on the lower-case texts, for so many matches at most.
unfoldable pub plain_matches : ℕ → ℕ → Bytes → Bytes → ℕ → List Match
plain_matches zero chunk_size content query pos = []
plain_matches (suc left) chunk_size content query pos = elim (find_from_index query content pos) [
  | none ↦ []
  | some i ↦
      record { position = i; length_of = length query; chunk_index = i / chunk_size }
      ∷ plain_matches left chunk_size content query (i + length query)
]

abbrev pub max_matches : ℕ
max_matches = 20

-- `chunks_to_positions[chunk].push_back(position)` for each match.
unfoldable pub group_matches : Map ℕ (List ℕ) → List Match → Map ℕ (List ℕ)
group_matches groups [] = groups
group_matches groups (m ∷ rest) =
    let before : List ℕ = elim (lookup m.chunk_index groups) [ none ↦ [] | some ps ↦ ps ] in
    group_matches (insert m.chunk_index (before ++ m.position ∷ []) groups) rest

-- The length of the first match at a position.
unfoldable pub length_at : List Match → ℕ → ℕ → ℕ
length_at [] position default = default
length_at (m ∷ rest) position default =
    if m.position == position then m.length_of else length_at rest position default

-- The text around a match, with dots where it is cut.
unfoldable pub preview : Bytes → ℕ → ℕ → ℕ → Bytes
preview content context_chars position match_len =
    let start = position - context_chars in
    let end = min (position + match_len + context_chars) (length content) in
    (if ltb 0 start then codes "..." else [])
    ++ substr content start (end - start)
    ++ (if ltb end (length content) then codes "..." else [])

unfoldable pub previews : Bytes → ℕ → List Match → ℕ → List ℕ → Bytes
previews content context_chars matches default [] = []
previews content context_chars matches default (p ∷ ps) =
    codes "Match preview:\n"
    ++ preview content context_chars p (length_at matches p default)
    ++ codes "\n\n"
    ++ previews content context_chars matches default ps

abbrev pub load_hint : Bytes → ℕ → Bytes
load_hint id chunk_idx =
    codes "{\"tool\": \"content_chunk\", \"arguments\": {\"id\": \""
    ++ id
    ++ codes "\", \"chunk\": "
    ++ to_string chunk_idx
    ++ codes "}}\n"

-- The loop over the chunks of one content.
unfoldable pub show_groups : ChunkedContent → Bytes → ℕ → ℕ → List Match → Map ℕ (List ℕ) → Bytes
show_groups cc id context_chars default matches [] = []
show_groups cc id context_chars default matches ((chunk_idx, positions) ∷ rest) =
    let preview_count = min 2 (length positions) in
    codes "=== Chunk "
    ++ to_string chunk_idx
    ++ codes " ("
    ++ to_string (length positions)
    ++ codes " match(es)) ===\nTo load this chunk, use: "
    ++ load_hint id chunk_idx
    ++ codes "\n"
    ++ previews cc.full_content context_chars matches default (take preview_count positions)
    ++ (if ltb preview_count (length positions)
        then codes "("
          ++ to_string (length positions - preview_count)
          ++ codes " more match(es) in this chunk)\n\n"
        else [])
    ++ show_groups cc id context_chars default matches rest

-- The chunks that `search_all_chunks` shows of a content, so many at most.
unfoldable pub show_some_groups :
    ℕ → ChunkedContent → Bytes → ℕ → ℕ → List Match → Map ℕ (List ℕ) → Bytes
show_some_groups zero cc id context_chars default matches groups = []
show_some_groups (suc left) cc id context_chars default matches [] = []
show_some_groups (suc left) cc id context_chars default matches ((chunk_idx, positions) ∷ rest) =
    codes "  Chunk "
    ++ to_string chunk_idx
    ++ codes " ("
    ++ to_string (length positions)
    ++ codes " match(es))\n  Load with: "
    ++ load_hint id chunk_idx
    ++ (elim positions [
      | [] ↦ []
      | p ∷ ps ↦
          codes "  Preview: "
          ++ preview cc.full_content context_chars p (length_at matches p default)
          ++ codes "\n\n"
    ])
    ++ show_some_groups left cc id context_chars default matches rest

-- `std::regex`, ignoring case: what is wrong with a pattern, if anything, and the matches of a
-- pattern in a text up to the point where the matching throws, each with its position and length.
pub record Regex : Type 0 where
  pub error_of : Bytes → Option Bytes
  pub matches_of : Bytes → Bytes → List (ℕ × ℕ)

abbrev at_chunk : ℕ → ℕ × ℕ → Match
at_chunk chunk_size (p, n) = record { position = p; length_of = n; chunk_index = p / chunk_size }

module _ (regex : Regex) where
  unfoldable pub find_matches : Bytes → Bytes → ℕ → Bool → List Match
  unfolding plain_matches
  find_matches content query chunk_size true = elim (regex.error_of query) [
    | some e ↦ []
    | none ↦ map (at_chunk chunk_size) (take max_matches (regex.matches_of query content))
  ]
  find_matches content query chunk_size false =
      plain_matches max_matches chunk_size (to_lower content) (to_lower query) 0

  -- The report of `search_with_chunks` on matches that there are.
  unfoldable pub search_report : ChunkedContent → Bytes → Bytes → ℕ → Bool → List Match → Bytes
  unfolding show_groups
  search_report cc id query context_chars use_regex matches =
      let groups = group_matches [] matches in
      codes "Found "
      ++ to_string (length matches)
      ++ codes " match(es) for '"
      ++ query
      ++ codes "'"
      ++ (if use_regex then codes " (regex)" else [])
      ++ codes " in "
      ++ to_string (length groups)
      ++ codes " chunk(s):\n\n"
      ++ show_groups cc id context_chars (length query) matches groups

  -- The regular expression is read once more to tell a bad pattern from one without a match.
  unfoldable pub no_match_report : ChunkedContent → Bytes → Bool → Bytes
  no_match_report cc query use_regex =
      let nothing =
        codes "No matches found for '"
        ++ query
        ++ codes "' in content."
        ++ (if use_regex then codes " (regex mode)" else []) in
      elim use_regex [
        | false ↦ nothing
        | true ↦ elim (regex.error_of query) [
          | some e ↦ codes "Invalid regex pattern: " ++ query ++ codes "\nError: " ++ e
          | none ↦ nothing
        ]
      ]

  unfoldable pub search_with_chunks : ContentChunker → Bytes → Bytes → ℕ → Bool → Bytes
  unfolding find_matches search_report no_match_report
  search_with_chunks c id query context_chars use_regex = elim (lookup id c.storage) [
    | none ↦ codes "Content ID '" ++ id ++ codes "' not found."
    | some cc ↦
        let matches = find_matches cc.full_content query cc.chunk_size use_regex in
        if is_empty matches
        then no_match_report cc query use_regex
        else search_report cc id query context_chars use_regex matches
  ]

  -- The report on one content of `search_all_chunks`.
  unfoldable pub content_report : ChunkedContent → Bytes → Bytes → ℕ → List Match → Bytes
  unfolding show_some_groups
  content_report cc id query context_chars matches =
      let groups = group_matches [] matches in
      codes "## Content ID: "
      ++ id
      ++ codes " ("
      ++ cc.source
      ++ codes ")\nFound "
      ++ to_string (length matches)
      ++ codes " match(es) in "
      ++ to_string (length groups)
      ++ codes " chunk(s)\n\n"
      ++ show_some_groups 3 cc id context_chars (length query) matches groups
      ++ (if ltb 3 (length groups)
          then codes "  ("
            ++ to_string (length groups - 3)
            ++ codes " more chunk(s) with matches in this content)\n\n"
          else [])

  -- The loop over the contents: the text so far, the number of matches and that of contents with any.
  unfoldable pub search_contents :
      Map Bytes ChunkedContent → Bytes → ℕ → Bool → Bytes × (ℕ × ℕ) → Bytes × (ℕ × ℕ)
  unfolding find_matches content_report
  search_contents [] query context_chars use_regex found = found
  search_contents ((id, cc) ∷ rest) query context_chars use_regex (text, (total, contents)) =
      let matches = find_matches cc.full_content query cc.chunk_size use_regex in
      search_contents rest query context_chars use_regex (
        if is_empty matches then (text, (total, contents)) else (
          text ++ content_report cc id query context_chars matches,
          (total + length matches, contents + 1),
        ))

  unfoldable pub search_all_chunks : ContentChunker → Bytes → ℕ → Bool → Bytes
  unfolding search_contents
  search_all_chunks c query context_chars use_regex =
      let opening =
        codes "Searching across "
        ++ to_string (length c.storage)
        ++ codes " stored content(s)"
        ++ (if use_regex then codes " (regex mode)" else [])
        ++ codes ":\n\n" in
      let (text, (total, contents)) =
        search_contents c.storage query context_chars use_regex (opening, (0, 0)) in
      if is_empty c.storage
      then codes "No content is currently stored. All chunks have expired or been cleared."
      else if contents == 0
      then codes "No matches found for '"
        ++ query
        ++ codes "' in any stored content."
        ++ (if use_regex then codes " (regex mode)" else [])
      else text
        ++ codes "\n=== Summary ===\nTotal: "
        ++ to_string total
        ++ codes " match(es) found across "
        ++ to_string contents
        ++ codes " content(s)"
