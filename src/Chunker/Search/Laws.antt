-- ===== src/Chunker/Search/Laws.antt =====
-- What the searches of src/core/content_chunker.cpp report.
use open_crank.Prelude.{
  ltb, ltb→lt, Bool-cases, Option-cases, Bytes, str_eq_refl, length, drop, length-drop, drop-drop,
  All, ℕ, zero, suc, ◌+◌, ◌/◌, ◌≤◌, ◌<◌, ◌≡◌, refl, ap, inl, inr, true, false, some, [], ◌∷◌, arith,
}
use open_crank.Prelude.Maps.{str_key, lookup, lookup-insert}
use native.Mathlib.Nat.{div-add-mod}
use open_crank.Text.Trim.{to_lower, starts_with}
use open_crank.Text.Find.{find, find_from_index}
use open_crank.Text.Find.Laws.{find-IsFirst}
use open_crank.Chunker.{
  ChunkedContent, ContentChunker, chunk_id, chunk_count, size_or_default, store,
}
use open_crank.Chunker.Search.{Match, plain_matches, max_matches, find_matches, Regex}
use open_crank.Chunker.Laws.{chunk_count_lem, mul_below}

-- A match is where it says: in bounds, in a chunk that there is, and the content, in lower case, has
-- the query there.
pub record IsMatch (cc : ChunkedContent) (query : Bytes) (m : Match) : Type 0 where
  pub found : starts_with (drop m.position (to_lower cc.full_content)) (to_lower query) ≡ true
  pub in_bounds : m.position + length query ≤ length cc.full_content
  pub in_chunk : m.chunk_index < cc.total_chunks

length-to_lower : (s : Bytes) → length (to_lower s) ≡ length s
unfolding to_lower
length-to_lower [] = refl
length-to_lower (c ∷ s) = ap suc (length-to_lower s)

in_chunk_lem :
    (position size chunk_size : ℕ)
    → 0 < chunk_size
    → position < size
    → position / chunk_size < chunk_count size chunk_size
in_chunk_lem position size chunk_size h lt =
    let q = position / chunk_size in
    let n = chunk_count size chunk_size in
    let count = chunk_count_lem size chunk_size h in
    let whole = div-add-mod position chunk_size in
    elim (Bool-cases (ltb q n)) [
      | inl t ↦ ltb→lt q n t
      | inr f ↦
          let below = mul_below n (suc q) chunk_size (ground arith) in
          absurd (omega (arith, below, count, whole))
    ]

-- An occurrence found from `pos` on.
found-IsMatch :
    (pos i : ℕ) (cc : ChunkedContent) (query : Bytes)
    → 0 < cc.chunk_size
    → 0 < length query
    → cc.total_chunks ≡ chunk_count (length cc.full_content) cc.chunk_size
    → find (to_lower query) (drop pos (to_lower cc.full_content)) ≡ some i
    → IsMatch cc query (record {
      position = pos + i;
      length_of = length (to_lower query);
      chunk_index = (pos + i) / cc.chunk_size;
    })
found-IsMatch pos i cc query hs hq e n =
    let lowered = to_lower cc.full_content in
    let hit = find-IsFirst (to_lower query) (drop pos lowered) i n in
    let size = length-to_lower cc.full_content in
    let inside : pos + i + length query ≤ length cc.full_content =
      omega (arith, hit.fits, length-to_lower query, length-drop pos lowered, size) in
    record {
      found = rw (← drop-drop i pos lowered) hit.here;
      in_bounds = inside;
      in_chunk =
          rw e (in_chunk_lem (pos + i) (length cc.full_content) cc.chunk_size hs (omega arith));
    }

plain_matches-IsMatch :
    (left pos : ℕ) (cc : ChunkedContent) (query : Bytes)
    → 0 < cc.chunk_size
    → 0 < length query
    → cc.total_chunks ≡ chunk_count (length cc.full_content) cc.chunk_size
    → All
        (IsMatch cc query)
        (plain_matches left cc.chunk_size (to_lower cc.full_content) (to_lower query) pos)
unfolding plain_matches find_from_index
plain_matches-IsMatch zero pos cc query hs hq e = tt
plain_matches-IsMatch (suc left) pos cc query hs hq e =
    elim (Option-cases (find (to_lower query) (drop pos (to_lower cc.full_content)))) [
      | inl n ↦ rw (n, plain_matches) tt
      | inr (i, n) ↦
          rw (n, plain_matches)
            (found-IsMatch pos i cc query hs hq e n, plain_matches-IsMatch left _ cc query hs hq e)
    ]

-- With a query that is not empty, every match that a plain search of stored content reports is in
-- bounds and in a chunk that there is, and the content has the query there, in lower case.
pub find_matches-IsMatch :
    (regex : Regex) (c : ContentChunker) (content source query : Bytes) (chunk_size : ℕ)
    → 0 < length query
    → (cc : ChunkedContent) × (lookup
          (store c content source chunk_size).1
          (store c content source chunk_size).0.storage
        ≡ some cc)
      × (cc.full_content ≡ content)
      × All (IsMatch cc query) (find_matches regex cc.full_content query cc.chunk_size false)
unfolding store find_matches
find_matches-IsMatch regex c content source query chunk_size h =
    let id = chunk_id c.next_id in
    let cc : ChunkedContent = record {
      id = id;
      full_content = content;
      source = source;
      chunk_size = size_or_default chunk_size;
      total_chunks = chunk_count (length content) (size_or_default chunk_size);
    } in
    (
      cc,
      rw (lookup-insert id id cc c.storage, str_eq_refl id),
      refl,
      plain_matches-IsMatch max_matches 0 cc query (ground arith) h refl,
    )
