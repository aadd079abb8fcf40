-- ===== src/Chunker.antt =====
-- `ContentChunker` of src/core/content_chunker.cpp: large contents are stored whole and read in
-- chunks. An `int` that counts the contents is a number without bound.
pub mod Search
pub mod Laws
pub mod Fresh
use open_crank.Prelude.{
  ltb, leb, ◌==◌, if◌then◌else◌, Bytes, codes, length, ℕ, ◌+◌, ◌-◌, ◌*◌, ◌/◌, min, Bool, not, none,
  some, [], ◌++◌,
}
use open_crank.Prelude.Maps.{Map, Key, nat_key, str_key, lookup, contains, insert, erase}
use open_crank.Text.Find.{substr, to_string}
use open_crank.Text.Html.{strip_html_for_ai}

pub record ChunkedContent : Type 0 where
  pub id : Bytes
  pub full_content : Bytes
  pub source : Bytes
  pub chunk_size : ℕ
  pub total_chunks : ℕ

pub record ContentChunker : Type 0 where
  pub storage : Map Bytes ChunkedContent
  pub next_id : ℕ

abbrev pub no_content : ContentChunker
no_content = record { storage = []; next_id = 1 }

unfoldable pub chunk_id : ℕ → Bytes
chunk_id n = codes "chunk_" ++ to_string n

-- `total_chunks`: the size over the chunk size, rounded up.
unfoldable pub chunk_count : ℕ → ℕ → ℕ
chunk_count size chunk_size = (size + chunk_size - 1) / chunk_size

-- The size that `store` uses: zero stands for the default.
abbrev pub size_or_default : ℕ → ℕ
size_or_default chunk_size = if chunk_size == 0 then 8000 else chunk_size

unfoldable pub store : ContentChunker → Bytes → Bytes → ℕ → ContentChunker × Bytes
unfolding chunk_id chunk_count
store c content source chunk_size =
    let size = size_or_default chunk_size in
    let id = chunk_id c.next_id in
    let cc : ChunkedContent = record {
      id = id;
      full_content = content;
      source = source;
      chunk_size = size;
      total_chunks = chunk_count (length content) size;
    } in
    (record { storage = insert id cc c.storage; next_id = c.next_id + 1 }, id)

-- The `substr` of a chunk.
unfoldable pub chunk_text : ChunkedContent → ℕ → Bytes
chunk_text cc chunk_index =
    let start = chunk_index * cc.chunk_size in
    substr cc.full_content start (min cc.chunk_size (length cc.full_content - start))

-- The text of a chunk between its heading and the hint for the next one.
unfoldable pub chunk_page : ChunkedContent → Bytes → ℕ → Bool → Bytes
unfolding chunk_text
chunk_page cc id chunk_index clean_html =
    codes "[Chunk "
    ++ to_string (chunk_index + 1)
    ++ codes "/"
    ++ to_string cc.total_chunks
    ++ codes " from "
    ++ cc.source
    ++ (if clean_html then codes " (HTML cleaned)" else [])
    ++ codes "]\n"
    ++ (if clean_html
        then strip_html_for_ai (chunk_text cc chunk_index)
        else chunk_text cc chunk_index)
    ++ (if ltb (chunk_index + 1) cc.total_chunks
        then codes "\n\n[Use content_chunk tool with id=\""
          ++ id
          ++ codes "\" and chunk="
          ++ to_string (chunk_index + 1)
          ++ codes " for next chunk]"
        else codes "\n\n[End of content]")

-- An error is a text too.
unfoldable pub get_chunk : ContentChunker → Bytes → ℕ → Bool → Bytes
unfolding chunk_page
get_chunk c id chunk_index clean_html = elim (lookup id c.storage) [
  | none ↦ codes "Error: Content ID '" ++ id ++ codes "' not found."
  | some cc ↦
      if leb cc.total_chunks chunk_index
      then codes "Error: Chunk index "
        ++ to_string chunk_index
        ++ codes " out of range. Total chunks: "
        ++ to_string cc.total_chunks
      else chunk_page cc id chunk_index clean_html
]

unfoldable pub get_info : ContentChunker → Bytes → Bytes
get_info c id = elim (lookup id c.storage) [
  | none ↦ codes "Content ID '" ++ id ++ codes "' not found."
  | some cc ↦
      codes "Content ID: "
      ++ cc.id
      ++ codes "\nSource: "
      ++ cc.source
      ++ codes "\nTotal size: "
      ++ to_string (length cc.full_content)
      ++ codes " characters\nTotal chunks: "
      ++ to_string cc.total_chunks
      ++ codes " (each ~"
      ++ to_string cc.chunk_size
      ++ codes " chars)\n"
]

unfoldable pub has_content : ContentChunker → Bytes → Bool
has_content c id = contains id c.storage

unfoldable pub clear : ContentChunker → ContentChunker
clear c = record c { storage = [] }

unfoldable pub remove : ContentChunker → Bytes → ContentChunker
remove c id = record c { storage = erase id c.storage }

unfoldable pub get_total_chunks : ContentChunker → Bytes → ℕ
get_total_chunks c id = elim (lookup id c.storage) [ none ↦ 0 | some cc ↦ cc.total_chunks ]
