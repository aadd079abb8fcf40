-- ===== src/Chunker/Fresh.antt =====
-- The names that stored contents get, src/core/content_chunker.cpp.
use open_crank.Prelude.{
  Bool-cases, Bytes, str_eq, str_eq_iff, length, drop, ℕ, ◌<◌, ◌≡◌, sym, ap, ◌∙◌, ◌≢◌, inl, inr,
  true, List, [], ◌∷◌, arith,
}
use open_crank.Prelude.Maps.{
  str_key, lookup, contains, lookup-insert, contains-insert, contains-erase,
}
use open_crank.Text.Find.Laws.{to_string-inj}
use open_crank.Chunker.{
  ChunkedContent, ContentChunker, no_content, chunk_id, chunk_count, size_or_default, store, remove,
  clear,
}

-- Contents are numbered: each key is the name of a number that was given out.
pub IsNumbered : ContentChunker → Type 0
IsNumbered c =
    (id : Bytes) → contains id c.storage ≡ true → (k : ℕ) × (k < c.next_id) × (id ≡ chunk_id k)

chunk_id-inj : (m n : ℕ) → chunk_id m ≡ chunk_id n → m ≡ n
unfolding chunk_id
chunk_id-inj m n e = to_string-inj m n (ap (drop 6) e)

-- A call on the chunker that changes it.
pub data Call : Type 0 where
  stores : Bytes → Bytes → ℕ → Call
  removes : Bytes → Call
  clears : Call

unfoldable pub step : ContentChunker → Call → ContentChunker
step c (stores content source chunk_size) = (store c content source chunk_size).0
step c (removes id) = remove c id
step c clears = clear c

unfoldable pub run : ContentChunker → List Call → ContentChunker
unfolding step
run c [] = c
run c (x ∷ xs) = run (step c x) xs

store-IsNumbered :
    (c : ContentChunker) (content source : Bytes) (chunk_size : ℕ)
    → IsNumbered c
    → IsNumbered (store c content source chunk_size).0
unfolding store IsNumbered
store-IsNumbered c content source chunk_size h id e =
    let new = chunk_id c.next_id in
    let cc : ChunkedContent = record {
      id = new;
      full_content = content;
      source = source;
      chunk_size = size_or_default chunk_size;
      total_chunks = chunk_count (length content) (size_or_default chunk_size);
    } in
    elim (Bool-cases (str_eq new id)) [
      | inl t ↦ (c.next_id, omega arith, sym ((str_eq_iff new id).0 t))
      | inr f ↦
          let old : contains id c.storage ≡ true =
            sym (rw (contains-insert new id cc c.storage, f)) ∙ e in
          let (k, lt, same) = h id old in (k, omega arith, same)
    ]

step-IsNumbered : (c : ContentChunker) (x : Call) → IsNumbered c → IsNumbered (step c x)
unfolding step IsNumbered remove clear contains
step-IsNumbered c (stores content source chunk_size) h =
    store-IsNumbered c content source chunk_size h
step-IsNumbered c (removes id) h = λ j e. h j (ground (arith, contains-erase id j c.storage, e))
step-IsNumbered c clears h = λ j e. absurd (ground arith)

run-IsNumbered : (xs : List Call) (c : ContentChunker) → IsNumbered c → IsNumbered (run c xs)
unfolding run
run-IsNumbered [] c h = h
run-IsNumbered (x ∷ xs) c h = run-IsNumbered xs (step c x) (step-IsNumbered c x h)

no_content-IsNumbered : IsNumbered no_content
unfolding IsNumbered contains
no_content-IsNumbered id e = absurd (ground arith)

-- After any history of calls, what is stored next gets a name that no stored content has, so every
-- other content is found under its name as before.
pub store_fresh :
    (xs : List Call) (content source : Bytes) (chunk_size : ℕ) (id : Bytes)
    → contains id (run no_content xs).storage ≡ true
    → lookup id (store (run no_content xs) content source chunk_size).0.storage
      ≡ lookup id (run no_content xs).storage
unfolding store IsNumbered
store_fresh xs content source chunk_size id e =
    let c = run no_content xs in
    let cc : ChunkedContent = record {
      id = chunk_id c.next_id;
      full_content = content;
      source = source;
      chunk_size = size_or_default chunk_size;
      total_chunks = chunk_count (length content) (size_or_default chunk_size);
    } in
    let (k, lt, same) = run-IsNumbered xs no_content no_content-IsNumbered id e in
    let ne : chunk_id c.next_id ≢ id =
      λ z. absurd (omega (arith, chunk_id-inj c.next_id k (z ∙ same))) in
    ground (
      arith,
      lookup-insert (chunk_id c.next_id) id cc c.storage,
      str_eq_iff (chunk_id c.next_id) id,
      ne,
    )
