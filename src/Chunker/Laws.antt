-- ===== src/Chunker/Laws.antt =====
-- Storing and reading back.
use open_crank.Prelude.{
  ltb, leb, Bool-cases, Bytes, str_eq_refl, length, take, drop, length-take, length-drop, ℕ, zero,
  suc, ◌+◌, ◌-◌, ◌*◌, ◌%◌, ◌≤◌, ◌<◌, min, ◌≡◌, refl, sym, ap, ◌∙◌, inl, inr, some, [], ◌∷◌, ◌++◌,
  arith,
}
use open_crank.Prelude.Maps.{str_key, lookup, lookup-insert}
use native.Mathlib.Nat.{div-add-mod, mod-lt}
use open_crank.Chunker.{
  ChunkedContent, ContentChunker, chunk_id, chunk_count, size_or_default, store, chunk_text,
}

-- The first chunks, one after the other.
abbrev pub chunks_upto : ChunkedContent → ℕ → Bytes
chunks_upto cc zero = []
chunks_upto cc (suc n) = chunks_upto cc n ++ chunk_text cc n

take_more : (m n : ℕ) (s : Bytes) → take m s ++ take n (drop m s) ≡ take (m + n) s
take_more zero n s = let e : 0 + n ≡ n = omega arith in rw e
take_more (suc m) n (c ∷ s) =
    let e : suc m + n ≡ suc (m + n) = omega arith in rw e (ap (◌∷◌ c) (take_more m n s))
take_more (suc m) zero [] = let e : suc m + 0 ≡ suc m = omega arith in rw e
take_more (suc m) (suc n) [] = let e : suc m + suc n ≡ suc (m + suc n) = omega arith in rw e

take_all : (n : ℕ) (s : Bytes) → length s ≤ n → take n s ≡ s
take_all zero [] h = refl
take_all zero (c ∷ s) h = absurd (omega arith)
take_all (suc n) [] h = refl
take_all (suc n) (c ∷ s) h = ap (◌∷◌ c) (take_all n s (omega arith))

take-min-length : (n : ℕ) (s : Bytes) → take (min n (length s)) s ≡ take n s
take-min-length n s = elim (Bool-cases (leb n (length s))) [
  | inl t ↦ let e : min n (length s) ≡ n = ground arith in rw e
  | inr f ↦
      let e : min n (length s) ≡ length s = ground arith in
      rw e (take_all (length s) s (omega arith) ∙ sym (take_all n s (ground arith)))
]

chunk_text-take :
    (cc : ChunkedContent) (i : ℕ)
    → chunk_text cc i ≡ take cc.chunk_size (drop (i * cc.chunk_size) cc.full_content)
unfolding chunk_text
chunk_text-take cc i =
    let rest = drop (i * cc.chunk_size) cc.full_content in
    let e : length cc.full_content - i * cc.chunk_size ≡ length rest =
      sym (length-drop (i * cc.chunk_size) cc.full_content) in
    rw e (take-min-length cc.chunk_size rest)

chunks_upto-take :
    (cc : ChunkedContent) (n : ℕ) → chunks_upto cc n ≡ take (n * cc.chunk_size) cc.full_content
chunks_upto-take cc zero = let e : 0 * cc.chunk_size ≡ 0 = omega arith in rw e
chunks_upto-take cc (suc n) =
    let e : suc n * cc.chunk_size ≡ n * cc.chunk_size + cc.chunk_size = omega arith in
    rw (e, chunks_upto-take cc n, chunk_text-take cc n)
      (take_more (n * cc.chunk_size) cc.chunk_size cc.full_content)

pub chunk_count_lem :
    (size chunk_size : ℕ)
    → 0 < chunk_size
    → (size ≤ chunk_count size chunk_size * chunk_size)
      × (chunk_count size chunk_size * chunk_size < size + chunk_size)
unfolding chunk_count
chunk_count_lem size chunk_size h =
    let n = size + chunk_size - 1 in
    let whole = div-add-mod n chunk_size in
    let rest : n % chunk_size < chunk_size = mod-lt n h in
    (omega (arith, whole, rest), omega (arith, whole, rest))

pub mul_below : (i n k : ℕ) → i < n → i * k + k ≤ n * k
mul_below i zero k h = absurd (omega arith)
mul_below i (suc n) k h = elim (Bool-cases (ltb i n)) [
  | inl t ↦ omega (arith, mul_below i n k (ground arith))
  | inr f ↦ let e : i ≡ n = ground arith in rw e (omega arith)
]

-- A chunk that there is has at least one byte, and no more than the chunk size.
length-chunk_text :
    (cc : ChunkedContent) (i : ℕ)
    → 0 < cc.chunk_size
    → cc.total_chunks ≡ chunk_count (length cc.full_content) cc.chunk_size
    → i < cc.total_chunks
    → (0 < length (chunk_text cc i)) × (length (chunk_text cc i) ≤ cc.chunk_size)
length-chunk_text cc i h e lt =
    let size = length cc.full_content in
    let count = chunk_count_lem size cc.chunk_size h in
    let below = mul_below i (chunk_count size cc.chunk_size) cc.chunk_size (rw e at lt) in
    let text = ap length (chunk_text-take cc i) in
    let cut = length-take cc.chunk_size (drop (i * cc.chunk_size) cc.full_content) in
    let left = length-drop (i * cc.chunk_size) cc.full_content in (omega arith, omega arith)

-- Whatever is stored, all its chunks put together are the content, and none of them is empty or
-- longer than the chunk size.
pub store_chunks :
    (c : ContentChunker) (content source : Bytes) (chunk_size : ℕ)
    → (cc : ChunkedContent) × (lookup
          (store c content source chunk_size).1
          (store c content source chunk_size).0.storage
        ≡ some cc)
      × (chunks_upto cc cc.total_chunks ≡ content)
      × ((i : ℕ)
          → i < cc.total_chunks
          → (0 < length (chunk_text cc i))
            × (length (chunk_text cc i) ≤ size_or_default chunk_size))
unfolding store
store_chunks c content source chunk_size =
    let size = size_or_default chunk_size in
    let id = chunk_id c.next_id in
    let cc : ChunkedContent = record {
      id = id;
      full_content = content;
      source = source;
      chunk_size = size;
      total_chunks = chunk_count (length content) size;
    } in
    let positive : 0 < size = ground arith in
    let count = chunk_count_lem (length content) size positive in
    (
      cc,
      rw (lookup-insert id id cc c.storage, str_eq_refl id),
      chunks_upto-take cc cc.total_chunks
          ∙ take_all (cc.total_chunks * size) content (omega (arith, count)),
      λ i lt. length-chunk_text cc i positive refl lt,
    )
