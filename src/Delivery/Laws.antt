-- ===== src/Delivery/Laws.antt =====
-- What splitting a message keeps, and how long the pieces are.
use open_crank.Prelude.{
  leb, ◌==◌, Bool-cases, Option-cases, Bytes, length, take, drop, is_empty, keep, length-take,
  length-drop, take-append-drop, All, ℕ, zero, suc, ◌+◌, ◌≤◌, ◌<◌, ◌≡◌, refl, sym, ap, subst, ◌∙◌,
  inl, inr, false, not, none, some, List, [], ◌∷◌, ◌++◌, append-nil, arith,
}
use open_crank.Text.Utf8.{truncate_safe}
use open_crank.Text.Utf8.Laws.{truncate_safe_lem}
use open_crank.Text.Find.{rfind}
use open_crank.Delivery.{skip_newlines, next_piece, split_loop, split_message_chunks}

-- The bytes that are no newlines.
pub solid : Bytes → Bytes
solid s = keep (λ c. not (c == b'\n')) s

solid-append : (s t : Bytes) → solid (s ++ t) ≡ solid s ++ solid t
unfolding solid
solid-append [] t = refl
solid-append (c ∷ s) t = ground (arith, solid-append s t)

solid-skip_newlines : (s : Bytes) → solid (skip_newlines s) ≡ solid s
unfolding solid skip_newlines
solid-skip_newlines [] = refl
solid-skip_newlines (c ∷ s) = ground (arith, solid-skip_newlines s)

length-skip_newlines : (s : Bytes) → length (skip_newlines s) ≤ length s
unfolding skip_newlines
length-skip_newlines [] = omega arith
length-skip_newlines (c ∷ s) = ground (arith, length-skip_newlines s)

pub join : List Bytes → Bytes
join [] = []
join (chunk ∷ chunks) = chunk ++ join chunks

-- The bytes at the split are a newline or kept.
solid_cut : (n : ℕ) (s : Bytes) → solid (take n s) ++ solid (drop n s) ≡ solid s
solid_cut n s = sym (solid-append (take n s) (drop n s)) ∙ ap solid (take-append-drop n s)

rfind_newline :
    (n j : ℕ) (s : Bytes)
    → rfind b'\n' (take n s) ≡ some j
    → (solid (drop (j + 1) s) ≡ solid (drop j s)) × (j < n) × (j < length s)
unfolding rfind solid
rfind_newline zero j s h = ground (arith)
rfind_newline (suc n) j [] h = ground (arith)
rfind_newline (suc n) j (c ∷ s) h = elim (Option-cases (rfind b'\n' (take n s))) [
  | inr (i, e) ↦
      let is_j : suc i ≡ j =
        let h' : some (suc i) ≡ some j = rw (rfind, e) at h in ground (arith) in
      let (kept, under, short) = rfind_newline n i s e in
      let one_more : suc i + 1 ≡ suc (i + 1) = omega arith in
      subst
        (λ j.
          (solid (drop (j + 1) (c ∷ s)) ≡ solid (drop j (c ∷ s)))
          × (j < suc n)
          × (j < length (c ∷ s)))
        is_j (rw one_more kept, omega arith, omega arith)
  | inl e ↦ elim (Bool-cases (c == b'\n')) [
    | inr f ↦ let h' : none ≡ some j = rw (rfind, e, f) at h in ground (arith)
    | inl t ↦
        let is_j : 0 ≡ j = let h' : some 0 ≡ some j = rw (rfind, e, t) at h in ground (arith) in
        subst
          (λ j.
            (solid (drop (j + 1) (c ∷ s)) ≡ solid (drop j (c ∷ s)))
            × (j < suc n)
            × (j < length (c ∷ s)))
          is_j (rw t refl, omega arith, omega arith)
  ]
]

slice_whole : (n : ℕ) (s : Bytes) → truncate_safe (take n s) n ≡ take n s
slice_whole n s = (truncate_safe_lem (take n s) n).0 (omega (arith, length-take n s))

-- A text that is split loses nothing but newlines.
Keeps : ℕ → Bytes → List Bytes → Type 0
Keeps max_len s chunks = (solid (join chunks) ≡ solid s) × All (λ c. length c ≤ max_len) chunks

Keeps-step :
    (max_len n : ℕ) (s rest : Bytes) (chunks : List Bytes)
    → n ≤ max_len
    → solid rest ≡ solid (drop n s)
    → Keeps max_len rest chunks
    → Keeps max_len s (take n s ∷ chunks)
unfolding Keeps join
Keeps-step max_len n s rest chunks le same (kept, short) = (
  solid-append (take n s) (join chunks)
      ∙ ap (◌++◌ (solid (take n s))) (kept ∙ same)
      ∙ solid_cut n s,
  (omega (arith, length-take n s), short),
)

-- A piece is a front of the text, neither empty nor over the limit; at most a newline is lost.
IsPiece : ℕ → Bytes → Bytes × Bytes → Type 0
IsPiece max_len s p =
    (n : ℕ) × (p.0 ≡ take n s)
    × (1 ≤ n)
    × (n ≤ max_len)
    × (solid p.1 ≡ solid (drop n s))
    × (length p.1 < length s)

newline-IsPiece :
    (max_len j : ℕ) (s : Bytes)
    → rfind b'\n' (take (suc max_len) s) ≡ some (suc j)
    → IsPiece max_len s (take (suc j) s, drop (suc j + 1) s)
unfolding IsPiece
newline-IsPiece max_len j s e =
    let (kept, under, short) = rfind_newline (suc max_len) (suc j) s e in
    (suc j, refl, omega arith, omega arith, kept, omega (arith, short, length-drop (suc j + 1) s))

slice-IsPiece :
    (max_len : ℕ) (s : Bytes)
    → 1 ≤ max_len
    → max_len < length s
    → let slice = truncate_safe (take max_len s) max_len in
      IsPiece max_len s (slice, drop (length slice) s)
unfolding IsPiece
slice-IsPiece max_len s pos long =
    let whole = slice_whole max_len s in
    let size : length (truncate_safe (take max_len s) max_len) ≡ max_len =
      ap (λ t. length t) whole ∙ omega (arith, length-take max_len s) in
    (
      max_len,
      whole,
      pos,
      omega arith,
      ap (λ n. solid (drop n s)) size,
      omega (arith, size, length-drop (length (truncate_safe (take max_len s) max_len)) s),
    )

next_piece-IsPiece :
    (max_len : ℕ) (s : Bytes)
    → 1 ≤ max_len
    → max_len < length s
    → IsPiece max_len s (next_piece max_len s)
unfolding next_piece
next_piece-IsPiece max_len s pos long = elim (Option-cases (rfind b'\n' (take (suc max_len) s))) [
  | inl e ↦ rw (next_piece, e) (slice-IsPiece max_len s pos long)
  | inr (zero, e) ↦ rw (next_piece, e) (slice-IsPiece max_len s pos long)
  | inr (suc j, e) ↦ rw (next_piece, e) (newline-IsPiece max_len j s e)
]

take_full : (n c : ℕ) (s : Bytes) → 1 ≤ n → is_empty (take n (c ∷ s)) ≡ false
take_full zero c s from = ground (arith)
take_full (suc n) c s from = refl

split_loop-Keeps :
    (max_len fuel : ℕ) (s : Bytes)
    → 1 ≤ max_len
    → length s ≤ fuel
    → Keeps max_len s (split_loop max_len fuel s)
unfolding split_loop Keeps IsPiece join
split_loop-Keeps max_len zero [] pos le = (refl, _)
split_loop-Keeps max_len zero (c ∷ s) pos le = ground (arith)
split_loop-Keeps max_len (suc fuel) [] pos le = (refl, _)
split_loop-Keeps max_len (suc fuel) (c ∷ s) pos le =
    elim (Bool-cases (leb (length (c ∷ s)) max_len)) [
      | inl t ↦ rw (split_loop, t) (ap solid (append-nil (c ∷ s)), (ground (arith), _))
      | inr f ↦
          let (n, piece, from, to, same, shorter) =
            next_piece-IsPiece max_len (c ∷ s) pos (ground (arith)) in
          let ih =
            split_loop-Keeps max_len fuel (skip_newlines (next_piece max_len (c ∷ s)).1) pos
              (omega (arith, shorter, length-skip_newlines (next_piece max_len (c ∷ s)).1)) in
          let full : is_empty (next_piece max_len (c ∷ s)).0 ≡ false =
            rw piece (take_full n c s from) in
          rw (split_loop, f, full, piece)
            (Keeps-step max_len n (c ∷ s) _ _ to (solid-skip_newlines _ ∙ same) ih)
    ]

-- With a limit of at least one byte, no piece of a message is longer than the limit, and put together
-- the pieces have all bytes of the message in order but for newlines.
pub split_message_chunks_lem :
    (text : Bytes) (max_len : ℕ)
    → 1 ≤ max_len
    → (solid (join (split_message_chunks text max_len)) ≡ solid text)
      × All (λ c. length c ≤ max_len) (split_message_chunks text max_len)
unfolding split_message_chunks Keeps join
split_message_chunks_lem text max_len pos = elim (Bool-cases (leb (length text) max_len)) [
  | inl t ↦ rw (split_message_chunks, t) (ap solid (append-nil text), (ground (arith), _))
  | inr f ↦
      rw (split_message_chunks, f) (split_loop-Keeps max_len (length text) text pos (omega arith))
]
