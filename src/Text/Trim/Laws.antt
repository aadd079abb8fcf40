-- ===== src/Text/Trim/Laws.antt =====
-- What `trim`, `to_lower` and `starts_with` return.
use open_crank.Prelude.{
  if◌then◌else◌, Bool-cases, Bytes, All, ℕ, ◌≡◌, refl, sym, ap, ap₂, subst, ◌∙◌, inl, inr, true,
  false, [], ◌∷◌, ◌++◌, append_assoc, arith,
}
use open_crank.Text.Trim.{is_blank, ltrim, rtrim, trim, lower, to_lower, starts_with}

abbrev pub IsBlank : ℕ → Type 0
IsBlank c = is_blank c ≡ true

-- The first byte, if there is one, is not blank.
abbrev pub StartsSolid : Bytes → Type 0
StartsSolid [] = Unit
StartsSolid (c ∷ s) = is_blank c ≡ false

-- The last byte, if there is one, is not blank.
abbrev pub EndsSolid : Bytes → Type 0
EndsSolid [] = Unit
EndsSolid (c ∷ []) = is_blank c ≡ false
EndsSolid (c ∷ d ∷ s) = EndsSolid (d ∷ s)

pub ltrim_blank : (c : ℕ) (s : Bytes) → is_blank c ≡ true → ltrim (c ∷ s) ≡ ltrim s
unfolding ltrim
ltrim_blank c s h = ground arith

pub ltrim_solid : (c : ℕ) (s : Bytes) → is_blank c ≡ false → ltrim (c ∷ s) ≡ c ∷ s
unfolding ltrim
ltrim_solid c s h = ground arith

abbrev put_back : ℕ → Bytes → Bytes
put_back c [] = if is_blank c then [] else c ∷ []
put_back c (d ∷ s) = c ∷ d ∷ s

rtrim_cons : (c : ℕ) (s : Bytes) → rtrim (c ∷ s) ≡ put_back c (rtrim s)
unfolding rtrim
rtrim_cons c [] = ground arith
rtrim_cons c (d ∷ s) = ground arith

-- A text is what `ltrim` drops, all blank, and what it keeps.
ltrim_split :
    (s : Bytes) → (pre : Bytes) × All IsBlank pre × (s ≡ pre ++ ltrim s) × StartsSolid (ltrim s)
ltrim_split [] = ([], tt, unfold ltrim in refl, unfold ltrim in tt)
ltrim_split (c ∷ s) = elim (Bool-cases (is_blank c)) [
  | inl b ↦
      let (pre, blank, e, solid) = ltrim_split s in
      (c ∷ pre, (b, blank), rw (ltrim_blank c s b) (ap (◌∷◌ c) e), rw (ltrim_blank c s b) solid)
  | inr b ↦ ([], tt, rw (ltrim_solid c s b), rw (ltrim_solid c s b) b)
]

put_back-EndsSolid : (c : ℕ) (s : Bytes) → EndsSolid s → EndsSolid (put_back c s)
put_back-EndsSolid c [] h = ground arith
put_back-EndsSolid c (d ∷ s) h = h

put_back_split :
    (c : ℕ) (t post : Bytes)
    → All IsBlank post
    → (post' : Bytes) × All IsBlank post' × (c ∷ (t ++ post) ≡ put_back c t ++ post')
put_back_split c [] post h = elim (Bool-cases (is_blank c)) [
  | inl b ↦ (c ∷ post, (b, h), rw b)
  | inr b ↦ (post, h, rw b)
]
put_back_split c (d ∷ t) post h = (post, h, refl)

rtrim_split :
    (s : Bytes) → (post : Bytes) × All IsBlank post × (s ≡ rtrim s ++ post) × EndsSolid (rtrim s)
rtrim_split [] = ([], tt, unfold rtrim in refl, unfold rtrim in tt)
rtrim_split (c ∷ s) =
    let (post, blank, e, solid) = rtrim_split s in
    let (post', blank', e') = put_back_split c (rtrim s) post blank in
    (
      post',
      blank',
      rw (rtrim_cons c s) (ap (◌∷◌ c) e ∙ e'),
      rw (rtrim_cons c s) (put_back-EndsSolid c (rtrim s) solid),
    )

StartsSolid-prefix : (s t : Bytes) → StartsSolid (s ++ t) → StartsSolid s
StartsSolid-prefix [] t h = tt
StartsSolid-prefix (c ∷ s) t h = h

-- `trim` takes blank bytes off both ends and nothing else: the text is a blank prefix, the result
-- and a blank suffix, and the result neither starts nor ends with a blank byte.
trim_lem :
    (s : Bytes)
    → (pre : Bytes) × (post : Bytes) × All IsBlank pre
      × All IsBlank post
      × (s ≡ pre ++ trim s ++ post)
      × StartsSolid (trim s)
      × EndsSolid (trim s)
unfolding trim
trim_lem s =
    let (pre, bpre, e, start) = ltrim_split s in
    let (post, bpost, e', end) = rtrim_split (ltrim s) in
    (
      pre,
      post,
      bpre,
      bpost,
      e ∙ ap (◌++◌ pre) e' ∙ sym (append_assoc pre _ post),
      StartsSolid-prefix (rtrim (ltrim s)) post (subst StartsSolid e' start),
      end,
    )

pub rtrim_fixed : (s : Bytes) → EndsSolid s → rtrim s ≡ s
rtrim_fixed [] h = unfold rtrim in refl
rtrim_fixed (c ∷ []) h = rw (rtrim_cons c []) (unfold rtrim in rw h)
rtrim_fixed (c ∷ d ∷ s) h = rw (rtrim_cons c (d ∷ s), rtrim_fixed (d ∷ s) h)

ltrim_fixed : (s : Bytes) → StartsSolid s → ltrim s ≡ s
ltrim_fixed [] h = unfold ltrim in refl
ltrim_fixed (c ∷ s) h = ltrim_solid c s h

-- A text with no blank end is its own trim.
pub trim_fixed : (s : Bytes) → StartsSolid s → EndsSolid s → trim s ≡ s
unfolding trim
trim_fixed s h k = rw (ltrim_fixed s h) (rtrim_fixed s k)

-- Trimming twice is trimming once.
pub trim_idem : (s : Bytes) → trim (trim s) ≡ trim s
trim_idem s =
    let (pre, post, bpre, bpost, e, start, end) = trim_lem s in trim_fixed (trim s) start end

pub lower_idem : (c : ℕ) → lower (lower c) ≡ lower c
unfolding lower
lower_idem c = ground arith

pub to_lower_idem : (s : Bytes) → to_lower (to_lower s) ≡ to_lower s
unfolding to_lower
to_lower_idem [] = refl
to_lower_idem (c ∷ s) = ap₂ ◌∷◌ (lower_idem c) (to_lower_idem s)

-- `starts_with` holds exactly when the text is the prefix and something after it.
pub starts_with_sound :
    (s prefix : Bytes) → starts_with s prefix ≡ true → (rest : Bytes) × (s ≡ prefix ++ rest)
unfolding starts_with
starts_with_sound s [] h = (s, refl)
starts_with_sound [] (d ∷ prefix) h = absurd (ground arith)
starts_with_sound (c ∷ s) (d ∷ prefix) h =
    let (rest, e) = starts_with_sound s prefix (ground arith) in (rest, ap₂ ◌∷◌ (ground arith) e)

pub starts_with-append : (prefix rest : Bytes) → starts_with (prefix ++ rest) prefix ≡ true
unfolding starts_with
starts_with-append [] rest = refl
starts_with-append (c ∷ prefix) rest = ground (arith, starts_with-append prefix rest)
