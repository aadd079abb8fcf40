-- ===== src/Text/Html/Laws.antt =====
-- What `strip_html_for_ai` and `sanitize_url` guarantee of their results.
use open_crank.Prelude.{◌==◌, Bytes, keep, All, ℕ, ◌≡◌, refl, ap, Bool, true, false, [], ◌∷◌, arith}
use open_crank.Text.Space.{normalize_whitespace}
use open_crank.Text.Space.Laws.{IsTidy, normalize_whitespace_lem}
use open_crank.Text.Html.{scan_start, strip_from, strip_html_for_ai, is_url_byte, sanitize_url}

-- A byte that starts neither a tag nor an entity.
abbrev pub IsPlain : ℕ → Type 0
IsPlain c = ((c == b'<') ≡ false) × ((c == b'&') ≡ false)

strip_from_plain : (s : Bytes) → All IsPlain s → strip_from scan_start 0 s ≡ s
unfolding strip_from
strip_from_plain [] h = refl
strip_from_plain (c ∷ s) ((lt, amp), h) = ground (arith, strip_from_plain s h, lt, amp)

keep-All : (p : ℕ → Bool) (s : Bytes) → All (λ c. p c ≡ true) (keep p s)
keep-All p [] = tt
keep-All p (c ∷ s) = ground (arith, keep-All p s)

-- The result of `strip_html_for_ai` has single spaces between words and no other blank, and only
-- bytes that may stand in a URL are left by `sanitize_url`.
strip_html_for_ai_lem :
    (html : Bytes)
    → IsTidy (strip_html_for_ai html) × All (λ c. is_url_byte c ≡ true) (sanitize_url html)
unfolding strip_html_for_ai sanitize_url
strip_html_for_ai_lem html =
    let tidy = normalize_whitespace_lem (strip_from scan_start 0 html) in
    (tidy.0, keep-All is_url_byte (strip_html_for_ai html))

-- A text without '<' and '&' loses nothing but its superfluous blanks in `strip_html_for_ai`.
strip_html_for_ai_plain :
    (html : Bytes) → All IsPlain html → strip_html_for_ai html ≡ normalize_whitespace html
unfolding strip_html_for_ai
strip_html_for_ai_plain html h = ap normalize_whitespace (strip_from_plain html h)
