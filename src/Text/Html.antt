-- ===== src/Text/Html.antt =====
-- `strip_html_for_ai` and `sanitize_url` of src/core/utils.cpp.
pub mod Laws
use open_crank.Prelude.{
  leb, ◌==◌, if◌then◌else◌, Bytes, codes, str_eq, length, get_or, is_empty, any, keep, ℕ, zero, suc,
  ◌≡◌, refl, Bool, true, false, not, ◌&&◌, ◌||◌, [], ◌∷◌, ◌++◌,
}
use open_crank.Text.Trim.{starts_with, lower}
use open_crank.Text.Space.{normalize_whitespace}

-- The variables of the loop.
pub record Scan : Type 0 where
  pub in_tag : Bool
  pub in_script : Bool
  pub in_style : Bool
  pub keep_tag : Bool
  pub tag_buffer : Bytes

abbrev pub scan_start : Scan
scan_start = record {
  in_tag = false;
  in_script = false;
  in_style = false;
  keep_tag = false;
  tag_buffer = [];
}

-- The look ahead at a tag's name, of so many bytes at most.
pub peek_tag : ℕ → Bytes → Bytes
peek_tag zero s = []
peek_tag (suc n) [] = []
peek_tag (suc n) (c ∷ s) =
    if c == b' ' || c == b'>' || c == b'\t' || c == b'\n' then [] else lower c ∷ peek_tag n s

-- What a '<' does to the variables, given the name that follows it.
pub open_tag : Scan → Bytes → Scan
open_tag v peek =
    let keeps =
      str_eq peek (codes "a")
      || str_eq peek (codes "img")
      || str_eq peek (codes "/a")
      || str_eq peek (codes "/img") in
    let opened = record v { in_tag = true; tag_buffer = codes "<"; keep_tag = keeps } in
    if str_eq peek (codes "script") || starts_with peek (codes "script")
    then record opened { in_script = true }
    else if str_eq peek (codes "/script")
    then record opened { in_script = false }
    else if str_eq peek (codes "style") || starts_with peek (codes "style")
    then record opened { in_style = true }
    else if str_eq peek (codes "/style")
    then record opened { in_style = false }
    else opened

-- What a '>' that ends a tag adds to the result.
pub tag_text : Scan → Bytes
tag_text v =
    if v.keep_tag && not v.in_script && not v.in_style
    then v.tag_buffer ++ codes ">"
    else if not v.in_script && not v.in_style
    then codes " "
    else []

pub close_tag : Scan → Scan
close_tag v = record v { in_tag = false; tag_buffer = []; keep_tag = false }

-- The bytes of an entity's name, at most so many, and what follows them.
pub read_entity : ℕ → Bytes → Bytes × Bytes
read_entity zero s = ([], s)
read_entity (suc n) [] = ([], [])
read_entity (suc n) (c ∷ s) =
    let rest = read_entity n s in
    if c == b';' || c == b' ' then ([], c ∷ s) else (c ∷ rest.0, rest.1)

-- The table of entities; the empty text is no entity.
pub decode_entity : Bytes → Bytes
decode_entity e =
    let is = λ (name number : Bytes). str_eq e name || str_eq e number in
    if is (codes "nbsp") (codes "#160")
    then codes " "
    else if is (codes "amp") (codes "#38")
    then codes "&"
    else if is (codes "lt") (codes "#60")
    then codes "<"
    else if is (codes "gt") (codes "#62")
    then codes ">"
    else if is (codes "quot") (codes "#34")
    then b'"' ∷ []
    else if is (codes "apos") (codes "#39")
    then codes "'"
    else if is (codes "mdash") (codes "#8212")
    then codes "--"
    else if is (codes "ndash") (codes "#8211")
    then codes "-"
    else if is (codes "hellip") (codes "#8230")
    then codes "..."
    else if is (codes "laquo") (codes "#171")
    then codes "<<"
    else if is (codes "raquo") (codes "#187")
    then codes ">>"
    else []

-- What the text after a '&' decodes to, with the number of its bytes that are used up; nothing is
-- decoded when the text is empty.
pub entity_at : Bytes → Bytes × ℕ
unfolding read_entity decode_entity
entity_at s =
    let (entity, rest) = read_entity 9 s in
    if get_or rest 0 0 == b';' then (decode_entity entity, suc (length entity)) else ([], 0)

-- The loop; the number counts bytes that an entity has used up.
pub strip_from : Scan → ℕ → Bytes → Bytes
strip_from v n [] = []
strip_from v (suc n) (c ∷ s) = strip_from v n s
strip_from v zero (c ∷ s) = elim (c == b'<') [
  | true ↦ strip_from (open_tag v (peek_tag 11 s)) 0 s
  | false ↦ elim (c == b'>' && v.in_tag) [
    | true ↦ tag_text v ++ strip_from (close_tag v) 0 s
    | false ↦ elim v.in_tag [
      | true ↦ strip_from (record v { tag_buffer = v.tag_buffer ++ c ∷ [] }) 0 s
      | false ↦ elim (not v.in_script && not v.in_style) [
        | false ↦ strip_from v 0 s
        | true ↦ elim (c == b'&' && not (is_empty (entity_at s).0)) [
          | true ↦ (entity_at s).0 ++ strip_from v (entity_at s).1 s
          | false ↦ c ∷ strip_from v 0 s
        ]
      ]
    ]
  ]
]

unfoldable pub strip_html_for_ai : Bytes → Bytes
unfolding strip_from
strip_html_for_ai html = normalize_whitespace (strip_from scan_start 0 html)

-- The bytes that stay in a URL.
pub is_url_byte : ℕ → Bool
is_url_byte c =
    (leb b'a' c && leb c b'z')
    || (leb b'A' c && leb c b'Z')
    || (leb b'0' c && leb c b'9')
    || any (λ d. c == d) (codes "-._~:/?#[]@!$&()*+,;=%")

unfoldable pub sanitize_url : Bytes → Bytes
unfolding is_url_byte
sanitize_url url = keep is_url_byte (strip_html_for_ai url)

strip_html_for_ai_runs :
    strip_html_for_ai (codes "<p>a &amp; <a href=x>b</a></p><script>c</script> d")
    ≡ codes "a & <a href=x>b</a> d"
unfolding strip_html_for_ai open_tag peek_tag tag_text close_tag entity_at str_eq starts_with lower
    normalize_whitespace
strip_html_for_ai_runs = refl
