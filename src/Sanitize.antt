-- ===== src/Sanitize.antt =====
-- sanitize.pipe.ts: the removal of HTML from the texts of a body. A match of a regular expression is given
-- by its length at a place of the text, 0 for no match. A key `__proto__` is left out of the model.
pub mod Plain
use Prim.Native.Char.{code}
use a2a_verification_network.Prelude.{
  ℕ, zero, suc, ◌+◌, ◌-◌, Bool, ◌&&◌, ◌||◌, ◌==◌, leb, String, is_space, to_lower, trim,
  if◌then◌else◌, ◌<>◌,
}

longer : ℕ → ℕ → ℕ
longer k zero = zero
longer k (suc n) = k + suc n

-- The length up to the first such character, with it.
through : ℕ → String → ℕ
unfolding longer
through k String.[] = 0
through k (String.◌∷◌ c s) = let rest = through k s in if code c == k then 1 else longer 1 rest

-- /<[^>]*>/
unfoldable pub tag_length : String → ℕ
unfolding longer through
tag_length String.[] = 0
tag_length (String.◌∷◌ c s) = if code c == 60 then longer 1 (through 62 s) else 0

-- A text without special characters.
unfoldable pub text_length : String → String → ℕ
unfolding longer
text_length String.[] s = 0
text_length (String.◌∷◌ l String.[]) String.[] = 0
text_length (String.◌∷◌ l ls) String.[] = 0
text_length (String.◌∷◌ l String.[]) (String.◌∷◌ c s) = if code c == code l then 1 else 0
text_length (String.◌∷◌ l ls) (String.◌∷◌ c s) =
    let rest = text_length ls s in if code c == code l then longer 1 rest else 0

-- \w
abbrev is_word : ℕ → Bool
is_word n = (leb 48 n && leb n 57) || (leb 65 n && leb n 90) || (leb 97 n && leb n 122) || n == 95

-- /\s*=/
equals_length : String → ℕ
unfolding longer
equals_length String.[] = 0
equals_length (String.◌∷◌ c s) =
    let rest = equals_length s in
    if code c == 61 then 1 else if is_space c then longer 1 rest else 0

-- /\w+\s*=/
assigned_length : String → ℕ
unfolding longer equals_length
assigned_length String.[] = 0
assigned_length (String.◌∷◌ c s) =
    let rest = assigned_length s in
    if is_word (code c) then longer 1 (if leb 1 rest then rest else equals_length s) else 0

-- /on\w+\s*=/i
handler_at : String → ℕ
unfolding longer assigned_length
handler_at String.[] = 0
handler_at (String.◌∷◌ o String.[]) = 0
handler_at (String.◌∷◌ o (String.◌∷◌ n s)) =
    if code o == 111 && code n == 110 then longer 2 (assigned_length s) else 0

unfoldable pub handler_length : String → ℕ
unfolding handler_at
handler_length s = handler_at (to_lower s)

-- `replace` of every match: `skipped` characters of the last one are still ahead.
unfoldable pub replace_all : (String → ℕ) → String → ℕ → String → String
replace_all length by skipped String.[] = String.[]
replace_all length by (suc skipped) (String.◌∷◌ c s) = replace_all length by skipped s
replace_all length by zero (String.◌∷◌ c s) =
    let n = length (String.◌∷◌ c s) in
    let rest = replace_all length by (n - 1) s in if leb 1 n then by <> rest else String.◌∷◌ c rest

unfoldable pub strip_tags : String → String
unfolding replace_all tag_length
strip_tags = replace_all tag_length String.[] 0

unfoldable pub strip_html : String → String
unfolding replace_all strip_tags text_length handler_length
strip_html input =
    let tagless = strip_tags input in
    let decoded_lt = replace_all (text_length "&lt;") "<" 0 tagless in
    let decoded_gt = replace_all (text_length "&gt;") ">" 0 decoded_lt in
    let decoded = replace_all (text_length "&amp;") "&" 0 decoded_gt in
    let scriptless =
      replace_all (λ s. text_length "javascript:" (to_lower s)) String.[] 0 decoded in
    replace_all handler_length String.[] 0 scriptless

-- A value of a body; `other` is a number, a truth value, null or undefined.
mutual
  pub data Value : Type 0 where
    text : String → Value
    array : Items → Value
    object : Fields → Value
    other : Value

  pub data Items : Type 0 where
    no_item : Items
    item : Value → Items → Items

  pub data Fields : Type 0 where
    no_field : Fields
    field : String → Value → Fields → Fields

unfoldable mutual
  unfolding strip_html trim

  pub sanitize : Value → Value
  sanitize (text s) = text (trim (strip_html s))
  sanitize (array xs) = array (sanitize_items xs)
  sanitize (object fs) = object (sanitize_fields fs)
  sanitize other = other

  pub sanitize_items : Items → Items
  sanitize_items no_item = no_item
  sanitize_items (item v xs) = item (sanitize v) (sanitize_items xs)

  pub sanitize_fields : Fields → Fields
  sanitize_fields no_field = no_field
  sanitize_fields (field k v fs) = field k (sanitize v) (sanitize_fields fs)

-- `is_body` is `metadata.type === 'body'`.
unfoldable pub transform : Bool → Value → Value
unfolding sanitize
transform is_body value = let cleaned = sanitize value in if is_body then cleaned else value
