-- ===== src/Prelude/Text.antt =====
-- Texts: `===`, membership, `toLowerCase`, `trim` and `split('.')[0]`.
use Prim.Native.Char.{Char, code}
use Prim.Native.Nat.{ℕ}
use Prim.Native.String.{String}
use mathlib.Core.Path.{◌≡◌, refl}
use mathlib.Core.Logic.{◌↔◌}
use mathlib.Core.Bool.{Bool, true, false, not, ◌||◌, ◌&&◌}
use mathlib.Core.List.{List, [], ◌∷◌}
use text.Mathlib.Text.{◌==◌ as text_eq}
use text.Mathlib.TextEquality.{eq_iff}
use native.Mathlib.Omega.{arith}
use a2a_verification_network.Prelude.Tests.{◌==◌, leb, if◌then◌else◌}

unfoldable pub str_eq : String → String → Bool
str_eq = text_eq

pub str_eq_iff : (s t : String) → (str_eq s t ≡ true) ↔ (s ≡ t)
unfolding str_eq
str_eq_iff = eq_iff

pub str_eq_self : (s : String) → str_eq s s ≡ true
str_eq_self s = (str_eq_iff s s).1 refl

-- `xs.includes(s)` and `new Set(xs).has(s)`.
unfoldable pub includes : List String → String → Bool
unfolding str_eq
includes [] s = false
includes (x ∷ xs) s = str_eq x s || includes xs s

-- The truth value of a string: only the empty one is falsy.
abbrev pub is_empty : String → Bool
is_empty String.[] = true
is_empty (String.◌∷◌ c s) = false

-- The character at the same place of `to` as `c` in `from`, or `c` itself.
translate : String → String → Char → Char
translate (String.◌∷◌ f from) (String.◌∷◌ t to) c =
    if code f == code c then t else translate from to c
translate _ _ c = c

lower_char : Char → Char
unfolding translate
lower_char = translate "ABCDEFGHIJKLMNOPQRSTUVWXYZ" "abcdefghijklmnopqrstuvwxyz"

-- `toLowerCase` on ASCII text.
unfoldable pub to_lower : String → String
unfolding lower_char
to_lower String.[] = String.[]
to_lower (String.◌∷◌ c s) = String.◌∷◌ (lower_char c) (to_lower s)

-- The comparison of `uuid` columns, on the usual notation with dashes: case does not matter.
abbrev pub same_uuid : String → String → Bool
same_uuid a b = str_eq (to_lower a) (to_lower b)

-- Every character passes the test of its code.
unfoldable pub all_codes : (ℕ → Bool) → String → Bool
all_codes p String.[] = true
all_codes p (String.◌∷◌ c s) = p (code c) && all_codes p s

-- The white space and the line ends of ECMAScript, which `trim` takes off and `\s` matches: the controls
-- 9 to 13, every space separator of Unicode, the byte order mark, and U+2028 and U+2029.
abbrev pub is_space_code : ℕ → Bool
is_space_code n =
    (leb 9 n && leb n 13)
    || n == 32
    || n == 160
    || n == 5760
    || (leb 8192 n && leb n 8202)
    || n == 8232
    || n == 8233
    || n == 8239
    || n == 8287
    || n == 12288
    || n == 65279

pub is_space : Char → Bool
is_space c = is_space_code (code c)

trim_start : String → String
unfolding is_space
trim_start String.[] = String.[]
trim_start (String.◌∷◌ c s) = let rest = trim_start s in if is_space c then rest else String.◌∷◌ c s

trim_end : String → String
unfolding is_space
trim_end String.[] = String.[]
trim_end (String.◌∷◌ c s) =
    let rest = trim_end s in if is_space c && is_empty rest then String.[] else String.◌∷◌ c rest

unfoldable pub trim : String → String
unfolding trim_start trim_end
trim s = trim_start (trim_end s)

-- `s.split('.')[0]`
unfoldable pub before_dot : String → String
before_dot String.[] = String.[]
before_dot (String.◌∷◌ c s) =
    let rest = before_dot s in if code c == b'.' then String.[] else String.◌∷◌ c rest

abbrev pub is_digit : Char → Bool
is_digit c = leb 48 (code c) && leb (code c) 57

-- `/^\d*$/`
unfoldable pub all_digits : String → Bool
all_digits String.[] = true
all_digits (String.◌∷◌ c s) = is_digit c && all_digits s

-- Texts of digits have nothing to trim and no fraction.
digit_not_space : (c : Char) → is_digit c ≡ true → is_space c ≡ false
unfolding is_space
digit_not_space c h = ground arith

trim_end_digits : (s : String) → all_digits s ≡ true → trim_end s ≡ s
unfolding trim_end all_digits
trim_end_digits String.[] h = refl
trim_end_digits (String.◌∷◌ c s) h = ground (arith, digit_not_space c, trim_end_digits s)

pub trim_digits : (s : String) → all_digits s ≡ true → trim s ≡ s
unfolding trim all_digits
trim_digits String.[] h = refl
trim_digits (String.◌∷◌ c s) h = ground (arith, digit_not_space c, trim_end_digits (String.◌∷◌ c s))

pub before_dot_digits : (s : String) → all_digits s ≡ true → before_dot s ≡ s
unfolding before_dot all_digits
before_dot_digits String.[] h = refl
before_dot_digits (String.◌∷◌ c s) h = ground (arith, before_dot_digits s)

-- Text without white space has nothing to trim.
trim_end_clean : (s : String) → all_codes (λ n. not (is_space_code n)) s ≡ true → trim_end s ≡ s
unfolding trim_end all_codes is_space
trim_end_clean String.[] h = refl
trim_end_clean (String.◌∷◌ c s) h = ground (arith, trim_end_clean s)

pub trim_clean : (s : String) → all_codes (λ n. not (is_space_code n)) s ≡ true → trim s ≡ s
unfolding trim trim_start all_codes is_space
trim_clean String.[] h = refl
trim_clean (String.◌∷◌ c s) h = ground (arith, trim_end_clean (String.◌∷◌ c s))

translate_codes :
    (p : ℕ → Bool) (from to : String) (c : Char)
    → all_codes p to ≡ true
    → p (code c) ≡ true
    → p (code (translate from to c)) ≡ true
unfolding translate all_codes
translate_codes p String.[] to c h k = k
translate_codes p (String.◌∷◌ f from) String.[] c h k = k
translate_codes p (String.◌∷◌ f from) (String.◌∷◌ t to) c h k =
    ground (arith, translate_codes p from to c)

-- What holds of a text and of the small letters holds of the text in lower case.
pub to_lower_codes :
    (p : ℕ → Bool) (s : String)
    → all_codes p "abcdefghijklmnopqrstuvwxyz" ≡ true
    → all_codes p s ≡ true
    → all_codes p (to_lower s) ≡ true
unfolding to_lower lower_char all_codes
to_lower_codes p String.[] a h = refl
to_lower_codes p (String.◌∷◌ c s) a h = ground (
  arith,
  translate_codes p "ABCDEFGHIJKLMNOPQRSTUVWXYZ" "abcdefghijklmnopqrstuvwxyz" c a,
  to_lower_codes p s a,
)
