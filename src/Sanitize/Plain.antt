-- ===== src/Sanitize/Plain.antt =====
-- sanitize.pipe.ts on texts without the characters that its expressions look for.
use a2a_verification_network.Prelude.{
  ℕ, ◌≡◌, refl, ap, Bool, true, false, not, ◌||◌, ◌==◌, String, all_codes, arith, Lacks,
  all_codes_mono, to_lower, to_lower_codes, trim,
}
use a2a_verification_network.Sanitize.{
  tag_length, text_length, handler_length, handler_at, longer, equals_length, assigned_length,
  replace_all, strip_tags, strip_html, Value, Items, Fields, text, array, object, other, no_item,
  item, no_field, field, sanitize, sanitize_items, sanitize_fields, transform,
}

-- None of `<`, `&`, `:` and `=`.
abbrev plain_code : ℕ → Bool
plain_code n = not (n == 60 || n == 38 || n == 58 || n == 61)

abbrev pub IsPlain : String → Type 0
IsPlain s = all_codes plain_code s ≡ true

plain-Lacks : (k : ℕ) (s : String) → plain_code k ≡ false → IsPlain s → Lacks k s
plain-Lacks k s e = all_codes_mono plain_code (λ n. not (n == k)) s (λ n h. ground arith)

-- A special character that a text lacks is in no match.
text_length_lacking :
    (k : ℕ) (t s : String)
    → all_codes (λ n. not (n == k)) t ≡ false
    → Lacks k s
    → text_length t s ≡ 0
unfolding text_length all_codes
text_length_lacking k String.[] s h l = refl
text_length_lacking k (String.◌∷◌ a String.[]) String.[] h l = refl
text_length_lacking k (String.◌∷◌ a (String.◌∷◌ b t)) String.[] h l = refl
text_length_lacking k (String.◌∷◌ a String.[]) (String.◌∷◌ c s) h l = ground arith
text_length_lacking k (String.◌∷◌ a (String.◌∷◌ b t)) (String.◌∷◌ c s) h l =
    ground (arith, text_length_lacking k (String.◌∷◌ b t) s)

replace_all_none :
    (length : String → ℕ) (by s : String)
    → ((t : String) → IsPlain t → length t ≡ 0)
    → IsPlain s
    → replace_all length by 0 s ≡ s
unfolding replace_all all_codes
replace_all_none length by String.[] f h = refl
replace_all_none length by (String.◌∷◌ c s) f h =
    ground (arith, f (String.◌∷◌ c s), replace_all_none length by s f)

tag_length_plain : (s : String) → IsPlain s → tag_length s ≡ 0
unfolding tag_length all_codes
tag_length_plain String.[] h = refl
tag_length_plain (String.◌∷◌ c s) h = ground arith

equals_length_lacking : (s : String) → Lacks 61 s → equals_length s ≡ 0
unfolding equals_length longer all_codes
equals_length_lacking String.[] h = refl
equals_length_lacking (String.◌∷◌ c s) h = ground (arith, equals_length_lacking s)

assigned_length_lacking : (s : String) → Lacks 61 s → assigned_length s ≡ 0
unfolding assigned_length longer all_codes
assigned_length_lacking String.[] h = refl
assigned_length_lacking (String.◌∷◌ c s) h =
    ground (arith, assigned_length_lacking s, equals_length_lacking s)

handler_at_lacking : (s : String) → Lacks 61 s → handler_at s ≡ 0
unfolding handler_at longer all_codes
handler_at_lacking String.[] h = refl
handler_at_lacking (String.◌∷◌ o String.[]) h = refl
handler_at_lacking (String.◌∷◌ o (String.◌∷◌ n s)) h = ground (arith, assigned_length_lacking s)

lower-IsPlain : (s : String) → IsPlain s → IsPlain (to_lower s)
unfolding all_codes
lower-IsPlain s = to_lower_codes plain_code s refl

handler_length_plain : (s : String) → IsPlain s → handler_length s ≡ 0
unfolding handler_length
handler_length_plain s h =
    handler_at_lacking (to_lower s) (plain-Lacks 61 (to_lower s) refl (lower-IsPlain s h))

module _ (k : ℕ) (t : String) (special : plain_code k ≡ false)
    (in_text : all_codes (λ n. not (n == k)) t ≡ false) where
  text_length_plain : (s : String) → IsPlain s → text_length t s ≡ 0
  text_length_plain s h = text_length_lacking k t s in_text (plain-Lacks k s special h)

  replace_plain : (by s : String) → IsPlain s → replace_all (text_length t) by 0 s ≡ s
  replace_plain by s = replace_all_none (text_length t) by s text_length_plain

script_length_plain : (s : String) → IsPlain s → text_length "javascript:" (to_lower s) ≡ 0
unfolding all_codes
script_length_plain s h =
    text_length_plain 58 "javascript:" refl refl (to_lower s) (lower-IsPlain s h)

-- A plain text passes unchanged.
pub strip_html_plain : (s : String) → IsPlain s → strip_html s ≡ s
unfolding strip_html strip_tags all_codes
strip_html_plain s h =
    rw
      (
        replace_all_none tag_length String.[] s tag_length_plain h,
        replace_plain 38 "&lt;" refl refl "<" s h,
        replace_plain 38 "&gt;" refl refl ">" s h,
        replace_plain 38 "&amp;" refl refl "&" s h,
        replace_all_none (λ u. text_length "javascript:" (to_lower u)) String.[] s
            script_length_plain h,
      )
      (replace_all_none handler_length String.[] s handler_length_plain h)

-- Every text of the value is plain and has nothing to trim; the keys are arbitrary.
unfoldable mutual
  pub IsClean : Value → Type 0
  IsClean (text s) = IsPlain s × (trim s ≡ s)
  IsClean (array xs) = AreClean xs
  IsClean (object fs) = HasClean fs
  IsClean other = Unit

  pub AreClean : Items → Type 0
  AreClean no_item = Unit
  AreClean (item v xs) = IsClean v × AreClean xs

  pub HasClean : Fields → Type 0
  HasClean no_field = Unit
  HasClean (field k v fs) = IsClean v × HasClean fs

mutual
  unfolding sanitize IsClean

  sanitize_clean : (v : Value) → IsClean v → sanitize v ≡ v
  sanitize_clean (text s) (h, e) = ap text (rw (strip_html_plain s h) e)
  sanitize_clean (array xs) h = ap array (items_clean xs h)
  sanitize_clean (object fs) h = ap object (fields_clean fs h)
  sanitize_clean other h = refl

  items_clean : (xs : Items) → AreClean xs → sanitize_items xs ≡ xs
  items_clean no_item h = refl
  items_clean (item v xs) (h, hs) = rw (sanitize_clean v h, items_clean xs hs)

  fields_clean : (fs : Fields) → HasClean fs → sanitize_fields fs ≡ fs
  fields_clean no_field h = refl
  fields_clean (field k v fs) (h, hs) = rw (sanitize_clean v h, fields_clean fs hs)

-- A body whose texts have none of `<`, `&`, `:` and `=` and nothing to trim reaches the handler
-- unchanged, with every key, item and other value, and so does whatever is not a body.
pub transform_clean : (is_body : Bool) (v : Value) → IsClean v → transform is_body v ≡ v
unfolding transform
transform_clean true v h = sanitize_clean v h
transform_clean false v h = refl
