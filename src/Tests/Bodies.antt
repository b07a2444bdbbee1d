-- ===== src/Tests/Bodies.antt =====
-- Runs of sanitize.pipe.ts.
use a2a_verification_network.Prelude.{◌≡◌, refl, true, all_codes, to_lower, trim}
use a2a_verification_network.Sanitize.{
  Value, text, object, array, other, item, no_item, field, no_field, sanitize, strip_html,
  transform,
}
use a2a_verification_network.Sanitize.Plain.{transform_clean, IsClean}

abbrev body : Value
body = object (
    field "validatorId" (text "0xAb12")
      (field "scores" (array (item other (item (text "two words") no_item))) no_field))

transform_clean_example : transform true body ≡ body
unfolding all_codes trim IsClean
transform_clean_example = transform_clean true body ((refl, refl), ((_, ((refl, refl), _)), _))

tags_removed : transform true (text " <b>a</b> onClick = x<y JAVAscript:z ") ≡ text "a  x<y z"
unfolding transform sanitize strip_html to_lower trim
tags_removed = refl

-- Entities are decoded after the tags have been removed.
tags_decoded : transform true (text "&lt;script&gt;") ≡ text "<script>"
unfolding transform sanitize strip_html to_lower trim
tags_decoded = refl

-- What is left of a removal can be the removed text again.
scheme_left : transform true (text "javajavascript:script:") ≡ text "javascript:"
unfolding transform sanitize strip_html to_lower trim
scheme_left = refl

-- White space beyond ASCII is trimmed.
wide_space : transform true (text "\u{3000}two\u{feff}") ≡ text "two"
unfolding transform sanitize strip_html to_lower trim
wide_space = refl
