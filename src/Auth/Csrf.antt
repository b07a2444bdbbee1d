-- ===== src/Auth/Csrf.antt =====
-- csrf.middleware.ts. `secret` is that of the environment.
pub mod Checking
use a2a_verification_network.Prelude.{
  ℕ, Bool, true, false, not, ◌&&◌, ◌||◌, ◌==◌, List, [], ◌∷◌, map, Option, none, some, String, ◌<>◌,
  is_empty, includes, str_eq, trim, before_code, second_piece, split_on, if◌then◌else◌,
}
use a2a_verification_network.Auth.Crypto.{Crypto}

abbrev pub safe_methods : List String
safe_methods = "GET" ∷ "HEAD" ∷ "OPTIONS" ∷ []

abbrev pub csrf_cookie : String
csrf_cookie = "csrf-token"

-- How the middleware ends: with `next()`, after a token was issued or not, or with an exception.
pub data Passed : Type 0 where
  issued : String → Passed
  passed token_missing token_mismatch : Passed

-- The cookie of that name in the parts of the header; `none` is `null` or `undefined`.
abbrev pub cookie_in : String → List String → Option String
cookie_in name [] = none
cookie_in name (part ∷ parts) =
    let rest = cookie_in name parts in
    if str_eq (before_code 61 part) name then second_piece 61 part else rest

unfoldable pub extract_cookie : String → String → Option String
unfolding split_on trim before_code second_piece str_eq
extract_cookie header name = cookie_in name (map trim (split_on 59 header))

-- A text that is there and not empty.
abbrev pub filled : Option String → Option String
filled none = none
filled (some text) = if is_empty text then none else some text

abbrev pub header_text : Option String → String
header_text none = ""
header_text (some text) = text

module _ (c : Crypto) (secret : String) where
  -- `issueToken`, with the n-th random value.
  unfoldable pub issue_token : ℕ → String
  issue_token n = c.random_hex n <> ("." <> c.hmac_hex secret (c.random_hex n))

  -- Whether the signature is that of the nonce.
  abbrev pub signed : String → Option String → Bool
  signed nonce none = false
  signed nonce (some signature) =
      let a = c.from_hex signature in
      let b = c.from_hex (c.hmac_hex secret nonce) in
      if is_empty nonce || is_empty signature
      then false
      else if not (c.byte_length a == c.byte_length b)
      then false
      else c.timing_safe_equal a b

  unfoldable pub verify_token : String → String → Bool
  unfolding str_eq before_code second_piece
  verify_token header cookie =
      if not (str_eq header cookie)
      then false
      else signed (before_code 46 header) (second_piece 46 header)

  abbrev pub check : Option String → Option String → Passed
  check (some header) (some cookie) = if verify_token header cookie then passed else token_mismatch
  check _ _ = token_missing

  -- The request's method, its token header and its cookie header.
  unfoldable pub use_middleware : String → Option String → Option String → ℕ → Passed
  unfolding issue_token extract_cookie verify_token includes
  use_middleware method header cookies n =
      if includes safe_methods method
      then issued (issue_token n)
      else check (filled header) (filled (extract_cookie (header_text cookies) csrf_cookie))
