-- ===== src/Auth/Passwords.antt =====
-- password.service.ts. A stored password is `salt:key`.
pub mod Verifying
use a2a_verification_network.Prelude.{
  ℕ, Bool, true, false, not, ◌&&◌, ◌||◌, ◌==◌, leb, ltb, Option, none, some, String, ◌<>◌, is_empty,
  any_code, before_code, second_piece, if◌then◌else◌,
}
use a2a_verification_network.Auth.Crypto.{Crypto}

-- Why a password is weak, in the order of the tests.
pub data Strength : Type 0 where
  strong too_short no_uppercase no_lowercase no_digit no_special : Strength

abbrev pub is_upper : ℕ → Bool
is_upper n = leb 65 n && leb n 90

abbrev pub is_lower : ℕ → Bool
is_lower n = leb 97 n && leb n 122

abbrev pub is_number : ℕ → Bool
is_number n = leb 48 n && leb n 57

abbrev pub is_special : ℕ → Bool
is_special n = not (is_upper n || is_lower n || is_number n)

module _ (c : Crypto) where
  -- `hash`, with the n-th random salt.
  unfoldable pub hash : String → ℕ → String
  hash password n = c.random_hex n <> (":" <> c.to_hex (c.scrypt password (c.random_hex n)))

  -- The comparison of `verify`, for the two pieces of the stored text.
  abbrev pub matches_key : String → String → Option String → Bool
  matches_key password salt none = false
  matches_key password salt (some key) =
      let stored = c.from_hex key in
      let derived = c.scrypt password salt in
      if is_empty salt || is_empty key
      then false
      else if not (c.byte_length stored == c.byte_length derived)
      then false
      else c.timing_safe_equal stored derived

  unfoldable pub verify : String → String → Bool
  unfolding before_code second_piece
  verify password stored = matches_key password (before_code 58 stored) (second_piece 58 stored)

  unfoldable pub is_password_strong : String → Strength
  is_password_strong password =
      if ltb (c.units password) 12
      then too_short
      else if not (any_code is_upper password)
      then no_uppercase
      else if not (any_code is_lower password)
      then no_lowercase
      else if not (any_code is_number password)
      then no_digit
      else if not (any_code is_special password)
      then no_special
      else strong
