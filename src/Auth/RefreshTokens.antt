-- ===== src/Auth/RefreshTokens.antt =====
-- refresh-token.service.ts. The state is the set `revoked`, and how many random values were drawn.
pub mod Rotation
use Prim.Native.Char.{Char, code}
use a2a_verification_network.Prelude.{
  ℕ, suc, ◌+◌, ◌*◌, ◌≡◌, ◌≢◌, refl, ◌∙◌, ap, Bool, true, false, not, ◌&&◌, ◌==◌, Bool-cases, inl,
  inr, List, [], ◌∷◌, Option, none, some, String, ◌<>◌, includes, str_eq_self, is_empty, all_digits,
  if◌then◌else◌, arith, Option-cases, ◌↔◌,
}
use a2a_verification_network.Decimal.{value, to_string}
use a2a_verification_network.Auth.Crypto.{JwtPayload, Crypto}

pub record TokenPair : Type 0 where
  pub access_token : String
  pub refresh_token : String
  pub expires_in : ℕ

-- `JWT_EXPIRES_IN` and `JWT_REFRESH_EXPIRES_IN`.
pub record Expiry : Type 0 where
  pub access : String
  pub refresh : String

pub record Tokens : Type 0 where
  pub revoked : List String
  pub drawn : ℕ

-- How `rotate` ends. Both failures are an `UnauthorizedException`.
pub data Rotated : Type 0 where
  rotated : TokenPair → Rotated
  already_revoked invalid : Rotated

-- `units[unit]`; the other letters do not match the pattern.
abbrev pub unit_seconds : ℕ → Option ℕ
unit_seconds k =
    if k == 115
    then some 1
    else if k == 109
    then some 60
    else if k == 104
    then some 3600
    else if k == 100
    then some 86400
    else none

-- `n` and the unit, from the digits before the last character and that character.
abbrev pub seconds_of : String → Option ℕ → ℕ
seconds_of digits none = 3600
seconds_of digits (some seconds) =
    if not (is_empty digits) && all_digits digits then value 0 digits * seconds else 3600

-- The text without its last character, and the code of that one.
unfoldable pub split_last : String → Option (String × ℕ)
split_last String.[] = none
split_last (String.◌∷◌ c s) = elim (split_last s) [
  | none ↦ some (String.[], code c)
  | some (front, k) ↦ some (String.◌∷◌ c front, k)
]

-- `parseExpiresIn`: the match of `/^(\d+)([smhd])$/`.
unfoldable pub parse_expires_in : String → ℕ
unfolding split_last value all_digits
parse_expires_in text = elim (split_last text) [
  | none ↦ 3600
  | some (digits, k) ↦ seconds_of digits (unit_seconds k)
]

module _ (c : Crypto) (e : Expiry) where
  unfoldable pub issue_token_pair : JwtPayload → ℕ → Tokens → TokenPair × Tokens
  unfolding parse_expires_in
  issue_token_pair payload now s = (
    record {
      access_token = c.sign payload none e.access now;
      refresh_token = c.sign payload (some (c.random_hex s.drawn)) e.refresh now;
      expires_in = parse_expires_in e.access;
    },
    record s { drawn = suc s.drawn },
  )

  unfoldable pub revoke : String → Tokens → Tokens
  revoke token s = record s { revoked = c.sha256_hex token ∷ s.revoked }

  abbrev pub is_revoked : String → Tokens → Bool
  is_revoked token s = includes s.revoked (c.sha256_hex token)

  -- The body of `try`.
  abbrev pub exchange : Option JwtPayload → String → ℕ → Tokens → Rotated × Tokens
  exchange none token now s = (invalid, s)
  exchange (some payload) token now s =
      let (pair, t) = issue_token_pair payload now (revoke token s) in (rotated pair, t)

  unfoldable pub rotate : String → ℕ → Tokens → Rotated × Tokens
  unfolding issue_token_pair revoke includes
  rotate token now s =
      if is_revoked token s
      then (already_revoked, s)
      else exchange (c.verify_token token now) token now s

  -- The methods that others call.
  pub data Use : Type 0 where
    issuing : JwtPayload → ℕ → Use
    rotating : String → ℕ → Use
    revoking : String → Use

  unfoldable pub use_service : Use → Tokens → Tokens
  unfolding issue_token_pair rotate revoke
  use_service (issuing payload now) s = (issue_token_pair payload now s).1
  use_service (rotating token now) s = (rotate token now s).1
  use_service (revoking token) s = revoke token s

  unfoldable pub use_all : List Use → Tokens → Tokens
  unfolding use_service
  use_all [] s = s
  use_all (u ∷ us) s = use_all us (use_service u s)
