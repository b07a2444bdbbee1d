-- ===== src/Auth/Crypto.antt =====
-- What the authentication code calls: node:crypto and @nestjs/jwt.
use a2a_verification_network.Prelude.{
  ℕ, ◌≡◌, ◌↔◌, Bool, true, false, not, ◌&&◌, ◌||◌, ◌==◌, leb, Option, String, is_empty, all_codes,
  all_codes_mono, Lacks, arith,
}

pub record JwtPayload : Type 0 where
  pub sub : String
  pub address : String
  pub role : String

pub record Crypto : Type 1 where
  -- `jwtService.sign(payload, { expiresIn })` at a time; a refresh token also has a `jti`.
  pub sign : JwtPayload → Option String → String → ℕ → String
  -- `jwtService.verify(token)` at a time; `none` is an exception.
  pub verify_token : String → ℕ → Option JwtPayload
  -- `createHash('sha256').update(text).digest('hex')`
  pub sha256_hex : String → String
  -- `createHmac('sha256', secret).update(text).digest('hex')`
  pub hmac_hex : String → String → String
  -- The n-th `randomBytes(16).toString('hex')` of the process.
  pub random_hex : ℕ → String
  -- Buffers, `scrypt` with the cost parameters of the service, and `timingSafeEqual`.
  pub Bytes : Type 0
  pub byte_length : Bytes → ℕ
  pub from_hex : String → Bytes
  pub to_hex : Bytes → String
  pub scrypt : String → String → Bytes
  pub timing_safe_equal : Bytes → Bytes → Bool
  -- `string.length`, in UTF-16 code units.
  pub units : String → ℕ

-- The digits that `toString('hex')` writes.
abbrev pub is_hex : ℕ → Bool
is_hex n = (leb 48 n && leb n 57) || (leb 97 n && leb n 102)

abbrev pub IsHexText : String → Type 0
IsHexText s = (is_empty s ≡ false) × (all_codes is_hex s ≡ true)

-- What node:crypto documents: random values, hashes and derived keys are written in hexadecimal and
-- read back, and `timingSafeEqual` compares buffers of one length.
pub record IsCrypto (c : Crypto) : Type 0 where
  pub random_text : (n : ℕ) → IsHexText (c.random_hex n)
  pub hmac_text : (secret text : String) → IsHexText (c.hmac_hex secret text)
  pub key_text : (password salt : String) → IsHexText (c.to_hex (c.scrypt password salt))
  pub from_hex-to_hex : (b : c.Bytes) → c.from_hex (c.to_hex b) ≡ b
  pub timing_safe_equal-iff :
      (a b : c.Bytes)
      → c.byte_length a ≡ c.byte_length b
      → (c.timing_safe_equal a b ≡ true) ↔ (a ≡ b)

-- A hexadecimal text has no character outside the digits.
pub Lacks-code : (s : String) (k : ℕ) → is_hex k ≡ false → all_codes is_hex s ≡ true → Lacks k s
Lacks-code s k h = all_codes_mono is_hex (λ n. not (n == k)) s λ n e. ground arith
