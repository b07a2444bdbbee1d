-- ===== src/Auth/RefreshTokens/Rotation.antt =====
-- A refresh token is used at most once, and lifetimes are read as they are written.
use Prim.Native.Char.{Char, code}
use a2a_verification_network.Prelude.{
  ℕ, ◌*◌, ◌≡◌, refl, true, List, [], ◌∷◌, some, String, ◌<>◌, includes, str_eq_self, arith,
  append_nil, append_cons,
}
use a2a_verification_network.Decimal.{
  to_string, value-to_string, all_digits-to_string, is_empty-to_string,
}
use a2a_verification_network.Auth.Crypto.{Crypto}
use a2a_verification_network.Auth.RefreshTokens.{
  Expiry, TokenPair, Tokens, rotated, already_revoked, unit_seconds, seconds_of, split_last,
  parse_expires_in, issue_token_pair, revoke, is_revoked, rotate, Use, issuing, rotating, revoking,
  use_service, use_all,
}

module _ (c : Crypto) (e : Expiry) where
  revoke-is_revoked :
      (token : String) (s : Tokens) → is_revoked c e token (revoke c e token s) ≡ true
  unfolding revoke includes
  revoke-is_revoked token s = rw (str_eq_self (c.sha256_hex token)) refl

  use_service-is_revoked :
      (token : String) (u : Use c e) (s : Tokens)
      → is_revoked c e token s ≡ true
      → is_revoked c e token (use_service c e u s) ≡ true
  unfolding use_service issue_token_pair rotate revoke includes
  use_service-is_revoked token (issuing payload now) s h = h
  use_service-is_revoked token (rotating other now) s h = ground arith
  use_service-is_revoked token (revoking other) s h = ground arith

  use_all-is_revoked :
      (token : String) (us : List (Use c e)) (s : Tokens)
      → is_revoked c e token s ≡ true
      → is_revoked c e token (use_all c e us s) ≡ true
  unfolding use_all
  use_all-is_revoked token [] s h = h
  use_all-is_revoked token (u ∷ us) s h =
      use_all-is_revoked token us (use_service c e u s) (use_service-is_revoked token u s h)

  rotate-is_revoked :
      (token : String) (now : ℕ) (s : Tokens) {p : TokenPair}
      → (rotate c e token now s).0 ≡ rotated p
      → is_revoked c e token (rotate c e token now s).1 ≡ true
  unfolding rotate issue_token_pair
  rotate-is_revoked token now s h = ground (arith, revoke-is_revoked token s)

  -- A refresh token that was exchanged for a new pair is never exchanged again, whatever tokens are
  -- issued, rotated and revoked in between: it is refused as revoked.
  pub rotate-rotate :
      (token : String) (now later : ℕ) (s : Tokens) (us : List (Use c e)) {p : TokenPair}
      → (rotate c e token now s).0 ≡ rotated p
      → let t = use_all c e us (rotate c e token now s).1 in
        rotate c e token later t ≡ (already_revoked, t)
  unfolding rotate
  rotate-rotate token now later s us h =
      let t = use_all c e us (rotate c e token now s).1 in
      rw (use_all-is_revoked token us (rotate c e token now s).1 (rotate-is_revoked token now s h))
        refl

split_last-append :
    (s : String) (k : Char) → split_last (s <> String.◌∷◌ k String.[]) ≡ some (s, code k)
unfolding split_last
split_last-append String.[] k = rw append_nil refl
split_last-append (String.◌∷◌ d s) k = rw append_cons (ground (arith, split_last-append s k))

-- A lifetime of `n` seconds, minutes, hours or days, written as the decimal number and the unit's
-- letter, is read back as that many seconds.
pub parse_expires_in-to_string :
    (n seconds : ℕ) (unit : Char)
    → unit_seconds (code unit) ≡ some seconds
    → parse_expires_in (to_string n <> String.◌∷◌ unit String.[]) ≡ n * seconds
unfolding parse_expires_in
parse_expires_in-to_string n seconds unit h =
    rw
      (
        parse_expires_in,
        split_last-append (to_string n) unit,
        seconds_of,
        h,
        is_empty-to_string n,
        all_digits-to_string n,
        value-to_string n,
      )
      refl
