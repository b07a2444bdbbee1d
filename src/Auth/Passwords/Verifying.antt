-- ===== src/Auth/Passwords/Verifying.antt =====
-- Which passwords a stored one accepts.
use Prim.Native.Char.{Char, code}
use a2a_verification_network.Prelude.{
  ℕ, ◌≡◌, ◌↔◌, refl, sym, ◌∙◌, ap, true, false, some, String, ◌<>◌, is_empty, before_code,
  second_piece, before_code-append, after_code-append, before_code_lacking, Lacks, append_cons,
  append_nil, arith,
}
use a2a_verification_network.Auth.Crypto.{Crypto, IsCrypto, Lacks-code}
use a2a_verification_network.Auth.Passwords.{hash, matches_key, verify}

-- The two pieces of a text that is put together at a character.
module _ (k : ℕ) (sep : Char) (at : code sep ≡ k) (a b : String) (la : Lacks k a)
    (lb : Lacks k b) where
  pub first_of_two : before_code k (a <> String.◌∷◌ sep b) ≡ a
  first_of_two = before_code-append k sep a b la at

  pub second_of_two : second_piece k (a <> String.◌∷◌ sep b) ≡ some b
  unfolding second_piece
  second_of_two = rw (after_code-append k sep a b la at, before_code_lacking k b lb) refl

colon-append : (b : String) → ":" <> b ≡ String.◌∷◌ ":" b
colon-append b = append_cons ":" String.[] b ∙ ap (λ t. String.◌∷◌ ":" t) (append_nil b)

module _ (c : Crypto) (h : IsCrypto c) where
  compared :
      (password key salt : String)
      → matches_key c password salt (some key) ≡ true
      → (c.byte_length (c.from_hex key) ≡ c.byte_length (c.scrypt password salt))
        × (c.timing_safe_equal (c.from_hex key) (c.scrypt password salt) ≡ true)
  compared password key salt m = ground arith

  comparing :
      (password key salt : String)
      → is_empty salt ≡ false
      → is_empty key ≡ false
      → c.byte_length (c.from_hex key) ≡ c.byte_length (c.scrypt password salt)
      → c.timing_safe_equal (c.from_hex key) (c.scrypt password salt) ≡ true
      → matches_key c password salt (some key) ≡ true
  comparing password key salt full full' l m = ground arith

  matches_iff :
      (password key salt : String) (b : c.Bytes)
      → is_empty salt ≡ false
      → is_empty key ≡ false
      → c.from_hex key ≡ b
      → (matches_key c password salt (some key) ≡ true) ↔ (c.scrypt password salt ≡ b)
  matches_iff password key salt b full full' e = (
    λ m.
        let (same, equal) = compared password key salt m in
        sym ((h.timing_safe_equal-iff (c.from_hex key) (c.scrypt password salt) same).0 equal) ∙ e,
    λ d.
        let same = e ∙ sym d in
        let length' = ap c.byte_length same in
        comparing password key salt full full' length'
          ((h.timing_safe_equal-iff (c.from_hex key) (c.scrypt password salt) length').1 same),
  )

  -- A stored password accepts exactly the passwords that derive the key that it was stored with: the
  -- password itself, and no other unless scrypt gives both the same key for the salt.
  pub verify-hash :
      (password other : String) (n : ℕ)
      → (verify c other (hash c password n) ≡ true)
        ↔ (c.scrypt other (c.random_hex n) ≡ c.scrypt password (c.random_hex n))
  unfolding verify hash
  verify-hash password other n =
      let salt = c.random_hex n in
      let key = c.to_hex (c.scrypt password salt) in
      let ls = Lacks-code salt 58 refl (h.random_text n).1 in
      let lk = Lacks-code key 58 refl (h.key_text password salt).1 in
      rw
        (
          colon-append key,
          first_of_two 58 ":" refl salt key ls lk,
          second_of_two 58 ":" refl salt key ls lk,
        )
        (matches_iff other key salt (c.scrypt password salt) (h.random_text n).0
          (h.key_text password salt).0 (h.from_hex-to_hex (c.scrypt password salt)))
