-- ===== src/Auth/Csrf/Checking.antt =====
-- Which requests the CSRF check lets through.
use Prim.Native.Char.{Char}
use a2a_verification_network.Prelude.{
  ℕ, ◌≡◌, refl, sym, ◌∙◌, ap, Bool, true, false, not, ◌==◌, Option, none, some, String, ◌<>◌,
  is_empty, includes, str_eq_iff, str_eq_self, trim_clean, is_space_code, all_codes,
  all_codes-append, all_codes_mono, before_code, second_piece, split_on_lacking, append_cons,
  append_nil, arith,
}
use a2a_verification_network.Auth.Crypto.{Crypto, IsCrypto, is_hex, Lacks-code}
use a2a_verification_network.Auth.Passwords.Verifying.{first_of_two, second_of_two}
use a2a_verification_network.Auth.Csrf.{
  safe_methods, csrf_cookie, issued, passed, extract_cookie, filled, header_text, issue_token,
  signed, verify_token, check, use_middleware,
}

-- A character in front of a text.
one-append : (k : Char) (b : String) → String.◌∷◌ k String.[] <> b ≡ String.◌∷◌ k b
one-append k b = append_cons k String.[] b ∙ ap (λ t. String.◌∷◌ k t) (append_nil b)

is_empty-append : (a b : String) → is_empty a ≡ false → is_empty (a <> b) ≡ false
is_empty-append String.[] b h = absurd (ground arith)
is_empty-append (String.◌∷◌ k a) b h = rw append_cons refl

module _ (c : Crypto) (h : IsCrypto c) (secret : String) (n : ℕ) where
  -- The token as its pieces at the dot.
  token_pieces :
      issue_token c secret n ≡ c.random_hex n <> String.◌∷◌ "." (c.hmac_hex secret (c.random_hex n))
  unfolding issue_token
  token_pieces = ap (λ t. c.random_hex n <> t) (one-append "." (c.hmac_hex secret (c.random_hex n)))

  token_codes :
      (p : ℕ → Bool)
      → ((k : ℕ) → is_hex k ≡ true → p k ≡ true)
      → p 46 ≡ true
      → all_codes p (issue_token c secret n) ≡ true
  unfolding all_codes
  token_codes p f dot = rw token_pieces (
      all_codes-append p (c.random_hex n) (String.◌∷◌ "." (c.hmac_hex secret (c.random_hex n)))
        (all_codes_mono is_hex p (c.random_hex n) f (h.random_text n).1)
        (rw dot (
          all_codes_mono is_hex p (c.hmac_hex secret (c.random_hex n)) f
            (h.hmac_text secret (c.random_hex n)).1)))

  -- What the browser sends back.
  abbrev pub sent_cookie : String
  sent_cookie = csrf_cookie <> ("=" <> issue_token c secret n)

  cookie_pieces : sent_cookie ≡ csrf_cookie <> String.◌∷◌ "=" (issue_token c secret n)
  cookie_pieces = ap (λ t. csrf_cookie <> t) (one-append "=" (issue_token c secret n))

  cookie_codes :
      (p : ℕ → Bool)
      → ((k : ℕ) → is_hex k ≡ true → p k ≡ true)
      → p 46 ≡ true
      → p 61 ≡ true
      → all_codes p csrf_cookie ≡ true
      → all_codes p sent_cookie ≡ true
  unfolding all_codes
  cookie_codes p f dot eq' name = rw cookie_pieces (
      all_codes-append p csrf_cookie (String.◌∷◌ "=" (issue_token c secret n)) name
        (rw eq' (token_codes p f dot)))

  extract_own : extract_cookie sent_cookie csrf_cookie ≡ some (issue_token c secret n)
  unfolding extract_cookie all_codes
  extract_own =
      let lacks = cookie_codes (λ k. not (k == 59)) (λ k e. ground arith) refl refl refl in
      let clean = cookie_codes (λ k. not (is_space_code k)) (λ k e. ground arith) refl refl refl in
      let own = token_codes (λ k. not (k == 61)) (λ k e. ground arith) refl in
      rw (split_on_lacking 59 sent_cookie lacks, trim_clean sent_cookie clean, cookie_pieces)
        (rw
          (
            first_of_two 61 "=" refl csrf_cookie (issue_token c secret n) refl own,
            second_of_two 61 "=" refl csrf_cookie (issue_token c secret n) refl own,
          )
          refl)

  signed_own : signed c secret (c.random_hex n) (some (c.hmac_hex secret (c.random_hex n))) ≡ true
  signed_own =
      let b = c.from_hex (c.hmac_hex secret (c.random_hex n)) in
      ground (
        arith,
        (h.timing_safe_equal-iff b b refl).1 refl,
        (h.random_text n).0,
        (h.hmac_text secret (c.random_hex n)).0,
      )

  verify_own : verify_token c secret (issue_token c secret n) (issue_token c secret n) ≡ true
  unfolding verify_token
  verify_own =
      let a = c.random_hex n in
      let b = c.hmac_hex secret a in
      let la = Lacks-code a 46 refl (h.random_text n).1 in
      let lb = Lacks-code b 46 refl (h.hmac_text secret a).1 in
      rw
        (
          str_eq_self (issue_token c secret n),
          token_pieces,
          first_of_two 46 "." refl a b la lb,
          second_of_two 46 "." refl a b la lb,
        )
        signed_own

  token_filled : filled (some (issue_token c secret n)) ≡ some (issue_token c secret n)
  token_filled =
      rw
        (
          token_pieces,
          is_empty-append (c.random_hex n) (String.◌∷◌ "." (c.hmac_hex secret (c.random_hex n)))
              (h.random_text n).0,
        )
        refl

  issued_token :
      (safe : String) (header cookies : Option String) {t : String}
      → use_middleware c secret safe header cookies n ≡ issued t
      → t ≡ issue_token c secret n
  unfolding use_middleware
  issued_token safe header cookies e = ground arith

  -- A token that a safe request was given lets an unsafe one through that sends it back in the header
  -- and in the cookie.
  pub use-use_middleware :
      (safe unsafe : String) (header cookies : Option String) (m : ℕ) {t : String}
      → includes safe_methods unsafe ≡ false
      → use_middleware c secret safe header cookies n ≡ issued t
      → use_middleware c secret unsafe (some t) (some (csrf_cookie <> ("=" <> t))) m ≡ passed
  unfolding use_middleware
  use-use_middleware safe unsafe header cookies m {t} u e =
      rw
        (issued_token safe header cookies e, u, token_filled, extract_own, token_filled, verify_own)
        refl

module _ (c : Crypto) (secret : String) where
  check_guards :
      (header cookie : Option String)
      → check c secret (filled header) (filled cookie) ≡ passed
      → (t : String) × (header ≡ some t)
        × (cookie ≡ some t)
        × (signed c secret (before_code 46 t) (second_piece 46 t) ≡ true)
  unfolding verify_token
  check_guards none cookie e = absurd (ground arith)
  check_guards (some a) none e = absurd (ground arith)
  check_guards (some a) (some b) e =
      (a, refl, ap some (sym ((str_eq_iff a b).0 (ground arith))), ground arith)

  -- An unsafe request gets through only with a header and a cookie that hold the same token, whose
  -- signature is that of its nonce under the secret.
  pub use_middleware-guards :
      (method : String) (header cookies : Option String) (n : ℕ)
      → includes safe_methods method ≡ false
      → use_middleware c secret method header cookies n ≡ passed
      → (t : String) × (header ≡ some t)
        × (extract_cookie (header_text cookies) csrf_cookie ≡ some t)
        × (signed c secret (before_code 46 t) (second_piece 46 t) ≡ true)
  unfolding use_middleware
  use_middleware-guards method header cookies n u e =
      check_guards header (extract_cookie (header_text cookies) csrf_cookie) (ground arith)
