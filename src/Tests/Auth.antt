-- ===== src/Tests/Auth.antt =====
-- Runs of the authentication code with a toy cryptography, and of the deployment registry.
use a2a_verification_network.Prelude.{
  ℕ, suc, ◌≡◌, ◌↔◌, refl, true, ◌==◌, List, [], ◌∷◌, none, some, String, ◌<>◌, all_digits,
  all_codes, includes, str_eq, arith, before_code, second_piece,
}
use a2a_verification_network.Decimal.{
  to_string, parse_stake, parse_stake-to_string, all_digits-to_string, is_empty-to_string,
}
use a2a_verification_network.Auth.Crypto.{JwtPayload, Crypto, IsCrypto, is_hex}
use a2a_verification_network.Auth.RefreshTokens.{
  Expiry, Tokens, rotate, rotated, already_revoked, use_all, revoking, rotating, issue_token_pair,
}
use a2a_verification_network.Auth.RefreshTokens.Rotation.{rotate-rotate}
use a2a_verification_network.Auth.Passwords.{hash, verify}
use a2a_verification_network.Auth.Passwords.Verifying.{verify-hash}
use a2a_verification_network.Auth.Csrf.{
  use_middleware, issued, passed, csrf_cookie, extract_cookie, header_text, signed, issue_token,
}
use a2a_verification_network.Auth.Csrf.Checking.{use-use_middleware, use_middleware-guards}
use a2a_verification_network.Deployments.{
  Env, Pin, parsed, unreadable, DeploymentRegistry, registry, registry_of, resolve_deployments,
}
use a2a_verification_network.Deployments.Sources.{IsConfigured, resolve_deployments-IsConfigured}

size : String → ℕ
size String.[] = 0
size (String.◌∷◌ c s) = suc (size s)

abbrev payload : JwtPayload
payload = record { sub = "u"; address = "a"; role = "admin" }

-- Keys are the lengths of the passwords, buffers are numbers, and hexadecimal is decimal.
abbrev crypto : Crypto
crypto = record {
  sign = λ p jti expiry now. p.sub <> expiry;
  verify_token = λ token now. some payload;
  sha256_hex = λ text. text;
  hmac_hex = λ secret text. to_string (size text);
  random_hex = to_string;
  Bytes = ℕ;
  byte_length = λ b. 1;
  from_hex = parse_stake;
  to_hex = to_string;
  scrypt = λ password salt. size password;
  timing_safe_equal = λ a b. a == b;
  units = size;
}

hex_digits : (s : String) → all_digits s ≡ true → all_codes is_hex s ≡ true
unfolding all_digits all_codes
hex_digits String.[] h = refl
hex_digits (String.◌∷◌ c s) h = ground (arith, hex_digits s)

crypto-IsCrypto : IsCrypto crypto
crypto-IsCrypto = record {
  random_text = λ n. (is_empty-to_string n, hex_digits (to_string n) (all_digits-to_string n));
  hmac_text = λ secret text. (
    is_empty-to_string (size text),
    hex_digits (to_string (size text)) (all_digits-to_string (size text)),
  );
  key_text = λ password salt. (
    is_empty-to_string (size password),
    hex_digits (to_string (size password)) (all_digits-to_string (size password)),
  );
  from_hex-to_hex = parse_stake-to_string;
  timing_safe_equal-iff = λ a b h. (λ e. ground arith, λ e. ground arith);
}

verify-hash_example :
    (verify crypto "secret" (hash crypto "secret" 7) ≡ true)
    ↔ (crypto.scrypt "secret" (to_string 7) ≡ crypto.scrypt "secret" (to_string 7))
verify-hash_example = verify-hash crypto crypto-IsCrypto "secret" "secret" 7

abbrev expiry : Expiry
expiry = record { access = "1h"; refresh = "7d" }

abbrev fresh : Tokens
fresh = record { revoked = []; drawn = 0 }

first :
    (rotate crypto expiry "token" 5 fresh).0
    ≡ rotated (issue_token_pair crypto expiry payload 5 fresh).0
unfolding rotate issue_token_pair
first = refl

rotate-rotate_example :
    let t =
      use_all crypto expiry
        (revoking "other" ∷ rotating "next" 8 ∷ [])
        (rotate crypto expiry "token" 5 fresh).1 in
    rotate crypto expiry "token" 9 t ≡ (already_revoked, t)
rotate-rotate_example =
    rotate-rotate crypto expiry "token" 5 9 fresh (revoking "other" ∷ rotating "next" 8 ∷ []) first

abbrev token : String
token = "3.1"

given : use_middleware crypto "secret" "GET" none none 3 ≡ issued token
unfolding use_middleware issue_token includes to_string size
given = refl

use-use_middleware_example :
    use_middleware crypto "secret" "POST" (some token) (some "csrf-token=3.1") 4 ≡ passed
unfolding includes str_eq
use-use_middleware_example =
    use-use_middleware crypto crypto-IsCrypto "secret" 3 "GET" "POST" none none 4 refl given

use_middleware-guards_example :
    (t : String) × (some token ≡ some t)
    × (extract_cookie (header_text (some "csrf-token=3.1")) csrf_cookie ≡ some t)
    × (signed crypto "secret" (before_code 46 t) (second_piece 46 t) ≡ true)
unfolding includes str_eq
use_middleware-guards_example =
    use_middleware-guards crypto "secret" "POST" (some token) (some "csrf-token=3.1") 4 refl
      use-use_middleware_example

-- A real network with three pinned addresses, and the fourth from the environment.
abbrev env : Env
env = record {
  chain_id = some "97";
  validator_registry_address = some "0x1";
  policy_registry_address = none;
  verdict_registry_address = none;
  slashing_rewards_address = none;
  blockchain_confirmations = none;
  prom_testnet_explorer_url = none;
}

abbrev pins : List Pin
pins =
    unreadable
    ∷ parsed 97 (
        ("ValidatorRegistry", some "0x5")
        ∷ ("PolicyRegistry", some "0x2")
        ∷ ("VerdictRegistry", some "0x3")
        ∷ ("SlashingRewards", some "0x4")
        ∷ [])
    ∷ []

abbrev started : DeploymentRegistry
started = registry_of parse_stake env pins

resolves : resolve_deployments parse_stake env pins ≡ registry started
unfolding resolve_deployments str_eq parse_stake
resolves = refl

resolve_deployments-IsConfigured_example : IsConfigured parse_stake env pins started
unfolding parse_stake
resolve_deployments-IsConfigured_example =
    resolve_deployments-IsConfigured parse_stake env pins started refl resolves
