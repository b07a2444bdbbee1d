-- ===== src/Prelude/Split.antt =====
-- Cutting a text at a character, by its code.
use Prim.Native.Char.{Char, code}
use Prim.Native.Nat.{ℕ}
use Prim.Native.String.{String, ◌++◌}
use Prim.Native.String.append as Append
use mathlib.Core.Path.{◌≡◌, refl}
use mathlib.Core.Bool.{Bool, true, not}
use mathlib.Core.Option.{Option, none, some}
use mathlib.Core.List.{List, [], ◌∷◌}
use native.Mathlib.Omega.{arith}
use a2a_verification_network.Prelude.Tests.{◌==◌, if◌then◌else◌}
use a2a_verification_network.Prelude.Text.{all_codes}

abbrev pub any_code : (ℕ → Bool) → String → Bool
any_code p s = not (all_codes (λ n. not (p n)) s)

-- `s.split(…)[0]`, for a separator of one character.
unfoldable pub before_code : ℕ → String → String
before_code k String.[] = String.[]
before_code k (String.◌∷◌ c s) =
    let rest = before_code k s in if code c == k then String.[] else String.◌∷◌ c rest

-- What follows the first separator.
unfoldable pub after_code : ℕ → String → Option String
after_code k String.[] = none
after_code k (String.◌∷◌ c s) = let rest = after_code k s in if code c == k then some s else rest

abbrev piece_of : ℕ → Option String → Option String
piece_of k none = none
piece_of k (some s) = some (before_code k s)

-- `s.split(…)[1]`
unfoldable pub second_piece : ℕ → String → Option String
unfolding before_code after_code
second_piece k s = piece_of k (after_code k s)

abbrev onto : Char → List String → List String
onto c [] = String.◌∷◌ c String.[] ∷ []
onto c (w ∷ ws) = String.◌∷◌ c w ∷ ws

-- `s.split(…)`
unfoldable pub split_on : ℕ → String → List String
split_on k String.[] = String.[] ∷ []
split_on k (String.◌∷◌ c s) =
    let rest = split_on k s in if code c == k then String.[] ∷ rest else onto c rest

pub append_nil : (t : String) → String.[] ++ t ≡ t
append_nil t = λ i. Append.nil t i

pub append_cons : (c : Char) (s t : String) → String.◌∷◌ c s ++ t ≡ String.◌∷◌ c (s ++ t)
append_cons c s t = λ i. Append.cons c s t i

-- A text without the separator.
abbrev pub Lacks : ℕ → String → Type 0
Lacks k s = all_codes (λ n. not (n == k)) s ≡ true

module _ (k : ℕ) where
  pub before_code-append :
      (c : Char) (a b : String) → Lacks k a → code c ≡ k → before_code k (a ++ String.◌∷◌ c b) ≡ a
  unfolding before_code all_codes
  before_code-append c String.[] b h e = rw append_nil (ground arith)
  before_code-append c (String.◌∷◌ d a) b h e =
      rw append_cons (ground (arith, before_code-append c a b))

  pub after_code-append :
      (c : Char) (a b : String)
      → Lacks k a
      → code c ≡ k
      → after_code k (a ++ String.◌∷◌ c b) ≡ some b
  unfolding after_code all_codes
  after_code-append c String.[] b h e = rw append_nil (ground arith)
  after_code-append c (String.◌∷◌ d a) b h e =
      rw append_cons (ground (arith, after_code-append c a b))

  pub before_code_lacking : (a : String) → Lacks k a → before_code k a ≡ a
  unfolding before_code all_codes
  before_code_lacking String.[] h = refl
  before_code_lacking (String.◌∷◌ d a) h = ground (arith, before_code_lacking a)

  pub split_on_lacking : (a : String) → Lacks k a → split_on k a ≡ a ∷ []
  unfolding split_on all_codes
  split_on_lacking String.[] h = refl
  split_on_lacking (String.◌∷◌ d a) h = ground (arith, split_on_lacking a)

pub all_codes-append :
    (p : ℕ → Bool) (a b : String)
    → all_codes p a ≡ true
    → all_codes p b ≡ true
    → all_codes p (a ++ b) ≡ true
unfolding all_codes
all_codes-append p String.[] b h k = rw append_nil k
all_codes-append p (String.◌∷◌ c a) b h k = rw append_cons (ground (arith, all_codes-append p a b))

pub all_codes_mono :
    (p r : ℕ → Bool) (a : String)
    → ((n : ℕ) → p n ≡ true → r n ≡ true)
    → all_codes p a ≡ true
    → all_codes r a ≡ true
unfolding all_codes
all_codes_mono p r String.[] f h = refl
all_codes_mono p r (String.◌∷◌ c a) f h = ground (arith, f (code c), all_codes_mono p r a f)
