-- ===== src/Decimal.antt =====
-- Amounts in wei as decimal strings: parseStake and parseFee, which are the same code
-- (src/modules/validators/staking-tiers.ts, src/modules/jobs/priority.ts), and `toString`.
use Prim.Native.Char.{Char, code}
use Prim.Native.String.{String}
use a2a_verification_network.Prelude.{
  ℕ, zero, suc, ◌+◌, ◌-◌, ◌*◌, ◌/◌, ◌%◌, ◌<◌, ◌≡◌, refl, true, false, not, ◌&&◌, ltb, if◌then◌else◌,
  arith, trim, before_dot, all_digits, is_empty, trim_digits, before_dot_digits,
}

-- `BigInt(s)` on a text of digits, after a prefix that stands for `acc`.
unfoldable pub value : ℕ → String → ℕ
value acc String.[] = acc
value acc (String.◌∷◌ c s) = value (acc * 10 + (code c - 48)) s

-- `/^\d+$/.test(s) ? BigInt(s) : 0n`
digits_or_zero : String → ℕ
unfolding value
digits_or_zero s = if not (is_empty s) && all_digits s then value 0 s else 0

-- A stake as stored or submitted; the empty text and anything malformed count as 0.
unfoldable pub parse_stake : String → ℕ
unfolding digits_or_zero trim before_dot all_digits
parse_stake stake = if is_empty stake then 0 else digits_or_zero (before_dot (trim stake))

-- A fee is read the same way.
unfoldable pub parse_fee : String → ℕ
unfolding digits_or_zero trim before_dot all_digits
parse_fee fee = if is_empty fee then 0 else digits_or_zero (before_dot (trim fee))

digit_char : ℕ → Char
digit_char zero = "0"
digit_char (suc zero) = "1"
digit_char (suc (suc zero)) = "2"
digit_char (suc (suc (suc zero))) = "3"
digit_char (suc (suc (suc (suc zero)))) = "4"
digit_char (suc (suc (suc (suc (suc zero))))) = "5"
digit_char (suc (suc (suc (suc (suc (suc zero)))))) = "6"
digit_char (suc (suc (suc (suc (suc (suc (suc zero))))))) = "7"
digit_char (suc (suc (suc (suc (suc (suc (suc (suc zero)))))))) = "8"
digit_char _ = "9"

-- The digits of `n` before `rest`; `n + 1` rounds of fuel are enough, since `n / 10` falls.
digits_onto : ℕ → ℕ → String → String
unfolding digit_char
digits_onto zero n rest = rest
digits_onto (suc f) n rest =
    let more = digits_onto f (n / 10) (String.◌∷◌ (digit_char (n % 10)) rest) in
    if ltb n 10 then String.◌∷◌ (digit_char n) rest else more

-- `n.toString()` on a bigint.
unfoldable pub to_string : ℕ → String
unfolding digits_onto
to_string n = digits_onto (suc n) n String.[]

code-digit_char : (d : ℕ) → d < 10 → code (digit_char d) ≡ d + 48
unfolding digit_char
code-digit_char zero h = refl
code-digit_char (suc zero) h = refl
code-digit_char (suc (suc zero)) h = refl
code-digit_char (suc (suc (suc zero))) h = refl
code-digit_char (suc (suc (suc (suc zero)))) h = refl
code-digit_char (suc (suc (suc (suc (suc zero))))) h = refl
code-digit_char (suc (suc (suc (suc (suc (suc zero)))))) h = refl
code-digit_char (suc (suc (suc (suc (suc (suc (suc zero))))))) h = refl
code-digit_char (suc (suc (suc (suc (suc (suc (suc (suc zero)))))))) h = refl
code-digit_char (suc (suc (suc (suc (suc (suc (suc (suc (suc zero))))))))) h = refl
code-digit_char (suc (suc (suc (suc (suc (suc (suc (suc (suc (suc d)))))))))) h =
    absurd (omega arith)

value-digits_onto :
    (f n : ℕ) (rest : String) → n < f → value 0 (digits_onto f n rest) ≡ value n rest
unfolding value digits_onto
value-digits_onto zero n rest h = absurd (omega arith)
value-digits_onto (suc f) n rest h = ground (
  arith,
  code-digit_char n,
  code-digit_char (n % 10),
  value-digits_onto f (n / 10) (String.◌∷◌ (digit_char (n % 10)) rest),
)

all_digits-digits_onto :
    (f n : ℕ) (rest : String) → all_digits rest ≡ true → all_digits (digits_onto f n rest) ≡ true
unfolding all_digits digits_onto
all_digits-digits_onto zero n rest h = h
all_digits-digits_onto (suc f) n rest h = ground (
  arith,
  code-digit_char n,
  code-digit_char (n % 10),
  all_digits-digits_onto f (n / 10) (String.◌∷◌ (digit_char (n % 10)) rest),
)

is_empty-digits_onto : (f n : ℕ) (rest : String) → n < f → is_empty (digits_onto f n rest) ≡ false
unfolding digits_onto
is_empty-digits_onto zero n rest h = absurd (omega arith)
is_empty-digits_onto (suc f) n rest h =
    ground (arith, is_empty-digits_onto f (n / 10) (String.◌∷◌ (digit_char (n % 10)) rest))

pub all_digits-to_string : (n : ℕ) → all_digits (to_string n) ≡ true
unfolding to_string all_digits
all_digits-to_string n = all_digits-digits_onto (suc n) n String.[] refl

pub is_empty-to_string : (n : ℕ) → is_empty (to_string n) ≡ false
unfolding to_string
is_empty-to_string n = is_empty-digits_onto (suc n) n String.[] (omega arith)

pub value-to_string : (n : ℕ) → value 0 (to_string n) ≡ n
unfolding to_string value
value-to_string n = value-digits_onto (suc n) n String.[] (omega arith)

digits_or_zero-to_string : (n : ℕ) → digits_or_zero (before_dot (trim (to_string n))) ≡ n
unfolding digits_or_zero
digits_or_zero-to_string n =
    let digits = all_digits-to_string n in
    rw (trim_digits (to_string n) digits, before_dot_digits (to_string n) digits)
      (ground (arith, all_digits-to_string n, is_empty-to_string n, value-to_string n))

-- A stake written by `toString` is read back exactly.
pub parse_stake-to_string : (n : ℕ) → parse_stake (to_string n) ≡ n
unfolding parse_stake
parse_stake-to_string n = ground (arith, is_empty-to_string n, digits_or_zero-to_string n)

-- A fee written by `toString` is read back exactly.
pub parse_fee-to_string : (n : ℕ) → parse_fee (to_string n) ≡ n
unfolding parse_fee
parse_fee-to_string n = ground (arith, is_empty-to_string n, digits_or_zero-to_string n)
