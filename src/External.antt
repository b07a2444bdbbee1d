-- ===== src/External.antt =====
-- What the services call and the repository does not implement: cryptography (ethers, node:crypto),
-- the double arithmetic of the runtime, generated ids, the clock, and the configuration's values.
use a2a_verification_network.Prelude.{ℕ, Bool, Option, String, Ordering}
use a2a_verification_network.Store.Entities.{VerificationJob}
use a2a_verification_network.Validators.Tiers.{ℤ}

-- `ConfigService`, after the `Number(…)` that each caller applies, at whole values.
pub record Config : Type 0 where
  pub min_stake_wei : ℕ
  pub slashing_enabled : Bool
  pub slashing_fraction_bps : ℤ
  pub commit_phase_seconds : ℕ
  pub reveal_phase_seconds : ℕ
  pub appeal_window_hours : ℕ
  pub appeal_panel_multiplier : ℕ
  pub appeal_voting_hours : ℕ
  pub half_life_days : ℕ
  pub dispute_max_evidence : ℕ
  -- Texts: the fee unit and the aging interval are validated by the job queue, the rest are numbers.
  pub job_queue_fee_unit_wei : String
  pub job_queue_aging_seconds : String
  pub neutral_score : String
  pub jwt_expires_in : String
  pub jwt_refresh_expires_in : String

pub record External : Type 1 where
  pub config : Config
  -- The id that the database generates for its n-th row.
  pub generate : ℕ → String
  -- `Date.now()` during the request.
  pub clock : ℕ
  -- `ethers.solidityPackedKeccak256(['string', 'string', 'string', 'bytes32'], …)`
  pub packed_keccak : String → String → String → String → String
  -- `ethers.verifyMessage(ethers.getBytes(hash), signature)`; `none` is an exception.
  pub verify_bytes : String → String → Option String
  -- `ethers.verifyMessage(text, signature)`
  pub verify_message : String → String → Option String
  -- The test of a string against the UUID pattern.
  pub is_uuid : String → Bool
  -- The first 48 bits of `createHash('sha256').update(text).digest()`.
  pub sha256_48 : String → ℕ
  -- The double `-Math.log((value + 1) / (2 ** 48 + 1)) / weight`, by its bit pattern: the bit patterns
  -- of doubles that are not negative are ordered as the doubles are.
  pub race_key : ℕ → ℕ → ℕ
  -- `Buffer`, with its `length`; `Buffer.from(text, 'base64')` and `toString('base64')`.
  pub Buffer : Type 0
  pub byte_length : Buffer → ℕ
  pub from_base64 : String → Buffer
  pub to_base64 : Buffer → String
  -- The test of a string against `/^[A-Za-z0-9+/]*={0,2}$/`.
  pub is_base64 : String → Bool
  -- The length of a string in UTF-16 code units.
  pub units : String → ℕ
  -- `createHash('sha256').update(content).digest('hex')`
  pub sha256_hex : Buffer → String
  -- Whether `a.localeCompare(b) <= 0`.
  pub locale_le : String → String → Bool
  -- The double numbers and the operations on them that the reputation code uses.
  pub Number : Type 0
  pub number : String → Number
  pub of_ℕ : ℕ → Number
  pub add : Number → Number → Number
  pub sub : Number → Number → Number
  pub mul : Number → Number → Number
  pub div : Number → Number → Number
  pub pow : Number → Number → Number
  pub math_min : Number → Number → Number
  pub math_max : Number → Number → Number
  -- The sign of `a - b`, which is `eq` where the difference is 0 or NaN, and `Number.isFinite`.
  pub number_compare : Number → Number → Ordering
  pub is_finite : Number → Bool
  pub truthy : Number → Bool
  pub to_fixed : Number → ℕ → String
  -- The `ORDER BY` of `findPendingByPriority`, which the database evaluates: whether a job comes before
  -- another or beside it, for a fee unit and an aging interval.
  pub queued_before : ℕ → Option Number → VerificationJob → VerificationJob → Bool
