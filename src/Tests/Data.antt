-- ===== src/Tests/Data.antt =====
-- The concrete configuration, environment and database rows of the runs in the sibling modules: a
-- committee of three validators `a`, `b` and `c`, whose signatures are their addresses.
use a2a_verification_network.Prelude.{
  compare, ℕ, ◌+◌, ◌*◌, ◌-◌, min, max, true, List, [], ◌∷◌, Option, none, some, String, ◌<>◌,
}
use a2a_verification_network.Decimal.{to_string}
use a2a_verification_network.External.{Config, External}
use a2a_verification_network.Validators.Tiers.{pos}
use a2a_verification_network.Store.Entities.{
  Store, VerificationJob, assigned, commit_reveal, VerdictCommitment, Validator, bronze,
  VerdictOutcome, SlashingProposal, proposed, Dispute, DisputeStatus, DisputeOutcome, overturned,
  DisputeAppeal, AppealStatus, AppealDecision,
}

abbrev pub config : Config
config = record {
  min_stake_wei = 100;
  slashing_enabled = true;
  slashing_fraction_bps = pos 1000;
  commit_phase_seconds = 60;
  reveal_phase_seconds = 60;
  appeal_window_hours = 24;
  appeal_panel_multiplier = 2;
  appeal_voting_hours = 24;
  half_life_days = 30;
  dispute_max_evidence = 20;
  job_queue_fee_unit_wei = "1000";
  job_queue_aging_seconds = "60";
  neutral_score = "0.5";
  jwt_expires_in = "1h";
  jwt_refresh_expires_in = "7d";
}

-- An environment that hashes by joining texts and takes a signature for the signer's address.
abbrev pub world : External
world = record {
  config = config;
  generate = λ n. to_string n;
  clock = 1000;
  packed_keccak = λ job validator outcome salt. job <> validator <> outcome <> salt;
  verify_bytes = λ hash signature. some signature;
  verify_message = λ text signature. some signature;
  is_uuid = λ text. true;
  sha256_48 = λ text. 7;
  race_key = λ bits weight. bits - weight;
  Buffer = String;
  byte_length = λ b. 3;
  from_base64 = λ text. text;
  to_base64 = λ b. b;
  is_base64 = λ text. true;
  units = λ text. 4;
  sha256_hex = λ b. b;
  locale_le = λ a b. true;
  Number = ℕ;
  number = λ text. 1;
  of_ℕ = λ n. n;
  add = λ a b. a + b;
  sub = λ a b. a - b;
  mul = λ a b. a * b;
  div = λ a b. a;
  pow = λ a b. 1;
  math_min = min;
  math_max = max;
  number_compare = compare;
  is_finite = λ n. true;
  truthy = λ n. true;
  to_fixed = λ n digits. "1.0000";
  queued_before = λ unit aging a b. true;
}

abbrev pub job : VerificationJob
job = record {
  id = "j";
  session_id = "s";
  request_hash = "request";
  result_hash = "result";
  policy_id = "p";
  artifacts_ref = none;
  status = assigned;
  assigned_validators = "a" ∷ "b" ∷ "c" ∷ [];
  submitted_at = 0;
  completed_at = none;
  verdict_mode = commit_reveal;
  fee = "0";
  commit_deadline = some 100;
  reveal_deadline = some 200;
}

abbrev pub member : String → Validator
member id = record {
  id = id;
  address = id;
  public_key = "key";
  stake = "150";
  tier = bronze;
  endpoint = "http";
  capabilities = [];
  is_active = true;
  registered_at = 0;
}

-- A commitment that waits for its reveal, or that was revealed at time 120.
abbrev pub commitment_of : String → String → Option VerdictOutcome → VerdictCommitment
commitment_of id hash none = record {
  id = id;
  job_id = "j";
  validator_id = id;
  commit_hash = hash;
  outcome = none;
  salt = none;
  committed_at = 50;
  revealed_at = none;
}
commitment_of id hash (some outcome) = record {
  id = id;
  job_id = "j";
  validator_id = id;
  commit_hash = hash;
  outcome = some outcome;
  salt = some "salt";
  committed_at = 50;
  revealed_at = some 120;
}

abbrev pub store_of : VerificationJob → List VerdictCommitment → Store
store_of j commitments = record {
  jobs = j ∷ [];
  verdicts = [];
  commitments = commitments;
  validators = member "a" ∷ member "b" ∷ member "c" ∷ [];
  proposals = [];
  disputes = [];
  appeals = [];
  votes = [];
  evidence = [];
  scores = [];
  policies = [];
  sequence = 0;
}

-- A proposal to take a tenth of the stake of 200 that the validator had.
abbrev pub proposal_of : String → String → SlashingProposal
proposal_of id validator_id = record {
  id = id;
  validator_id = validator_id;
  dispute_id = "d";
  session_id = "s";
  verdict_id = "v";
  reason = "overturned";
  stake_at_proposal = "200";
  amount = "20";
  status = proposed;
  created_at = 0;
  decided_at = none;
  decided_by = none;
  decision_note = none;
}

abbrev pub dispute_of : DisputeStatus → Option DisputeOutcome → Dispute
dispute_of status outcome = record {
  id = "d";
  session_id = "s";
  reason = "wrong";
  initiator = "client";
  status = status;
  resolution = none;
  outcome = outcome;
  opened_at = 0;
  resolved_at = none;
}

-- An appeal to a panel of seven.
abbrev pub appeal_of : AppealStatus → Option AppealDecision → DisputeAppeal
appeal_of status decision = record {
  id = "e";
  dispute_id = "d";
  appellant = "agent";
  reason = "unfair";
  original_outcome = overturned;
  panel = "a" ∷ "b" ∷ "c" ∷ "m" ∷ "n" ∷ "o" ∷ "p" ∷ [];
  quorum = 5;
  status = status;
  decision = decision;
  opened_at = 0;
  voting_deadline = 500;
  decided_at = none;
}
