-- ===== src/CommitReveal/Service.antt =====
-- commit-reveal.service.ts. `now` is the time of the request; `tx` is the outcome of the on-chain part
-- of publishing a verdict.
use a2a_verification_network.Prelude.{
  ℕ, Bool, true, false, not, ◌&&◌, ◌||◌, List, [], ◌∷◌, Option, none, some, String, ltb, leb,
  length, all, any, filter, map, find?, is_some, is_empty, str_eq, includes, to_lower,
  if◌then◌else◌,
}
use a2a_verification_network.External.{External}
use a2a_verification_network.Jobs
use a2a_verification_network.Jobs.{is_final, is_commit_reveal}
use a2a_verification_network.Reputation.Service.{record_for_validators}
use a2a_verification_network.Validators.Service
use a2a_verification_network.Verdicts.{create_and_publish}
use a2a_verification_network.Store.Entities.{
  VerificationJob, VerdictCommitment, VerdictOutcome, JobStatus, completed, failed, same_commitment,
}
use a2a_verification_network.Store.Queries.{Queries}
use a2a_verification_network.Store.Monad.{
  M, ◌>>=◌, ◌>>◌, return, throw_if, or_throw, when, find_by, insert, save, commitments, bad_request,
  forbidden, conflict, not_found,
}
use a2a_verification_network.CommitReveal.Tally.{
  Tally, RevealedVote, tally_reveals, compute_commit_hash, recover_commit_signer, same_outcome,
}

pub record CommitVerdictDto : Type 0 where
  pub validator_id : String
  pub commit_hash : String
  pub signature : String

pub record RevealVerdictDto : Type 0 where
  pub validator_id : String
  pub outcome : VerdictOutcome
  pub salt : String

pub data Phase : Type 0 where
  committing revealing finalized : Phase

abbrev pub is_committing : Phase → Bool
is_committing committing = true
is_committing _ = false

abbrev pub is_revealing : Phase → Bool
is_revealing revealing = true
is_revealing _ = false

abbrev pub is_finalized : Phase → Bool
is_finalized finalized = true
is_finalized _ = false

pub record CommitmentView : Type 0 where
  pub validator_id : String
  pub committed_at : ℕ
  pub revealed : Bool
  pub outcome : Option VerdictOutcome
  pub revealed_at : Option ℕ

pub record RoundStatus : Type 0 where
  pub job_id : String
  pub phase : Phase
  pub job_status : JobStatus
  pub committee : List String
  pub commit_deadline : Option ℕ
  pub reveal_deadline : Option ℕ
  pub commitments : List CommitmentView
  pub tally : Tally

-- `!!deadline && now > deadline`
abbrev pub has_passed : Option ℕ → ℕ → Bool
has_passed none now = false
has_passed (some deadline) now = ltb deadline now

unfoldable pub phase_of : VerificationJob → List VerdictCommitment → ℕ → Phase
phase_of job commitments now =
    if is_final job.status
    then finalized
    else if leb (length job.assigned_validators) (length commitments)
        || has_passed job.commit_deadline now
    then revealing
    else committing

abbrev pub all_revealed : List VerdictCommitment → Bool
all_revealed = all λ c. is_some c.revealed_at

-- A revealed commitment's vote. A commitment with no outcome has none.
abbrev pub vote_of :
    Option ℕ → Option VerdictOutcome → String → List RevealedVote → List RevealedVote
vote_of (some t) (some o) id rest = record { validator_id = id; outcome = o } ∷ rest
vote_of (some t) none id rest = rest
vote_of none o id rest = rest

abbrev pub votes_of : List VerdictCommitment → List RevealedVote
votes_of [] = []
votes_of (c ∷ cs) = vote_of c.revealed_at c.outcome c.validator_id (votes_of cs)

unfoldable pub tally : VerificationJob → List VerdictCommitment → Tally
unfolding tally_reveals
tally job cs = tally_reveals (votes_of cs) (length job.assigned_validators)

abbrev pub view : VerdictCommitment → CommitmentView
view c = record {
  validator_id = c.validator_id;
  committed_at = c.committed_at;
  revealed = is_some c.revealed_at;
  outcome = c.outcome;
  revealed_at = c.revealed_at;
}

-- `c.outcome !== outcome`
abbrev pub differs : Option VerdictOutcome → VerdictOutcome → Bool
differs none o = true
differs (some v) o = not (same_outcome v o)

abbrev pub dissenters_of : VerdictOutcome → List VerdictCommitment → List String
dissenters_of o cs =
    map (λ c. c.validator_id) (filter (λ c. is_some c.revealed_at && differs c.outcome o) cs)

-- The answer of `status`.
abbrev pub round_status : String → ℕ → VerificationJob → List VerdictCommitment → RoundStatus
round_status job_id now job cs = record {
  job_id = job_id;
  phase = phase_of job cs now;
  job_status = job.status;
  committee = job.assigned_validators;
  commit_deadline = job.commit_deadline;
  reveal_deadline = job.reveal_deadline;
  commitments = map view cs;
  tally = tally job cs;
}

module _ (q : Queries) (x : External) where
  unfoldable pub load_round : String → M (VerificationJob × List VerdictCommitment)
  unfolding Jobs.find_one
  load_round job_id = do
    job ← Jobs.find_one q x job_id
    throw_if (not (is_commit_reveal job.verdict_mode)) bad_request
    cs ← find_by q commitments (λ c. str_eq c.job_id job_id)
    return (job, cs)

  unfoldable pub status : String → ℕ → M RoundStatus
  unfolding load_round
  status job_id now = do (job, cs) ← load_round job_id; return (round_status job_id now job cs)

  unfoldable pub commit : String → CommitVerdictDto → ℕ → M CommitmentView
  unfolding load_round Service.find_one recover_commit_signer
  commit job_id dto now = do
    (job, cs) ← load_round job_id
    throw_if (not (is_committing (phase_of job cs now))) conflict
    throw_if (not (includes job.assigned_validators dto.validator_id)) forbidden
    throw_if (any (λ c. str_eq c.validator_id dto.validator_id) cs) conflict
    validator ← Service.find_one q x dto.validator_id
    signer ← or_throw bad_request (recover_commit_signer x dto.commit_hash dto.signature)
    throw_if (not (str_eq (to_lower signer) (to_lower validator.address))) forbidden
    saved ← insert q commitments same_commitment λ n. record {
      id = x.generate n;
      job_id = job_id;
      validator_id = dto.validator_id;
      commit_hash = to_lower dto.commit_hash;
      outcome = none;
      salt = none;
      committed_at = x.clock;
      revealed_at = none;
    }
    return (view saved)

  -- The verdict of a round with a majority, the job's last status and the reputation records.
  unfoldable pub publish_majority :
      VerificationJob
      → List VerdictCommitment
      → Tally
      → VerdictOutcome
      → Option String
      → M (Unit {0})
  publish_majority job cs t outcome tx = do
    create_and_publish q x
        (record {
          session_id = job.session_id;
          job_id = job.id;
          outcome = outcome;
          payable_amount = "0";
          meta_hash = if is_empty job.result_hash then job.request_hash else job.result_hash;
          validator_ids = t.supporters;
        })
        tx
    Jobs.update_status q x job.id completed
    record_for_validators x q t.supporters (record { accurate = true; dispute_lost = false })
        x.clock
    record_for_validators x q (dissenters_of outcome cs)
        (record { accurate = false; dispute_lost = false }) x.clock

  unfoldable pub settle_tally :
      VerificationJob
      → List VerdictCommitment
      → Tally
      → Option VerdictOutcome
      → Option String
      → M (Unit {0})
  settle_tally job cs t none tx = do Jobs.update_status q x job.id failed; return tt
  settle_tally job cs t (some outcome) tx = publish_majority job cs t outcome tx

  unfoldable pub settle : VerificationJob → List VerdictCommitment → Option String → M (Unit {0})
  unfolding settle_tally tally
  settle job cs tx = let t = tally job cs in settle_tally job cs t t.outcome tx

  -- The list that `reveal` holds after it has changed the commitment in place.
  abbrev pub revealed_list :
      String → VerdictCommitment → List VerdictCommitment → List VerdictCommitment
  revealed_list id c' [] = []
  revealed_list id c' (c ∷ cs) =
      let rest = revealed_list id c' cs in if str_eq c.validator_id id then c' ∷ cs else c ∷ rest

  -- The guards of `reveal`, which end with the validator's commitment.
  unfoldable pub check_reveal :
      String
      → RevealVerdictDto
      → ℕ
      → M (VerificationJob × List VerdictCommitment × VerdictCommitment)
  unfolding load_round
  check_reveal job_id dto now = do
    (job, cs) ← load_round job_id
    throw_if (is_finalized (phase_of job cs now)) conflict
    throw_if (is_committing (phase_of job cs now)) conflict
    throw_if (has_passed job.reveal_deadline now) conflict
    c ← or_throw not_found (find? (λ c. str_eq c.validator_id dto.validator_id) cs)
    throw_if (is_some c.revealed_at) conflict
    let expected = compute_commit_hash x job_id dto.validator_id dto.outcome dto.salt
    throw_if (not (str_eq (to_lower expected) (to_lower c.commit_hash))) bad_request
    return (job, cs, c)

  -- The commitment with the vote in it.
  abbrev pub opened : RevealVerdictDto → ℕ → VerdictCommitment → VerdictCommitment
  opened dto now c = record c {
    outcome = some dto.outcome;
    salt = some (to_lower dto.salt);
    revealed_at = some now;
  }

  unfoldable pub reveal : String → RevealVerdictDto → ℕ → Option String → M RoundStatus
  reveal job_id dto now tx = do
    (job, cs, c) ← check_reveal job_id dto now
    save q commitments (λ r. str_eq r.id c.id) (opened dto now c)
    let cs' = revealed_list dto.validator_id (opened dto now c) cs
    when (all_revealed cs') (settle job cs' tx)
    status job_id now

  -- The guards of `finalize`: the round, and whether it has to be settled.
  unfoldable pub check_finalize : String → ℕ → M (VerificationJob × List VerdictCommitment × Bool)
  unfolding load_round
  check_finalize job_id now = do
    (job, cs) ← load_round job_id
    let phase = phase_of job cs now
    throw_if (is_committing phase) conflict
    throw_if
        (is_revealing phase && not (all_revealed cs) && not (has_passed job.reveal_deadline now))
        conflict
    return (job, cs, is_revealing phase)

  unfoldable pub finalize : String → ℕ → Option String → M RoundStatus
  finalize job_id now tx = do
    (job, cs, unsettled) ← check_finalize job_id now
    when unsettled (settle job cs tx)
    status job_id now
