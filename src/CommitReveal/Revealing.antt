-- ===== src/CommitReveal/Revealing.antt =====
-- The reveal phase: what a reveal needs of the job and of the commitment.
use a2a_verification_network.Prelude.{
  Option-cases, inl, inr, ℕ, ◌≡◌, true, false, Option, none, some, String, str_eq, find?, to_lower,
  arith, is_some,
}
use a2a_verification_network.External.{External}
use a2a_verification_network.Store.Entities.{Store, VerificationJob, VerdictCommitment}
use a2a_verification_network.Store.Queries.{reference}
use a2a_verification_network.Jobs.{is_commit_reveal}
use a2a_verification_network.Store.Monad.{is_ok, ok}
use a2a_verification_network.CommitReveal.Tally.{compute_commit_hash}
use a2a_verification_network.CommitReveal.Service.{
  RevealVerdictDto, revealing, phase_of, check_reveal, has_passed,
}
use a2a_verification_network.Jobs.Laws.{job_row}
use a2a_verification_network.CommitReveal.Committing.{round_rows}

-- The commitment that `reveal` opens.
abbrev pub own_row : String → String → Store → Option VerdictCommitment
own_row job_id validator_id s =
    find? (λ c. str_eq c.validator_id validator_id) (round_rows job_id s)

-- What a reveal needs of the job and of the validator's commitment.
pub record MayReveal (x : External) (job_id : String) (dto : RevealVerdictDto) (now : ℕ) (s : Store)
    (job : VerificationJob) (c : VerdictCommitment) : Type 0 where
  pub in_mode : is_commit_reveal job.verdict_mode ≡ true
  pub in_phase : phase_of job (round_rows job_id s) now ≡ revealing
  pub in_time : has_passed job.reveal_deadline now ≡ false
  pub own : own_row job_id dto.validator_id s ≡ some c
  pub unopened : is_some c.revealed_at ≡ false
  pub binding :
      str_eq
        (to_lower (compute_commit_hash x job_id dto.validator_id dto.outcome dto.salt))
        (to_lower c.commit_hash)
      ≡ true

module _ (x : External) (job_id : String) (dto : RevealVerdictDto) (now : ℕ) (s : Store) where
  pub check_reveal_ok :
      {job : VerificationJob} {c : VerdictCommitment}
      → job_row job_id s ≡ some job
      → MayReveal x job_id dto now s job c
      → check_reveal reference x job_id dto now s ≡ ok (job, round_rows job_id s, c) s
  unfolding check_reveal
  check_reveal_ok found m =
      rw (found, m.in_mode, m.in_phase, m.in_time, m.own, m.unopened, m.binding, check_reveal)

  check_reveal_missing :
      {job : VerificationJob}
      → job_row job_id s ≡ some job
      → own_row job_id dto.validator_id s ≡ none
      → is_ok (check_reveal reference x job_id dto now s) ≡ false
  unfolding check_reveal
  check_reveal_missing {job} found missing = ground arith

  pub check_reveal_guards :
      {job : VerificationJob}
      → job_row job_id s ≡ some job
      → is_ok (check_reveal reference x job_id dto now s) ≡ true
      → (c : VerdictCommitment) × MayReveal x job_id dto now s job c
  unfolding check_reveal
  check_reveal_guards {job} found e = elim (Option-cases (own_row job_id dto.validator_id s)) [
    | inl missing ↦ absurd (cc (check_reveal_missing found missing, e))
    | inr (c, own) ↦ (c, ground arith)
  ]
