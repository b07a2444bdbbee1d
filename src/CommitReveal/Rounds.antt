-- ===== src/CommitReveal/Rounds.antt =====
-- What a round promises, over any database that keeps the laws of `Store.Queries`.
use a2a_verification_network.Prelude.{
  ℕ, suc, ◌≡◌, refl, true, false, List, [], ◌∷◌, ◌++◌, Option, none, some, String, arith, any,
  str_eq,
}
use a2a_verification_network.External.{External}
use a2a_verification_network.Jobs.{is_final, with_status}
use a2a_verification_network.Jobs.Laws.{job_row, put_job}
use a2a_verification_network.Store.Entities.{
  Store, VerificationJob, Verdict, VerdictOutcome, pending, commit_reveal, completed, failed,
}
use a2a_verification_network.Store.Queries.{Queries, IsSql, reference, eq-reference}
use a2a_verification_network.Store.Monad.{ok, throw, conflict, query_failed}
use a2a_verification_network.CommitReveal.Service.{
  RevealVerdictDto, RoundStatus, committing, phase_of, tally, check_reveal, reveal, check_finalize,
  finalize, round_status,
}
use a2a_verification_network.CommitReveal.Committing.{round_rows}
use a2a_verification_network.CommitReveal.Finalizing.{
  IsDue, finalize-none, finalize_taken, finalize_won, finalize_ends_at_reference, ended,
  ended_verdicts, ended_commitments, ended_job,
}

-- What a won round leaves: one more verdict, of the session and the job, with the winning outcome and
-- the signatures of its supporters; a completed job; the commitments as they were.
pub record IsPublished (id : String) (s t : Store) (job : VerificationJob)
    (outcome : VerdictOutcome) (signers : List String) : Type 0 where
  pub verdict : Verdict
  pub added : t.verdicts ≡ s.verdicts ++ verdict ∷ []
  pub of_session : verdict.session_id ≡ job.session_id
  pub of_job : verdict.job_id ≡ job.id
  pub with_outcome : verdict.outcome ≡ outcome
  pub with_signers : verdict.signatures ≡ signers
  pub same_commitments : t.commitments ≡ s.commitments

module _ (x : External) (id : String) (now : ℕ) (s : Store) (job : VerificationJob)
    (found : job_row id s ≡ some job) where
  too_early_at_reference :
      (dto : RevealVerdictDto) (tx : Option String)
      → job.verdict_mode ≡ commit_reveal
      → phase_of job (round_rows id s) now ≡ committing
      → (reveal reference x id dto now tx s ≡ throw conflict s)
        × (finalize reference x id now tx s ≡ throw conflict s)
  unfolding reveal finalize check_reveal check_finalize
  too_early_at_reference dto tx mode phase = ground arith

  won_at_reference :
      (outcome : VerdictOutcome) (tx : Option String)
      → IsDue id now s job
      → (tally job (round_rows id s)).outcome ≡ some outcome
      → any (λ v. str_eq job.session_id v.session_id) s.verdicts ≡ false
      → (r : RoundStatus) × (t : Store) × (finalize reference x id now tx s ≡ ok r t)
        × IsPublished id s t job outcome (tally job (round_rows id s)).supporters
        × (job_row id t ≡ some (with_status reference x completed job))
  won_at_reference outcome tx d won free = (
    round_status id now (with_status reference x completed job)
        (round_rows id (ended x id now s job found outcome tx d won)),
    ended x id now s job found outcome tx d won,
    finalize_won x id now s job found outcome tx d won free,
    record {
      verdict = _;
      added = ended_verdicts x id now s job found outcome tx d won;
      of_session = refl;
      of_job = refl;
      with_outcome = refl;
      with_signers = refl;
      same_commitments = ended_commitments x id now s job found outcome tx d won;
    },
    ended_job x id now s job found outcome tx d won,
  )

  unassigned-IsDue :
      job.verdict_mode ≡ commit_reveal
      → job.status ≡ pending
      → job.assigned_validators ≡ []
      → round_rows id s ≡ []
      → IsDue id now s job
  unfolding phase_of
  unassigned-IsDue mode status nobody empty = record {
    in_mode = ground arith;
    in_phase = rw (status, nobody, empty, phase_of);
    due = rw empty;
  }

  unassigned_lost : round_rows id s ≡ [] → (tally job (round_rows id s)).outcome ≡ none
  unfolding tally
  unassigned_lost empty = rw (empty, tally) (ground arith)

module _ (q : Queries) (sql : IsSql q) (x : External) (id : String) (now : ℕ) (s : Store)
    (job : VerificationJob) (found : job_row id s ≡ some job) where
  -- While a commit-reveal job is in its commit phase, a reveal and a finalization are both refused as
  -- conflicts, and the database stays as it was.
  pub reveal_too_early :
      (dto : RevealVerdictDto) (tx : Option String)
      → job.verdict_mode ≡ commit_reveal
      → phase_of job (round_rows id s) now ≡ committing
      → (reveal q x id dto now tx s ≡ throw conflict s)
        × (finalize q x id now tx s ≡ throw conflict s)
  reveal_too_early = rw (eq-reference q sql) (too_early_at_reference x id now s job found)

  -- A finalization that answers at all answers with a job that is completed or failed.
  pub finalize_ends :
      (tx : Option String) (r : RoundStatus) (t : Store)
      → finalize q x id now tx s ≡ ok r t
      → is_final r.job_status ≡ true
  finalize_ends = rw (eq-reference q sql) (finalize_ends_at_reference x id now s job found)

  -- A due round with a majority, in a session that has no verdict yet, is finalized: one verdict is
  -- added, for the session and the job, with the majority's outcome and signed by its supporters; the
  -- job is completed, and the commitments stay.
  pub finalize_majority :
      (outcome : VerdictOutcome) (tx : Option String)
      → IsDue id now s job
      → (tally job (round_rows id s)).outcome ≡ some outcome
      → any (λ v. str_eq job.session_id v.session_id) s.verdicts ≡ false
      → (r : RoundStatus) × (t : Store) × (finalize q x id now tx s ≡ ok r t)
        × IsPublished id s t job outcome (tally job (round_rows id s)).supporters
        × (job_row id t ≡ some (with_status q x completed job))
  finalize_majority = rw (eq-reference q sql) (won_at_reference x id now s job found)

  -- A due round without a majority is finalized: the answer shows the failed job, and the job's row is
  -- all that changes.
  pub finalize_no_majority :
      (tx : Option String)
      → IsDue id now s job
      → (tally job (round_rows id s)).outcome ≡ none
      → finalize q x id now tx s
        ≡ ok
            (round_status id now (with_status q x failed job) (round_rows id s))
            (put_job id (with_status q x failed job) s)
  finalize_no_majority = rw (eq-reference q sql) (finalize-none x id now s job found)

  -- A due round with a majority whose session already has a verdict cannot be closed: every attempt
  -- ends in a failed query, and no row changes.
  pub finalize_second_verdict :
      (outcome : VerdictOutcome) (tx : Option String)
      → IsDue id now s job
      → (tally job (round_rows id s)).outcome ≡ some outcome
      → any (λ v. str_eq job.session_id v.session_id) s.verdicts ≡ true
      → finalize q x id now tx s ≡ throw query_failed (record s { sequence = suc s.sequence })
  finalize_second_verdict = rw (eq-reference q sql) (finalize_taken x id now s job found)

  -- A pending commit-reveal job that no committee was assigned to, with no commitments, counts as a
  -- round whose commit phase is over: finalizing it fails the job.
  pub finalize_unassigned :
      (tx : Option String)
      → job.verdict_mode ≡ commit_reveal
      → job.status ≡ pending
      → job.assigned_validators ≡ []
      → round_rows id s ≡ []
      → finalize q x id now tx s
        ≡ ok
            (round_status id now (with_status q x failed job) (round_rows id s))
            (put_job id (with_status q x failed job) s)
  finalize_unassigned tx mode status nobody empty =
      finalize_no_majority tx (unassigned-IsDue x id now s job found mode status nobody empty)
        (unassigned_lost x id now s job found empty)
