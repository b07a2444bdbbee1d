-- ===== src/CommitReveal/Settling.antt =====
-- Settling a round: where it ends, and that it ends for good.
use a2a_verification_network.Prelude.{
  ◌≡◌, ◌∙◌, ap, true, false, List, [], ◌∷◌, Option, none, some, String, arith, is_empty,
  if◌then◌else◌, any, str_eq, suc, ◌++◌,
}
use a2a_verification_network.External.{External}
use a2a_verification_network.Jobs.{with_status}
use a2a_verification_network.Jobs.Laws.{job_row, put_job, update_status_at}
use a2a_verification_network.Reputation.Service.{record_for_validators}
use a2a_verification_network.Reputation.Frame.{
  record_for_validators_frame, record_for_validators_ok, with_scores_of,
}
use a2a_verification_network.Store.Entities.{
  Store, VerificationJob, VerdictCommitment, Verdict, VerdictOutcome, completed, failed,
}
use a2a_verification_network.Store.Queries.{reference}
use a2a_verification_network.Store.Monad.{ok, throw, state_of, query_failed}
use a2a_verification_network.Verdicts.{create_and_publish}
use a2a_verification_network.CommitReveal.Tally.{Tally}
use a2a_verification_network.CommitReveal.Service.{settle_tally, publish_majority, dissenters_of}

module _ (x : External) (s : Store) (job : VerificationJob)
    (found : job_row job.id s ≡ some job) where
  -- Without a majority the job fails and nothing else changes.
  pub settle_none :
      (cs : List VerdictCommitment) (t : Tally) (tx : Option String)
      → settle_tally reference x job cs t none tx s
        ≡ ok tt (put_job job.id (with_status reference x failed job) s)
  unfolding settle_tally
  settle_none cs t tx = ground (arith, update_status_at x job.id s found failed)

-- Publishing either meets another verdict of the session, or ends with the job completed.
module _ (x : External) (s : Store) (job : VerificationJob) (found : job_row job.id s ≡ some job)
    (cs : List VerdictCommitment) (t : Tally) (outcome : VerdictOutcome) (tx : Option String) where
  pub publish_refused :
      any (λ v. str_eq job.session_id v.session_id) s.verdicts ≡ true
      → publish_majority reference x job cs t outcome tx s
        ≡ throw query_failed (record s { sequence = suc s.sequence })
  unfolding publish_majority create_and_publish
  publish_refused taken = rw (taken, publish_majority)

  abbrev pub majority_row : Verdict
  majority_row = record {
    id = x.generate s.sequence;
    session_id = job.session_id;
    job_id = job.id;
    outcome = outcome;
    payable_amount = "0";
    meta_hash = if is_empty job.result_hash then job.request_hash else job.result_hash;
    signatures = t.supporters;
    published_at = x.clock;
  }

  unfoldable pub with_verdict : Store
  with_verdict = record s { verdicts = s.verdicts ++ majority_row ∷ []; sequence = suc s.sequence }

  -- The database with the verdict and the completed job.
  unfoldable pub published : Store
  unfolding with_verdict
  published = put_job job.id (with_status reference x completed job) with_verdict

  pub credited : Store
  credited = state_of (
      record_for_validators x reference t.supporters
        (record { accurate = true; dispute_lost = false }) x.clock published)

  pub settled : Store
  settled = state_of (
      record_for_validators x reference (dissenters_of outcome cs)
        (record { accurate = false; dispute_lost = false }) x.clock credited)

  pub published_frame : with_scores_of published settled ≡ published
  unfolding settled credited
  published_frame =
      ap (with_scores_of published)
        (record_for_validators_frame x _ x.clock (dissenters_of outcome cs) credited)
      ∙ record_for_validators_frame x _ x.clock t.supporters published

  pub publish_done :
      any (λ v. str_eq job.session_id v.session_id) s.verdicts ≡ false
      → publish_majority reference x job cs t outcome tx s ≡ ok tt settled
  unfolding publish_majority create_and_publish published settled credited
  publish_done free = ground (
    arith,
    update_status_at x job.id with_verdict found completed,
    record_for_validators_ok x (record { accurate = true; dispute_lost = false }) x.clock
        t.supporters published,
    record_for_validators_ok x (record { accurate = false; dispute_lost = false }) x.clock
        (dissenters_of outcome cs) credited,
  )
