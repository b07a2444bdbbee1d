-- ===== src/Coordinator/Service.antt =====
-- coordinator.service.ts. `tx` is the outcome of the on-chain part of publishing a verdict.
use a2a_verification_network.Prelude.{
  ℕ, Bool, true, false, not, List, [], ◌∷◌, Option, none, some, String, filter, includes, str_eq,
  is_empty, if◌then◌else◌,
}
use a2a_verification_network.External.{External}
use a2a_verification_network.Jobs
use a2a_verification_network.Jobs.{is_commit_reveal, same_status}
use a2a_verification_network.Reputation.Service.{record_for_validators}
use a2a_verification_network.Validators.Service.{find_eligible}
use a2a_verification_network.Verdicts.{create_and_publish}
use a2a_verification_network.Store.Entities.{
  VerificationJob, in_progress, completed, failed, accept,
}
use a2a_verification_network.Store.Queries.{Queries}
use a2a_verification_network.Store.Monad.{M, ◌>>=◌, ◌>>◌, return}
use a2a_verification_network.Coordinator.Draw.{select_weighted}

abbrev pub default_committee_size : ℕ
default_committee_size = 3

abbrev pub self_validator : String
self_validator = "self-validator"

pub record Processed : Type 0 where
  pub job_id : String
  pub session_id : String
  pub outcome : String
  pub verdict_id : Option String
  pub tx_hash : Option String

-- The placeholder stands where nobody was drawn.
abbrev pub or_self : List String → List String
or_self [] = self_validator ∷ []
or_self (v ∷ vs) = v ∷ vs

module _ (q : Queries) (x : External) where
  unfoldable pub assign_validators : String → ℕ → M (List String)
  unfolding find_eligible select_weighted Jobs.assign_validators
  assign_validators job_id size = do
    eligible ← find_eligible q x
    let selected = or_self (select_weighted x eligible size job_id)
    Jobs.assign_validators q x job_id selected
    return selected

  -- A commit-reveal job waits for its round, or fails where it has no staked committee.
  unfoldable pub start_round : VerificationJob → List String → M Processed
  unfolding Jobs.update_status
  start_round job committee = do
    let has_committee = not (includes committee self_validator)
    Jobs.update_status q x job.id (if has_committee then in_progress else failed)
    return (record {
      job_id = job.id;
      session_id = job.session_id;
      outcome = if has_committee then "pending" else "failed";
      verdict_id = none;
      tx_hash = none;
    })

  unfoldable pub issue_verdict : VerificationJob → List String → Option String → M Processed
  unfolding Jobs.update_status create_and_publish record_for_validators
  issue_verdict job committee tx = do
    Jobs.update_status q x job.id in_progress
    published ←
        create_and_publish q x
          (record {
            session_id = job.session_id;
            job_id = job.id;
            outcome = accept;
            payable_amount = "0";
            meta_hash = if is_empty job.result_hash then job.request_hash else job.result_hash;
            validator_ids = committee;
          })
          tx
    Jobs.update_status q x job.id completed
    record_for_validators x q (filter (λ id. not (str_eq id self_validator)) committee)
        (record { accurate = true; dispute_lost = false }) x.clock
    return (record {
      job_id = job.id;
      session_id = job.session_id;
      outcome = "accept";
      verdict_id = some (published.0).id;
      tx_hash = published.1;
    })

  unfoldable pub process_job : String → Option String → M Processed
  unfolding assign_validators Jobs.find_one start_round issue_verdict
  process_job job_id tx = do
    committee ← assign_validators job_id default_committee_size
    job ← Jobs.find_one q x job_id
    (if is_commit_reveal job.verdict_mode
        then start_round job committee
        else issue_verdict job committee tx)

  unfoldable pub check_quorum : String → M Bool
  unfolding Jobs.find_one
  check_quorum job_id = do job ← Jobs.find_one q x job_id; return (same_status job.status completed)
