-- ===== src/System/Quiet/Jobs.antt =====
-- The methods on jobs, their queue, validators, policies, verdicts and reputation are quiet steps.
use a2a_verification_network.Prelude.{
  ℕ, Bool, true, false, List, [], ◌∷◌, Option, none, some, String,
}
use a2a_verification_network.External.{External}
use a2a_verification_network.Store.Queries.{reference}
use a2a_verification_network.System.Quiet.{IsQuiet, IsKept-trans, IsKept-refl, return-IsQuiet}
use a2a_verification_network.System.Quiet.Tables.{quiet_rules}
use a2a_verification_network.Store.Entities.{
  JobStatus, VerificationJob, EntityType, validator_entity, ReputationScore,
}
use a2a_verification_network.Store.Monad.{M}
use a2a_verification_network.Jobs
use a2a_verification_network.Jobs.{SubmitJobDto}
use a2a_verification_network.JobQueue.Service.{
  DrainResult, process_queued, fail_queued, drain_one, drain_jobs, drain, list_queue,
}
use a2a_verification_network.Coordinator.Service as Coordination
use a2a_verification_network.Coordinator.Service.{start_round, issue_verdict, process_job}
use a2a_verification_network.Policies
use a2a_verification_network.Policies.{CreatePolicyDto}
use a2a_verification_network.Validators.Service
use a2a_verification_network.Validators.Service.{RegisterValidatorDto, find_eligible}
use a2a_verification_network.Verdicts
use a2a_verification_network.Verdicts.{PublishParams}
use a2a_verification_network.Reputation.Service.{
  ReputationObservation, put_observed, record_observation, record_for_validators,
}

module _ (x : External) where
  pub find_job-IsQuiet : (id : String) → IsQuiet (Jobs.find_one reference x id)
  unfolding Jobs.find_one
  find_job-IsQuiet id = search quiet_rules

  pub update_status-IsQuiet :
      (id : String) (st : JobStatus) → IsQuiet (Jobs.update_status reference x id st)
  unfolding Jobs.update_status
  update_status-IsQuiet id st = search (quiet_rules, find_job-IsQuiet)

  assign-IsQuiet :
      (id : String) (ids : List String) → IsQuiet (Jobs.assign_validators reference x id ids)
  unfolding Jobs.assign_validators
  assign-IsQuiet id ids = search (quiet_rules, find_job-IsQuiet)

  pub submit-IsQuiet : (dto : SubmitJobDto) → IsQuiet (Jobs.submit reference x dto)
  unfolding Jobs.submit
  submit-IsQuiet dto = search quiet_rules

  claim-IsQuiet : (id : String) → IsQuiet (Jobs.claim_pending reference x id)
  unfolding Jobs.claim_pending
  claim-IsQuiet id = search quiet_rules

  pub create_and_publish-IsQuiet :
      (p : PublishParams) (tx : Option String)
      → IsQuiet (Verdicts.create_and_publish reference x p tx)
  unfolding Verdicts.create_and_publish
  create_and_publish-IsQuiet p tx = search quiet_rules

  put_observed-IsQuiet :
      (found : Option ReputationScore) (id : String) (kind : EntityType) (o : ReputationObservation)
      (now : ℕ)
      → IsQuiet (put_observed x reference found id kind o now)
  put_observed-IsQuiet none id kind o now = search quiet_rules
  put_observed-IsQuiet (some score) id kind o now = search quiet_rules

  observation-IsQuiet :
      (id : String) (kind : EntityType) (o : ReputationObservation) (now : ℕ)
      → IsQuiet (record_observation x reference id kind o now)
  unfolding record_observation
  observation-IsQuiet id kind o now = search (quiet_rules, put_observed-IsQuiet)

  pub record_for_validators-IsQuiet :
      (ids : List String) (o : ReputationObservation) (now : ℕ)
      → IsQuiet (record_for_validators x reference ids o now)
  unfolding record_for_validators
  record_for_validators-IsQuiet [] o now = record { kept = IsKept-refl }
  record_for_validators-IsQuiet (id ∷ ids) o now = record {
    kept = λ s.
        IsKept-trans ((observation-IsQuiet id validator_entity o now).kept s)
          ((record_for_validators-IsQuiet ids o now).kept _);
  }

  start_round-IsQuiet :
      (job : VerificationJob) (committee : List String)
      → IsQuiet (start_round reference x job committee)
  unfolding start_round
  start_round-IsQuiet job committee = search (quiet_rules, update_status-IsQuiet)

  issue_verdict-IsQuiet :
      (job : VerificationJob) (committee : List String) (tx : Option String)
      → IsQuiet (issue_verdict reference x job committee tx)
  unfolding issue_verdict
  issue_verdict-IsQuiet job committee tx = search (
    quiet_rules, update_status-IsQuiet, create_and_publish-IsQuiet, record_for_validators-IsQuiet,
  )

  draw-IsQuiet :
      (id : String) (size : ℕ) → IsQuiet (Coordination.assign_validators reference x id size)
  unfolding Coordination.assign_validators find_eligible
  draw-IsQuiet id size = search (quiet_rules, assign-IsQuiet)

  pub process_job-IsQuiet :
      (id : String) (tx : Option String) → IsQuiet (process_job reference x id tx)
  unfolding process_job
  process_job-IsQuiet id tx =
      search
        (quiet_rules, draw-IsQuiet, find_job-IsQuiet, start_round-IsQuiet, issue_verdict-IsQuiet)

  process_queued-IsQuiet :
      (id : String) (tx : Option String) → IsQuiet (process_queued reference x id tx)
  unfolding process_queued
  process_queued-IsQuiet id tx = search (quiet_rules, process_job-IsQuiet)

  fail_queued-IsQuiet : (id : String) → IsQuiet (fail_queued reference x id)
  unfolding fail_queued
  fail_queued-IsQuiet id = search (quiet_rules, update_status-IsQuiet)

  drain_one-IsQuiet :
      (id : String) (tx : Option String) {rest : M (List DrainResult)}
      → IsQuiet rest
      → IsQuiet (drain_one reference x id tx rest)
  unfolding drain_one
  drain_one-IsQuiet id tx h =
      search (quiet_rules, claim-IsQuiet, process_queued-IsQuiet, fail_queued-IsQuiet)

  drain_jobs-IsQuiet :
      (tx : String → Option String) (ids : List String) → IsQuiet (drain_jobs reference x tx ids)
  unfolding drain_jobs
  drain_jobs-IsQuiet tx [] = return-IsQuiet []
  drain_jobs-IsQuiet tx (id ∷ ids) = drain_one-IsQuiet id (tx id) (drain_jobs-IsQuiet tx ids)

  pub drain-IsQuiet :
      (busy : Bool) (tx : String → Option String) (limit now : ℕ)
      → IsQuiet (drain reference x busy tx limit now)
  unfolding drain list_queue Jobs.find_pending_by_priority
  drain-IsQuiet true tx limit now = search quiet_rules
  drain-IsQuiet false tx limit now = search (quiet_rules, drain_jobs-IsQuiet)

  pub register-IsQuiet : (dto : RegisterValidatorDto) → IsQuiet (Service.register reference x dto)
  unfolding Service.register
  register-IsQuiet dto = search quiet_rules

  pub find_validator-IsQuiet : (id : String) → IsQuiet (Service.find_one reference x id)
  unfolding Service.find_one
  find_validator-IsQuiet id = search quiet_rules

  pub exit-IsQuiet : (id : String) → IsQuiet (Service.exit reference x id)
  unfolding Service.exit
  exit-IsQuiet id = search (quiet_rules, find_validator-IsQuiet)

  pub update_stake-IsQuiet :
      (id stake : String) → IsQuiet (Service.update_stake reference x id stake)
  unfolding Service.update_stake
  update_stake-IsQuiet id stake = search (quiet_rules, find_validator-IsQuiet)

  pub create_policy-IsQuiet : (dto : CreatePolicyDto) → IsQuiet (Policies.create reference x dto)
  unfolding Policies.create
  create_policy-IsQuiet dto = search quiet_rules
