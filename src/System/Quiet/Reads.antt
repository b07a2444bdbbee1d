-- ===== src/System/Quiet/Reads.antt =====
-- The methods that only read.
use a2a_verification_network.Prelude.{ℕ, Option, none, some, String}
use a2a_verification_network.External.{External}
use a2a_verification_network.Store.Entities.{JobStatus, SlashingProposalStatus}
use a2a_verification_network.Store.Queries.{reference}
use a2a_verification_network.System.Quiet.{IsQuiet}
use a2a_verification_network.System.Quiet.Tables.{quiet_rules}
use a2a_verification_network.System.Quiet.Disputes.{appeal_of-IsQuiet, view-IsQuiet}
use a2a_verification_network.Jobs
use a2a_verification_network.JobQueue.Service.{list_queue}
use a2a_verification_network.Policies
use a2a_verification_network.Validators.Service
use a2a_verification_network.Slashing.Service as Slashing
use a2a_verification_network.Disputes.Service as Disputing
use a2a_verification_network.Disputes.Appeals.{find_by_dispute}
use a2a_verification_network.Disputes.Evidence.{list_evidence}
use a2a_verification_network.Verdicts
use a2a_verification_network.Reputation.Service.{find_by_entity_id}

module _ (x : External) where
  pub list_queue-IsQuiet : (limit now : ℕ) → IsQuiet (list_queue reference x limit now)
  unfolding list_queue Jobs.find_pending_by_priority
  list_queue-IsQuiet limit now = search quiet_rules

  pub list_jobs-IsQuiet : (status : Option JobStatus) → IsQuiet (Jobs.find_all reference x status)
  unfolding Jobs.find_all
  list_jobs-IsQuiet none = search quiet_rules
  list_jobs-IsQuiet (some status) = search quiet_rules

  pub list_policies-IsQuiet : IsQuiet (Policies.find_all reference x)
  unfolding Policies.find_all
  list_policies-IsQuiet = search quiet_rules

  pub find_policy-IsQuiet : (id : String) → IsQuiet (Policies.find_one reference x id)
  unfolding Policies.find_one
  find_policy-IsQuiet id = search quiet_rules

  pub list_validators-IsQuiet : IsQuiet (Service.find_all reference x)
  unfolding Service.find_all
  list_validators-IsQuiet = search quiet_rules

  pub list_slashing-IsQuiet :
      (status : Option SlashingProposalStatus) (validator_id dispute_id : Option String)
      → IsQuiet (Slashing.find_all reference x status validator_id dispute_id)
  unfolding Slashing.find_all
  list_slashing-IsQuiet status validator_id dispute_id = search quiet_rules

  pub find_proposal-IsQuiet : (id : String) → IsQuiet (Slashing.find_one reference x id)
  unfolding Slashing.find_one
  find_proposal-IsQuiet id = search quiet_rules

  pub get_dispute-IsQuiet : (id : String) → IsQuiet (Disputing.find_one reference x id)
  unfolding Disputing.find_one
  get_dispute-IsQuiet id = search quiet_rules

  pub find_by_dispute-IsQuiet : (id : String) → IsQuiet (find_by_dispute reference x id)
  unfolding find_by_dispute
  find_by_dispute-IsQuiet id = search (quiet_rules, appeal_of-IsQuiet, view-IsQuiet)

  pub list_evidence-IsQuiet : (id : String) → IsQuiet (list_evidence x reference id)
  unfolding list_evidence
  list_evidence-IsQuiet id = search (quiet_rules, get_dispute-IsQuiet)

  pub find_verdict-IsQuiet : (id : String) → IsQuiet (Verdicts.find_by_session_id reference x id)
  unfolding Verdicts.find_by_session_id
  find_verdict-IsQuiet id = search quiet_rules

  pub list_verdicts-IsQuiet : IsQuiet (Verdicts.find_all reference x)
  unfolding Verdicts.find_all
  list_verdicts-IsQuiet = search quiet_rules

  pub find_score-IsQuiet : (id : String) (now : ℕ) → IsQuiet (find_by_entity_id x reference id now)
  unfolding find_by_entity_id
  find_score-IsQuiet id now = search quiet_rules
