-- ===== src/System/Requests.antt =====
-- The controllers: which methods a request calls. The answer itself is left out.
use a2a_verification_network.Prelude.{ℕ, Bool, false, not, Option, String}
use a2a_verification_network.External.{External}
use a2a_verification_network.Store.Entities.{Store, JobStatus, SlashingProposalStatus}
use a2a_verification_network.Store.Queries.{Queries}
use a2a_verification_network.Store.Monad.{M, state_of, ◌>>=◌, ◌>>◌, return, when}
use a2a_verification_network.Jobs
use a2a_verification_network.Jobs.{SubmitJobDto, or_default}
use a2a_verification_network.JobQueue.Service.{drain, list_queue}
use a2a_verification_network.Coordinator.Service.{process_job}
use a2a_verification_network.Policies
use a2a_verification_network.Policies.{CreatePolicyDto}
use a2a_verification_network.Validators.Service
use a2a_verification_network.Validators.Service.{RegisterValidatorDto, tier_table}
use a2a_verification_network.Slashing.Service.{DecideSlashingDto, approve, reject}
use a2a_verification_network.Slashing.Service as Slashing
use a2a_verification_network.Verdicts
use a2a_verification_network.Reputation.Service.{find_by_entity_id}
use a2a_verification_network.Disputes.Service as Disputing
use a2a_verification_network.Disputes.Service.{
  OpenDisputeDto, ResolveDisputeDto, open_dispute_for, resolve,
}
use a2a_verification_network.Disputes.Appeals.{
  OpenAppealDto, CastAppealVoteDto, open_appeal_of, vote, close, find_by_dispute,
}
use a2a_verification_network.Disputes.Evidence.{AttachEvidenceDto, attach, verify, list_evidence}
use a2a_verification_network.CommitReveal.Service.{
  CommitVerdictDto, RevealVerdictDto, commit, reveal, finalize, status,
}

-- The requests of each controller, with their parameters and bodies.
-- `drain_queue` also tells whether an earlier drain is still running.
pub data JobsRequest : Type 0 where
  submit_job : SubmitJobDto → JobsRequest
  drain_queue : Bool → Option ℕ → JobsRequest
  list_queued : Option ℕ → JobsRequest
  get_job : String → JobsRequest
  list_jobs : Option JobStatus → JobsRequest

pub data PoliciesRequest : Type 0 where
  create_policy : CreatePolicyDto → PoliciesRequest
  list_policies : PoliciesRequest
  get_policy : String → PoliciesRequest

pub data ValidatorsRequest : Type 0 where
  register_validator : RegisterValidatorDto → ValidatorsRequest
  update_stake : String → String → ValidatorsRequest
  exit_validator : String → ValidatorsRequest
  list_validators : ValidatorsRequest
  list_tiers : ValidatorsRequest
  get_validator : String → ValidatorsRequest

pub data SlashingRequest : Type 0 where
  approve_slashing : String → DecideSlashingDto → SlashingRequest
  reject_slashing : String → DecideSlashingDto → SlashingRequest
  list_slashing : Option SlashingProposalStatus → Option String → Option String → SlashingRequest
  get_slashing : String → SlashingRequest

pub data DisputesRequest : Type 0 where
  open_dispute : OpenDisputeDto → DisputesRequest
  resolve_dispute : String → ResolveDisputeDto → DisputesRequest
  get_dispute : String → DisputesRequest

pub data AppealsRequest : Type 0 where
  open_appeal : String → OpenAppealDto → AppealsRequest
  cast_appeal_vote : String → CastAppealVoteDto → AppealsRequest
  close_appeal : String → AppealsRequest
  get_appeal : String → AppealsRequest

pub data EvidenceRequest : Type 0 where
  attach_evidence : String → AttachEvidenceDto → EvidenceRequest
  verify_evidence : String → String → String → EvidenceRequest
  list_attached : String → EvidenceRequest

pub data RoundsRequest : Type 0 where
  commit_verdict : String → CommitVerdictDto → RoundsRequest
  reveal_verdict : String → RevealVerdictDto → RoundsRequest
  finalize_round : String → RoundsRequest
  get_round : String → RoundsRequest

pub data VerdictsRequest : Type 0 where
  get_verdict : String → VerdictsRequest
  list_verdicts : VerdictsRequest

pub data ReputationRequest : Type 0 where
  get_reputation : String → ReputationRequest

pub data Request : Type 0 where
  to_verdicts : VerdictsRequest → Request
  to_reputation : ReputationRequest → Request
  to_jobs : JobsRequest → Request
  to_policies : PoliciesRequest → Request
  to_validators : ValidatorsRequest → Request
  to_slashing : SlashingRequest → Request
  to_disputes : DisputesRequest → Request
  to_appeals : AppealsRequest → Request
  to_evidence : EvidenceRequest → Request
  to_rounds : RoundsRequest → Request

-- A request with what it meets: the time, and the transaction of the verdict of a job, if one is sent.
pub record Call : Type 0 where
  pub request : Request
  pub now : ℕ
  pub tx : String → Option String

abbrev pub done : {A : Type 0} → M A → M (Unit {0})
done m = m >> return tt

module _ (q : Queries) (x : External) where
  -- `submit`: the job is processed at once, unless it is deferred.
  unfoldable pub submit_and_process : SubmitJobDto → (String → Option String) → M (Unit {0})
  unfolding Jobs.submit process_job
  submit_and_process dto tx = do
    job ← Jobs.submit q x dto
    when (not (or_default false dto.deferred)) (done (process_job q x job.id (tx job.id)))

  unfoldable pub jobs_controller : JobsRequest → ℕ → (String → Option String) → M (Unit {0})
  unfolding submit_and_process drain list_queue Jobs.find_one Jobs.find_all
  jobs_controller (submit_job dto) now tx = submit_and_process dto tx
  jobs_controller (drain_queue busy limit) now tx =
      done (drain q x busy tx (or_default 10 limit) now)
  jobs_controller (list_queued limit) now tx = done (list_queue q x (or_default 50 limit) now)
  jobs_controller (get_job id) now tx = done (Jobs.find_one q x id)
  jobs_controller (list_jobs status) now tx = done (Jobs.find_all q x status)

  unfoldable pub policies_controller : PoliciesRequest → M (Unit {0})
  unfolding Policies.create Policies.find_all Policies.find_one
  policies_controller (create_policy dto) = done (Policies.create q x dto)
  policies_controller list_policies = done (Policies.find_all q x)
  policies_controller (get_policy id) = done (Policies.find_one q x id)

  unfoldable pub validators_controller : ValidatorsRequest → M (Unit {0})
  unfolding Service.register Service.update_stake Service.exit Service.find_all Service.find_one
      tier_table
  validators_controller (register_validator dto) = done (Service.register q x dto)
  validators_controller (update_stake id stake) = done (Service.update_stake q x id stake)
  validators_controller (exit_validator id) = done (Service.exit q x id)
  validators_controller list_validators = done (Service.find_all q x)
  validators_controller list_tiers = done (return (tier_table q x))
  validators_controller (get_validator id) = done (Service.find_one q x id)

  unfoldable pub slashing_controller : SlashingRequest → M (Unit {0})
  unfolding approve reject Slashing.find_all Slashing.find_one
  slashing_controller (approve_slashing id dto) = done (approve q x id dto)
  slashing_controller (reject_slashing id dto) = done (reject q x id dto)
  slashing_controller (list_slashing status validator_id dispute_id) =
      done (Slashing.find_all q x status validator_id dispute_id)
  slashing_controller (get_slashing id) = done (Slashing.find_one q x id)

  unfoldable pub disputes_controller : DisputesRequest → M (Unit {0})
  unfolding open_dispute_for resolve Disputing.find_one
  disputes_controller (open_dispute dto) = done (open_dispute_for q x dto)
  disputes_controller (resolve_dispute id dto) = done (resolve q x id dto)
  disputes_controller (get_dispute id) = done (Disputing.find_one q x id)

  unfoldable pub appeals_controller : AppealsRequest → ℕ → M (Unit {0})
  unfolding open_appeal_of vote close find_by_dispute
  appeals_controller (open_appeal id dto) now = done (open_appeal_of q x id dto now)
  appeals_controller (cast_appeal_vote id dto) now = done (vote q x id dto now)
  appeals_controller (close_appeal id) now = done (close q x id now)
  appeals_controller (get_appeal id) now = done (find_by_dispute q x id)

  unfoldable pub evidence_controller : EvidenceRequest → M (Unit {0})
  unfolding attach verify list_evidence
  evidence_controller (attach_evidence id dto) = done (attach x q id dto)
  evidence_controller (verify_evidence id evidence_id content) =
      done (verify x q id evidence_id content)
  evidence_controller (list_attached id) = done (list_evidence x q id)

  unfoldable pub rounds_controller : RoundsRequest → ℕ → (String → Option String) → M (Unit {0})
  unfolding commit reveal finalize status
  rounds_controller (commit_verdict job_id dto) now tx = done (commit q x job_id dto now)
  rounds_controller (reveal_verdict job_id dto) now tx =
      done (reveal q x job_id dto now (tx job_id))
  rounds_controller (finalize_round job_id) now tx = done (finalize q x job_id now (tx job_id))
  rounds_controller (get_round job_id) now tx = done (status q x job_id now)

  unfoldable pub verdicts_controller : VerdictsRequest → M (Unit {0})
  unfolding Verdicts.find_by_session_id Verdicts.find_all
  verdicts_controller (get_verdict session_id) = done (Verdicts.find_by_session_id q x session_id)
  verdicts_controller list_verdicts = done (Verdicts.find_all q x)

  unfoldable pub reputation_controller : ReputationRequest → ℕ → M (Unit {0})
  unfolding find_by_entity_id
  reputation_controller (get_reputation entity_id) now = done (find_by_entity_id x q entity_id now)

  unfoldable pub handle : Request → ℕ → (String → Option String) → M (Unit {0})
  unfolding verdicts_controller reputation_controller jobs_controller policies_controller
      validators_controller slashing_controller disputes_controller appeals_controller
      evidence_controller rounds_controller
  handle (to_jobs r) now tx = jobs_controller r now tx
  handle (to_policies r) now tx = policies_controller r
  handle (to_validators r) now tx = validators_controller r
  handle (to_slashing r) now tx = slashing_controller r
  handle (to_disputes r) now tx = disputes_controller r
  handle (to_appeals r) now tx = appeals_controller r now
  handle (to_evidence r) now tx = evidence_controller r
  handle (to_rounds r) now tx = rounds_controller r now tx
  handle (to_verdicts r) now tx = verdicts_controller r
  handle (to_reputation r) now tx = reputation_controller r now

-- The database after a request. An exception keeps what was saved before it.
unfoldable pub serve : Queries → External → Call → Store → Store
unfolding handle
serve q x c s = state_of (handle q (record x { clock = c.now }) c.request c.now c.tx s)
