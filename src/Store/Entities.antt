-- ===== src/Store/Entities.antt =====
-- The entities (*.entity.ts) with their enums and columns. Ids, hashes and texts are strings, times
-- are milliseconds, and a nullable column is an option.
use a2a_verification_network.Prelude.{ℕ, Bool, ◌&&◌, List, Option, String, str_eq}

pub data JobStatus : Type 0 where
  pending assigned in_progress completed failed : JobStatus

pub data VerdictMode : Type 0 where
  instant commit_reveal : VerdictMode

pub record VerificationJob : Type 0 where
  pub id : String
  pub session_id : String
  pub request_hash : String
  pub result_hash : String
  pub policy_id : String
  pub artifacts_ref : Option String
  pub status : JobStatus
  pub assigned_validators : List String
  pub submitted_at : ℕ
  pub completed_at : Option ℕ
  pub verdict_mode : VerdictMode
  pub fee : String
  pub commit_deadline : Option ℕ
  pub reveal_deadline : Option ℕ

pub data VerdictOutcome : Type 0 where
  accept partial reject : VerdictOutcome

pub record Verdict : Type 0 where
  pub id : String
  pub session_id : String
  pub job_id : String
  pub outcome : VerdictOutcome
  pub payable_amount : String
  pub meta_hash : String
  pub signatures : List String
  pub published_at : ℕ

pub record VerdictCommitment : Type 0 where
  pub id : String
  pub job_id : String
  pub validator_id : String
  pub commit_hash : String
  pub outcome : Option VerdictOutcome
  pub salt : Option String
  pub committed_at : ℕ
  pub revealed_at : Option ℕ

pub data StakingTier : Type 0 where
  none_tier bronze silver gold platinum : StakingTier

pub record Validator : Type 0 where
  pub id : String
  pub address : String
  pub public_key : String
  pub stake : String
  pub tier : StakingTier
  pub endpoint : String
  pub capabilities : List String
  pub is_active : Bool
  pub registered_at : ℕ

pub data SlashingProposalStatus : Type 0 where
  proposed approved rejected : SlashingProposalStatus

pub record SlashingProposal : Type 0 where
  pub id : String
  pub validator_id : String
  pub dispute_id : String
  pub session_id : String
  pub verdict_id : String
  pub reason : String
  pub stake_at_proposal : String
  pub amount : String
  pub status : SlashingProposalStatus
  pub created_at : ℕ
  pub decided_at : Option ℕ
  pub decided_by : Option String
  pub decision_note : Option String

pub data DisputeStatus : Type 0 where
  open_dispute escalated resolved appealed : DisputeStatus

pub data DisputeOutcome : Type 0 where
  upheld overturned : DisputeOutcome

pub record Dispute : Type 0 where
  pub id : String
  pub session_id : String
  pub reason : String
  pub initiator : String
  pub status : DisputeStatus
  pub resolution : Option String
  pub outcome : Option DisputeOutcome
  pub opened_at : ℕ
  pub resolved_at : Option ℕ

pub data AppealVoteChoice : Type 0 where
  uphold overturn : AppealVoteChoice

-- `AppealDecision.UPHELD` is `stands`: the other spelling is a dispute's outcome.
pub data AppealDecision : Type 0 where
  stands reversed : AppealDecision

pub data AppealStatus : Type 0 where
  open_appeal decided : AppealStatus

pub record DisputeAppeal : Type 0 where
  pub id : String
  pub dispute_id : String
  pub appellant : String
  pub reason : String
  pub original_outcome : DisputeOutcome
  pub panel : List String
  pub quorum : ℕ
  pub status : AppealStatus
  pub decision : Option AppealDecision
  pub opened_at : ℕ
  pub voting_deadline : ℕ
  pub decided_at : Option ℕ

pub record DisputeAppealVote : Type 0 where
  pub id : String
  pub appeal_id : String
  pub validator_id : String
  pub vote : AppealVoteChoice
  pub cast_at : ℕ

pub record DisputeEvidence : Type 0 where
  pub id : String
  pub dispute_id : String
  pub submitter : String
  pub uri : String
  pub content_hash : String
  pub mime_type : Option String
  pub size_bytes : Option ℕ
  pub description : Option String
  pub hash_verified : Bool
  pub created_at : ℕ

pub data VerificationClass : Type 0 where
  class_0 class_1 class_2 class_3 class_4 : VerificationClass

-- The columns of type jsonb are their texts.
pub record VerificationPolicy : Type 0 where
  pub id : String
  pub name : String
  pub verification_class : VerificationClass
  pub selection_rule : String
  pub verification_method : String
  pub quorum_threshold : ℕ
  pub price : String
  pub dispute_escalation : String
  pub evidence_requirements : String
  pub metadata_uri : Option String
  pub metadata_hash : Option String
  pub version : ℕ
  pub created_at : ℕ

pub data EntityType : Type 0 where
  validator_entity agent_entity : EntityType

pub record ReputationScore : Type 0 where
  pub id : String
  pub entity_id : String
  pub entity_type : EntityType
  pub accuracy : String
  pub uptime : String
  pub dispute_loss_rate : String
  pub total_jobs : ℕ
  pub evidence_weight : String
  pub last_activity_at : Option ℕ
  pub last_updated : ℕ

-- The columns of a table's unique constraint, as the test that two rows agree on them.
abbrev pub same_commitment : VerdictCommitment → VerdictCommitment → Bool
same_commitment a b = str_eq a.job_id b.job_id && str_eq a.validator_id b.validator_id

abbrev pub same_proposal : SlashingProposal → SlashingProposal → Bool
same_proposal a b = str_eq a.dispute_id b.dispute_id && str_eq a.validator_id b.validator_id

abbrev pub same_vote : DisputeAppealVote → DisputeAppealVote → Bool
same_vote a b = str_eq a.appeal_id b.appeal_id && str_eq a.validator_id b.validator_id

abbrev pub same_evidence : DisputeEvidence → DisputeEvidence → Bool
same_evidence a b = str_eq a.dispute_id b.dispute_id && str_eq a.content_hash b.content_hash

-- The rows of every table, oldest first, and how many ids the database has generated.
pub record Store : Type 0 where
  pub jobs : List VerificationJob
  pub verdicts : List Verdict
  pub commitments : List VerdictCommitment
  pub validators : List Validator
  pub proposals : List SlashingProposal
  pub disputes : List Dispute
  pub appeals : List DisputeAppeal
  pub votes : List DisputeAppealVote
  pub evidence : List DisputeEvidence
  pub scores : List ReputationScore
  pub policies : List VerificationPolicy
  pub sequence : ℕ
