-- ===== src/System/Quiet/Disputes.antt =====
-- Slashing, disputes, appeals and evidence are quiet steps.
use a2a_verification_network.Prelude.{
  filter, includes, ℕ, List, [], ◌∷◌, Option, none, some, String,
}
use a2a_verification_network.External.{External}
use a2a_verification_network.Store.Entities.{
  same_proposal, Validator, Verdict, SlashingProposal, SlashingProposalStatus, Dispute,
  DisputeOutcome, upheld, overturned, DisputeAppeal, AppealDecision,
}
use a2a_verification_network.Store.Queries.{reference}
use a2a_verification_network.Store.Monad.{M, ◌>>=◌, return, find_by, insert, validators, proposals}
use a2a_verification_network.System.Quiet.{IsQuiet, if-IsQuiet}
use a2a_verification_network.System.Quiet.Tables.{quiet_rules}
use a2a_verification_network.System.Quiet.Jobs.{
  find_validator-IsQuiet, update_stake-IsQuiet, record_for_validators-IsQuiet,
}
use a2a_verification_network.Slashing.Service as Slashing
use a2a_verification_network.Slashing.Service.{
  OverturnedVerdictContext, DecideSlashingDto, propose_each, propose_new, propose_for_signers,
  propose_for_overturned_verdict, decide, execute, approve, reject, reject_pending_for_dispute,
  proposal_for,
}
use a2a_verification_network.Validators.Service.{find_by_ids, distinct, find_eligible}
use a2a_verification_network.Verdicts.{find_optional_by_session_id}
use a2a_verification_network.Disputes.Service as Disputing
use a2a_verification_network.Disputes.Service.{
  OpenDisputeDto, ResolveDisputeDto, open_dispute_for, resolve,
}
use a2a_verification_network.Disputes.Appeals
use a2a_verification_network.Disputes.Appeals.{
  OpenAppealDto, CastAppealVoteDto, open_appeal_of, appeal_of, view, after_reversal, decide_if,
  check_vote, vote, close, close_open,
}
use a2a_verification_network.Disputes.Evidence.{AttachEvidenceDto, claim, decode, attach, verify}

module _ (x : External) where
  propose_one-IsQuiet :
      (new : ℕ → SlashingProposal) {rest : M (List SlashingProposal)}
      → IsQuiet rest
      → IsQuiet (do
        created ← insert reference proposals same_proposal new
        others ← rest
        return (created ∷ others))
  propose_one-IsQuiet new h = search quiet_rules

  propose_each-IsQuiet :
      (c : OverturnedVerdictContext) (verdict : Verdict) (already : List String)
      (vs : List Validator)
      → IsQuiet (propose_each reference x c verdict already vs)
  unfolding propose_each
  propose_each-IsQuiet c verdict already [] = search quiet_rules
  propose_each-IsQuiet c verdict already (v ∷ vs) =
      let rest = propose_each-IsQuiet c verdict already vs in
      if-IsQuiet _ rest
        (if-IsQuiet _ rest (propose_one-IsQuiet (proposal_for reference x c verdict v) rest))

  propose_new-IsQuiet :
      (c : OverturnedVerdictContext) (verdict : Verdict) (vs : List Validator)
      → IsQuiet (propose_new reference x c verdict vs)
  unfolding propose_new
  propose_new-IsQuiet c verdict vs = search (quiet_rules, propose_each-IsQuiet)

  find_by_ids-IsQuiet : (ids : List String) → IsQuiet (find_by_ids reference x ids)
  unfolding find_by_ids
  find_by_ids-IsQuiet ids = go (distinct [] (filter x.is_uuid ids))
    where
      go :
          (l : List String)
          → IsQuiet {A = List Validator} (elim l [
            | [] ↦ return []
            | i ∷ is ↦ find_by reference validators (λ v. includes (i ∷ is) v.id)
          ])
      go [] = search quiet_rules
      go (i ∷ is) = search quiet_rules

  propose_for_signers-IsQuiet :
      (c : OverturnedVerdictContext) (v : Option Verdict)
      → IsQuiet (propose_for_signers reference x c v)
  unfolding propose_for_signers
  propose_for_signers-IsQuiet c none = search quiet_rules
  propose_for_signers-IsQuiet c (some verdict) =
      search (quiet_rules, find_by_ids-IsQuiet, record_for_validators-IsQuiet, propose_new-IsQuiet)

  propose-IsQuiet :
      (c : OverturnedVerdictContext) → IsQuiet (propose_for_overturned_verdict reference x c)
  unfolding propose_for_overturned_verdict find_optional_by_session_id
  propose-IsQuiet c = search (quiet_rules, propose_for_signers-IsQuiet)

  decide-IsQuiet :
      (id : String) (st : SlashingProposalStatus) (dto : DecideSlashingDto)
      → IsQuiet (decide reference x id st dto)
  unfolding decide Slashing.find_one
  decide-IsQuiet id st dto = search quiet_rules

  execute-IsQuiet : (p : SlashingProposal) → IsQuiet (execute reference x p)
  unfolding execute
  execute-IsQuiet p = search (quiet_rules, find_validator-IsQuiet, update_stake-IsQuiet)

  pub approve-IsQuiet :
      (id : String) (dto : DecideSlashingDto) → IsQuiet (approve reference x id dto)
  unfolding approve
  approve-IsQuiet id dto = search (quiet_rules, decide-IsQuiet, execute-IsQuiet)

  pub reject-IsQuiet : (id : String) (dto : DecideSlashingDto) → IsQuiet (reject reference x id dto)
  unfolding reject
  reject-IsQuiet id dto = decide-IsQuiet id _ dto

  pub open_dispute-IsQuiet : (dto : OpenDisputeDto) → IsQuiet (open_dispute_for reference x dto)
  unfolding open_dispute_for
  open_dispute-IsQuiet dto = search quiet_rules

  pub resolve-IsQuiet :
      (id : String) (dto : ResolveDisputeDto) → IsQuiet (resolve reference x id dto)
  unfolding resolve Disputing.find_one
  resolve-IsQuiet id dto = search (quiet_rules, propose-IsQuiet) depth 16 fits 4000

  pub view-IsQuiet : (a : DisputeAppeal) → IsQuiet (view reference x a)
  unfolding view
  view-IsQuiet a = search quiet_rules

  find_dispute-IsQuiet : (id : String) → IsQuiet (Appeals.dispute reference x id)
  unfolding Appeals.dispute
  find_dispute-IsQuiet id = search quiet_rules

  pub appeal_of-IsQuiet : (id : String) → IsQuiet (appeal_of reference x id)
  unfolding appeal_of
  appeal_of-IsQuiet id = search quiet_rules

  pub open_appeal-IsQuiet :
      (id : String) (dto : OpenAppealDto) (now : ℕ)
      → IsQuiet (open_appeal_of reference x id dto now)
  unfolding open_appeal_of find_optional_by_session_id find_eligible
  open_appeal-IsQuiet id dto now =
      search (quiet_rules, find_dispute-IsQuiet, view-IsQuiet) depth 16 fits 4000

  reject_pending-IsQuiet :
      (id by note : String) → IsQuiet (reject_pending_for_dispute reference x id by note)
  unfolding reject_pending_for_dispute
  reject_pending-IsQuiet id by note = search quiet_rules

  after_reversal-IsQuiet :
      (a : DisputeAppeal) (d : Dispute) (o : Option DisputeOutcome)
      → IsQuiet (after_reversal reference x a d o)
  after_reversal-IsQuiet a d none = search (quiet_rules, reject_pending-IsQuiet)
  after_reversal-IsQuiet a d (some upheld) = search (quiet_rules, reject_pending-IsQuiet)
  after_reversal-IsQuiet a d (some overturned) = search (quiet_rules, propose-IsQuiet)

  decide_appeal-IsQuiet :
      (a : DisputeAppeal) (d : AppealDecision) (now : ℕ)
      → IsQuiet (Appeals.decide reference x a d now)
  unfolding Appeals.decide
  decide_appeal-IsQuiet a d now =
      search (quiet_rules, find_dispute-IsQuiet, after_reversal-IsQuiet) depth 16 fits 4000

  decide_if-IsQuiet :
      (d : Option AppealDecision) (a : DisputeAppeal) (now : ℕ)
      → IsQuiet (decide_if reference x d a now)
  decide_if-IsQuiet none a now = search quiet_rules
  decide_if-IsQuiet (some d) a now = decide_appeal-IsQuiet a d now

  check_vote-IsQuiet :
      (id : String) (dto : CastAppealVoteDto) (now : ℕ)
      → IsQuiet (check_vote reference x id dto now)
  unfolding check_vote
  check_vote-IsQuiet id dto now =
      search (quiet_rules, appeal_of-IsQuiet, find_validator-IsQuiet) depth 16 fits 4000

  pub vote-IsQuiet :
      (id : String) (dto : CastAppealVoteDto) (now : ℕ) → IsQuiet (vote reference x id dto now)
  unfolding vote
  vote-IsQuiet id dto now =
      search (quiet_rules, check_vote-IsQuiet, view-IsQuiet, decide_if-IsQuiet)

  pub close-IsQuiet : (id : String) (now : ℕ) → IsQuiet (close reference x id now)
  unfolding close close_open
  close-IsQuiet id now =
      search (quiet_rules, appeal_of-IsQuiet, view-IsQuiet, decide_appeal-IsQuiet) depth 16 fits
        4000

  claim-IsQuiet :
      (dto : AttachEvidenceDto) (content : Option String) → IsQuiet (claim x dto content)
  unfolding claim decode
  claim-IsQuiet dto none = search quiet_rules
  claim-IsQuiet dto (some text) = search quiet_rules

  pub attach-IsQuiet : (id : String) (dto : AttachEvidenceDto) → IsQuiet (attach x reference id dto)
  unfolding attach Disputing.find_one
  attach-IsQuiet id dto = search (quiet_rules, claim-IsQuiet) depth 16 fits 4000

  pub verify-IsQuiet :
      (id evidence_id content : String) → IsQuiet (verify x reference id evidence_id content)
  unfolding verify decode
  verify-IsQuiet id evidence_id content = search (quiet_rules) depth 16 fits 4000
