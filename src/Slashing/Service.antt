-- ===== src/Slashing/Service.antt =====
-- slashing.service.ts. Stakes and amounts are strings in the rows and natural numbers in between.
use a2a_verification_network.Prelude.{
  ℕ, ◌*◌, ◌-◌, ◌/◌, Bool, true, false, ◌&&◌, List, [], ◌∷◌, Option, none, some, String, ltb, leb,
  sort, min, str_eq, map, ◌==◌, if◌then◌else◌, includes,
}
use a2a_verification_network.Decimal.{parse_stake, to_string}
use a2a_verification_network.External.{External}
use a2a_verification_network.Store.Entities.{
  Validator, Verdict, SlashingProposal, SlashingProposalStatus, proposed, approved, rejected,
  same_proposal,
}
use a2a_verification_network.Store.Queries.{Queries}
use a2a_verification_network.Store.Monad.{
  M, state_of, ok, throw, ◌>>=◌, ◌>>◌, return, throw_if, or_throw, find_by, find_one_by, insert,
  save, update, proposals, not_found, conflict,
}
use a2a_verification_network.Reputation.Service.{record_for_validators}
use a2a_verification_network.Validators.Service
use a2a_verification_network.Validators.Tiers.{ℤ, pos, negsuc}
use a2a_verification_network.Verdicts.{find_optional_by_session_id}

pub record DecideSlashingDto : Type 0 where
  pub decided_by : String
  pub note : Option String

pub record OverturnedVerdictContext : Type 0 where
  pub dispute_id : String
  pub session_id : String
  pub reason : String

abbrev pub bps_denominator : ℕ
bps_denominator = 10000

-- `Math.max(0, Math.min(10_000, fractionBps))`, of the whole part of the fraction.
abbrev pub clamp_bps : ℤ → ℕ
clamp_bps (pos n) = min 10000 n
clamp_bps (negsuc n) = 0

unfoldable pub slash_amount : ℕ → ℤ → ℕ
slash_amount stake fraction_bps = stake * clamp_bps fraction_bps / bps_denominator

abbrev pub same_proposal_status : SlashingProposalStatus → SlashingProposalStatus → Bool
same_proposal_status proposed proposed = true
same_proposal_status approved approved = true
same_proposal_status rejected rejected = true
same_proposal_status _ _ = false

abbrev pub is_pending : SlashingProposal → Bool
is_pending p = same_proposal_status p.status proposed

-- The patch of a decision.
abbrev pub decision_patch :
    SlashingProposalStatus → ℕ → String → Option String → SlashingProposal → SlashingProposal
decision_patch status at by note p = record p {
  status = status;
  decided_at = some at;
  decided_by = some by;
  decision_note = note;
}

-- The patch that takes a decision back.
abbrev pub undecided_patch : SlashingProposal → SlashingProposal
undecided_patch p = record p {
  status = proposed;
  decided_at = none;
  decided_by = none;
  decision_note = none;
}

-- `try { m } catch (error) { undo; throw error; }`
abbrev pub on_error : {A : Type 0} → M A → M ℕ → M A
on_error m undo s = elim (m s) [ ok a t ↦ ok a t | throw e t ↦ throw e (state_of (undo t)) ]

abbrev optional_equals : Option String → String → Bool
optional_equals none s = true
optional_equals (some f) s = str_eq s f

abbrev optional_status : Option SlashingProposalStatus → SlashingProposalStatus → Bool
optional_status none s = true
optional_status (some f) s = same_proposal_status s f

module _ (q : Queries) (x : External) where
  -- The proposal against one signer.
  abbrev pub proposal_for : OverturnedVerdictContext → Verdict → Validator → ℕ → SlashingProposal
  proposal_for c verdict v n =
      let stake = parse_stake v.stake in
      record {
        id = x.generate n;
        validator_id = v.id;
        dispute_id = c.dispute_id;
        session_id = c.session_id;
        verdict_id = verdict.id;
        reason = c.reason;
        stake_at_proposal = to_string stake;
        amount = to_string (slash_amount stake x.config.slashing_fraction_bps);
        status = proposed;
        created_at = x.clock;
        decided_at = none;
        decided_by = none;
        decision_note = none;
      }

  -- The loop over the signers; `already` holds the validators that the dispute has a proposal for.
  unfoldable pub propose_each :
      OverturnedVerdictContext → Verdict → List String → List Validator → M (List SlashingProposal)
  unfolding parse_stake slash_amount to_string
  propose_each c verdict already [] = return []
  propose_each c verdict already (v ∷ vs) =
      let rest = propose_each c verdict already vs in
      let create = (do
        created ← insert q proposals same_proposal (proposal_for c verdict v)
        others ← rest
        return (created ∷ others)) in
      if includes already v.id
      then rest
      else if slash_amount (parse_stake v.stake) x.config.slashing_fraction_bps == 0
      then rest
      else create

  -- The dispute's earlier proposals are read first, and their validators are passed over.
  unfoldable pub propose_new :
      OverturnedVerdictContext → Verdict → List Validator → M (List SlashingProposal)
  unfolding propose_each
  propose_new c verdict signers = do
    existing ← find_by q proposals (λ p. str_eq p.dispute_id c.dispute_id)
    propose_each c verdict (map (λ p. p.validator_id) existing) signers

  unfoldable pub propose_for_signers :
      OverturnedVerdictContext → Option Verdict → M (List SlashingProposal)
  unfolding propose_new Service.find_by_ids record_for_validators
  propose_for_signers c none = return []
  propose_for_signers c (some verdict) = do
    signers ← Service.find_by_ids q x verdict.signatures
    record_for_validators x q (map (λ v. v.id) signers)
        (record { accurate = false; dispute_lost = true }) x.clock
    (if x.config.slashing_enabled then propose_new c verdict signers else return [])

  unfoldable pub propose_for_overturned_verdict :
      OverturnedVerdictContext → M (List SlashingProposal)
  unfolding propose_for_signers find_optional_by_session_id
  propose_for_overturned_verdict c = do
    verdict ← find_optional_by_session_id q x c.session_id
    propose_for_signers c verdict

  -- The newest first; the rows of one time, whose order SQL leaves open, in the order of the table.
  unfoldable pub find_all :
      Option SlashingProposalStatus → Option String → Option String → M (List SlashingProposal)
  unfolding sort
  find_all status validator_id dispute_id = do
    matching ← find_by q proposals λ p.
        optional_status status p.status
        && optional_equals validator_id p.validator_id
        && optional_equals dispute_id p.dispute_id
    return (sort (λ a b. leb b.created_at a.created_at) matching)

  unfoldable pub find_one : String → M SlashingProposal
  find_one id = do found ← find_one_by q proposals (λ p. str_eq p.id id); or_throw not_found found

  -- Moves a proposal out of `proposed` by one conditional update.
  unfoldable pub decide : String → SlashingProposalStatus → DecideSlashingDto → M SlashingProposal
  unfolding find_one
  decide id status dto = do
    find_one id
    affected ←
        update q proposals (λ p. str_eq p.id id && is_pending p)
          (decision_patch status x.clock dto.decided_by dto.note)
    throw_if (affected == 0) conflict
    find_one id

  -- The body of `try` in `approve`.
  unfoldable pub execute : SlashingProposal → M SlashingProposal
  execute proposal = do
    validator ← Service.find_one q x proposal.validator_id
    let stake = parse_stake validator.stake
    let amount = parse_stake proposal.amount
    let slashed = if ltb stake amount then stake else amount
    Service.update_stake q x validator.id (to_string (stake - slashed))
    save q proposals (λ p. str_eq p.id proposal.id) (record proposal { amount = to_string slashed })

  unfoldable pub approve : String → DecideSlashingDto → M SlashingProposal
  approve id dto = do
    proposal ← decide id approved dto
    on_error (execute proposal) (update q proposals (λ p. str_eq p.id id) undecided_patch)

  unfoldable pub reject_pending_for_dispute : String → String → String → M ℕ
  reject_pending_for_dispute dispute_id decided_by note =
      update q proposals (λ p. str_eq p.dispute_id dispute_id && is_pending p)
        (decision_patch rejected x.clock decided_by (some note))

  unfoldable pub reject : String → DecideSlashingDto → M SlashingProposal
  reject id dto = decide id rejected dto
