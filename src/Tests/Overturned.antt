-- ===== src/Tests/Overturned.antt =====
-- The proposals of an overturned verdict, at a concrete database of three staked signers.
use a2a_verification_network.Prelude.{◌≡◌, refl, true, false, [], ◌∷◌, str_eq}
use a2a_verification_network.Store.Entities.{Store, SlashingProposal, Verdict, accept}
use a2a_verification_network.Store.Queries.{reference, reference-IsSql}
use a2a_verification_network.Store.Monad.{ok, state_of}
use a2a_verification_network.Validators.Service.{distinct}
use a2a_verification_network.Reputation.Service.{record_for_validators, record_observation, observe}
use a2a_verification_network.Slashing.Service.{
  OverturnedVerdictContext, proposal_for, propose_each, propose_new, propose_for_signers,
  propose_for_overturned_verdict,
}
use a2a_verification_network.Slashing.Proposing.{
  IsRaised, proposed_for, propose_for_overturned_verdict-IsRaised,
}
use a2a_verification_network.Tests.Data.{world, job, member, store_of, proposal_of}

abbrev wrong : Verdict
wrong = record {
  id = "v";
  session_id = "s";
  job_id = "j";
  outcome = accept;
  payable_amount = "0";
  meta_hash = "meta";
  signatures = "a" ∷ "b" ∷ [];
  published_at = 0;
}

-- The dispute has a proposal against `a` already.
abbrev before : Store
before = record (store_of job []) { verdicts = wrong ∷ []; proposals = proposal_of "x" "a" ∷ [] }

abbrev context : OverturnedVerdictContext
context = record { dispute_id = "d"; session_id = "s"; reason = "wrong" }

abbrev recorded : Store
recorded = state_of (
    record_for_validators world reference ("a" ∷ "b" ∷ [])
      (record { accurate = false; dispute_lost = true }) 1000 before)

abbrev raised : SlashingProposal
raised = proposal_for reference world context wrong (member "b") recorded.sequence

abbrev after : Store
after = record recorded { proposals = proposal_of "x" "a" ∷ raised ∷ []; sequence = 3 }

runs : propose_for_overturned_verdict reference world context before ≡ ok (raised ∷ []) after
unfolding propose_for_overturned_verdict propose_for_signers propose_new propose_each str_eq
    distinct record_observation observe
runs = refl

propose_for_overturned_verdict-IsRaised_example :
    IsRaised world context wrong
      (proposed_for context before)
      before.validators
      before
      after
      (raised ∷ [])
unfolding str_eq
propose_for_overturned_verdict-IsRaised_example =
    propose_for_overturned_verdict-IsRaised reference reference-IsSql world context wrong before
      (raised ∷ []) after refl runs
