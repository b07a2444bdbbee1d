-- ===== src/Slashing/Frame.antt =====
-- Raising proposals, as far as the disputes and their appeals are concerned.
use a2a_verification_network.Prelude.{
  suc, ◌≡◌, refl, ap, List, [], ◌∷◌, ◌++◌, some, String, str_eq, map, find?, arith, Option-cases,
  inl, inr,
}
use a2a_verification_network.External.{External}
use a2a_verification_network.Store.Entities.{Store, Validator, Verdict}
use a2a_verification_network.Store.Queries.{reference}
use a2a_verification_network.Store.Monad.{state_of}
use a2a_verification_network.Reputation.Frame.{
  record_for_validators_frame, record_for_validators_ok,
}
use a2a_verification_network.Slashing.Service.{
  OverturnedVerdictContext, propose_each, propose_new, propose_for_signers,
  propose_for_overturned_verdict, proposal_for,
}
use a2a_verification_network.Slashing.Proposing.{
  find_signers, registered_signers, lost, recorded, proposed_for,
}

module _ (x : External) (c : OverturnedVerdictContext) where
  propose_each_frame :
      (verdict : Verdict) (already : List String) (vs : List Validator) (s : Store)
      → ((state_of (propose_each reference x c verdict already vs s)).appeals ≡ s.appeals)
        × ((state_of (propose_each reference x c verdict already vs s)).disputes ≡ s.disputes)
  unfolding propose_each
  propose_each_frame verdict already [] s = (refl, refl)
  propose_each_frame verdict already (v ∷ vs) s =
      let added = record s {
        proposals = s.proposals ++ proposal_for reference x c verdict v s.sequence ∷ [];
        sequence = suc s.sequence;
      } in
      ground (
        arith,
        propose_each_frame verdict already vs s,
        propose_each_frame verdict already vs added,
      )

  recorded_frame :
      (verdict : Verdict) (s : Store)
      → ((recorded x c verdict s).appeals ≡ s.appeals)
        × ((recorded x c verdict s).disputes ≡ s.disputes)
  recorded_frame verdict s =
      let frame =
        record_for_validators_frame x (lost x c verdict s) x.clock
          (map (λ (v : Validator). v.id) (registered_signers x verdict s)) s in
      (ap (λ (u : Store). u.appeals) frame, ap (λ (u : Store). u.disputes) frame)

  propose_for_signers_frame :
      (verdict : Verdict) (s : Store)
      → ((state_of (propose_for_signers reference x c (some verdict) s)).appeals ≡ s.appeals)
        × ((state_of (propose_for_signers reference x c (some verdict) s)).disputes ≡ s.disputes)
  unfolding propose_for_signers propose_new
  propose_for_signers_frame verdict s =
      let signers = registered_signers x verdict s in
      ground (
        arith,
        find_signers x c verdict s,
        record_for_validators_ok x (lost x c verdict s) x.clock
            (map (λ (v : Validator). v.id) signers) s,
        recorded_frame verdict s,
        propose_each_frame verdict (proposed_for c (recorded x c verdict s)) signers
            (recorded x c verdict s),
      )

  pub propose_for_overturned_verdict_frame :
      (s : Store)
      → ((state_of (propose_for_overturned_verdict reference x c s)).appeals ≡ s.appeals)
        × ((state_of (propose_for_overturned_verdict reference x c s)).disputes ≡ s.disputes)
  unfolding propose_for_overturned_verdict propose_for_signers
  propose_for_overturned_verdict_frame s =
      elim (Option-cases (find? (λ v. str_eq v.session_id c.session_id) s.verdicts)) [
        | inl missing ↦ ground arith
        | inr (verdict, found) ↦ ground (arith, propose_for_signers_frame verdict s)
      ]
