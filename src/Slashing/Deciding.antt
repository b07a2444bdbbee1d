-- ===== src/Slashing/Deciding.antt =====
-- A proposal is decided once.
use a2a_verification_network.Prelude.{
  ◌≡◌, refl, ◌&&◌, Bool, true, false, Option, some, String, str_eq, find?, any, arith,
}
use a2a_verification_network.External.{External}
use a2a_verification_network.Store.Entities.{Store, SlashingProposal, SlashingProposalStatus}
use a2a_verification_network.Store.Queries.{reference, update_rows}
use a2a_verification_network.Store.Rows.{
  find?-holds, find?-update_rows, update_rows_unmet, affected_pos,
}
use a2a_verification_network.Store.Monad.{ok, throw, conflict}
use a2a_verification_network.Slashing.Service.{
  DecideSlashingDto, is_pending, decision_patch, decide,
}

abbrev pub proposal_row : String → Store → Option SlashingProposal
proposal_row id s = find? (λ p. str_eq p.id id) s.proposals

-- Whether a row with the id still waits for its decision.
abbrev pub waits : String → SlashingProposal → Bool
waits id p = str_eq p.id id && is_pending p

-- The database after the decision.
abbrev pub decide_rows :
    External → String → SlashingProposalStatus → DecideSlashingDto → Store → Store
decide_rows x id status dto s = record s {
  proposals =
      (update_rows (waits id) (decision_patch status x.clock dto.decided_by dto.note)
        s.proposals).0;
}

module _ (x : External) (id : String) (dto : DecideSlashingDto) where
  pub decide_pending :
      (status : SlashingProposalStatus) (s : Store) (p : SlashingProposal)
      → proposal_row id s ≡ some p
      → is_pending p ≡ true
      → decide reference x id status dto s
        ≡ ok
            (decision_patch status x.clock dto.decided_by dto.note p)
            (decide_rows x id status dto s)
  unfolding decide
  decide_pending status s p found wait =
      let patch = decision_patch status x.clock dto.decided_by dto.note in
      let own = find?-holds (λ r. str_eq r.id id) s.proposals p found in
      ground (
        arith,
        affected_pos (λ r. str_eq r.id id) (waits id) patch s.proposals p found,
        find?-update_rows (λ r. str_eq r.id id) (waits id) patch s.proposals p (λ r. refl) found,
      )

  pub decide_decided :
      (status : SlashingProposalStatus) (s : Store) (p : SlashingProposal)
      → proposal_row id s ≡ some p
      → any (waits id) s.proposals ≡ false
      → decide reference x id status dto s ≡ throw conflict s
  unfolding decide
  decide_decided status s p found off = ground (
    arith,
    update_rows_unmet (waits id) (decision_patch status x.clock dto.decided_by dto.note) s.proposals
        off,
  )
