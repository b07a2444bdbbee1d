-- ===== src/Disputes/Deciding.antt =====
-- Voting on an appeal, and what its decision does to the dispute.
use a2a_verification_network.Prelude.{
  ℕ, ◌≡◌, true, false, not, ◌&&◌, List, Option, none, some, String, str_eq, find?, arith, ◌||◌,
  includes, ltb, is_some, map, filter, length, ◌≤◌, ◌<>◌,
}
use a2a_verification_network.External.{External}
use a2a_verification_network.Store.Entities.{
  Store, Dispute, DisputeAppeal, AppealDecision, reversed, SlashingProposal, rejected, overturned,
  open_appeal, decided,
}
use a2a_verification_network.Store.Queries.{
  Queries, IsSql, reference, eq-reference, replace_row, update_rows,
}
use a2a_verification_network.Store.Monad.{ok, throw, conflict, is_ok}
use a2a_verification_network.CommitReveal.Committing.{signed_by, validator_row}
use a2a_verification_network.Slashing.Service.{
  reject_pending_for_dispute, is_pending, decision_patch,
}
use a2a_verification_network.Disputes.Resolving.{dispute_row}
use a2a_verification_network.Disputes.Quorum.{recover_appeal_voter, tally_appeal, AppealTally}
use a2a_verification_network.Disputes.Appeals.{
  CastAppealVoteDto, AppealView, check_vote, vote, close, close_open, decide, is_open, view,
  decided_appeal, decided_dispute, find_by_dispute,
}

abbrev pub appeal_row : String → Store → Option DisputeAppeal
appeal_row dispute_id s = find? (λ a. str_eq a.dispute_id dispute_id) s.appeals

-- The tally of the votes that were cast.
abbrev pub cast_tally : DisputeAppeal → Store → AppealTally
cast_tally a s =
    tally_appeal (map (λ v. v.vote) (filter (λ v. str_eq v.appeal_id a.id) s.votes))
      (length a.panel)

-- What a vote needs.
pub record MayVote (x : External) (dispute_id : String) (dto : CastAppealVoteDto) (now : ℕ)
    (s : Store) (a : DisputeAppeal) : Type 0 where
  pub open_round : is_open a.status ≡ true
  pub in_time : ltb a.voting_deadline now ≡ false
  pub on_panel : includes a.panel dto.validator_id ≡ true
  pub signature :
      signed_by
        (recover_appeal_voter x a.id dto.vote dto.signature)
        (validator_row dto.validator_id s)
      ≡ true
  pub first :
      is_some
        (find? (λ v. str_eq v.appeal_id a.id && str_eq v.validator_id dto.validator_id) s.votes)
      ≡ false

module _ (x : External) (dispute_id : String) (now : ℕ) (s : Store) (a : DisputeAppeal) where
  check_vote_guards :
      (dto : CastAppealVoteDto)
      → appeal_row dispute_id s ≡ some a
      → is_ok (check_vote reference x dispute_id dto now s) ≡ true
      → MayVote x dispute_id dto now s a
  unfolding check_vote
  check_vote_guards dto found e = ground arith

  vote-guards_at_reference :
      (dto : CastAppealVoteDto) (r : AppealView) (t : Store)
      → appeal_row dispute_id s ≡ some a
      → vote reference x dispute_id dto now s ≡ ok r t
      → MayVote x dispute_id dto now s a
  unfolding vote
  vote-guards_at_reference dto r t found e = check_vote_guards dto found (ground arith)

  vote_closed_at_reference :
      (dto : CastAppealVoteDto)
      → appeal_row dispute_id s ≡ some a
      → (not (is_open a.status) || ltb a.voting_deadline now) ≡ true
      → vote reference x dispute_id dto now s ≡ throw conflict s
  unfolding vote check_vote
  vote_closed_at_reference dto found late = ground arith

  -- The appeal and the dispute after a decision.
  abbrev pub decision_rows : AppealDecision → Dispute → Store
  decision_rows decision d = record s {
    appeals = replace_row (λ r. str_eq r.id a.id) (decided_appeal decision now a) s.appeals;
    disputes = replace_row (λ r. str_eq r.id d.id) (decided_dispute a decision d) s.disputes;
  }

  abbrev pub withdrawn_rows : Dispute → List SlashingProposal
  withdrawn_rows d =
      (update_rows (λ p. str_eq p.dispute_id d.id && is_pending p)
        (decision_patch rejected x.clock ("appeal:" <> a.id) (some "Verdict reinstated on appeal"))
        s.proposals).0

  decide_reinstates_at_reference :
      (d : Dispute)
      → dispute_row a.dispute_id s ≡ some d
      → a.original_outcome ≡ overturned
      → decide reference x a reversed now s
        ≡ ok
            (decided_appeal reversed now a)
            (record (decision_rows reversed d) { proposals = withdrawn_rows d })
  unfolding decide reject_pending_for_dispute
  decide_reinstates_at_reference d found was = ground arith

  close-decided_at_reference :
      appeal_row dispute_id s ≡ some a
      → a.status ≡ decided
      → close reference x dispute_id now s ≡ find_by_dispute reference x dispute_id s
  unfolding close view find_by_dispute
  close-decided_at_reference found closed = ground arith

  close_early_at_reference :
      appeal_row dispute_id s ≡ some a
      → a.status ≡ open_appeal
      → (cast_tally a s).decision ≡ none
      → now ≤ a.voting_deadline
      → close reference x dispute_id now s ≡ throw conflict s
  unfolding close view close_open
  close_early_at_reference found still undecided early = ground arith

module _ (q : Queries) (sql : IsSql q) (x : External) (dispute_id : String) (now : ℕ) (s : Store)
    (a : DisputeAppeal) where
  -- A vote that is accepted meets every guard: the appeal is open and its deadline has not passed, the
  -- validator is on the panel, is registered, has signed this vote on this appeal with the registered
  -- address, and has not voted on the appeal before.
  pub vote-guards :
      (dto : CastAppealVoteDto) (r : AppealView) (t : Store)
      → appeal_row dispute_id s ≡ some a
      → vote q x dispute_id dto now s ≡ ok r t
      → MayVote x dispute_id dto now s a
  vote-guards = rw (eq-reference q sql) (vote-guards_at_reference x dispute_id now s a)

  -- An appeal that is decided, or whose deadline has passed, takes no vote: the call is refused as a
  -- conflict and changes nothing.
  pub vote_closed :
      (dto : CastAppealVoteDto)
      → appeal_row dispute_id s ≡ some a
      → (not (is_open a.status) || ltb a.voting_deadline now) ≡ true
      → vote q x dispute_id dto now s ≡ throw conflict s
  vote_closed = rw (eq-reference q sql) (vote_closed_at_reference x dispute_id now s a)

  -- Closing an appeal that is decided shows it as it is, like a query, and changes nothing.
  pub close-decided :
      appeal_row dispute_id s ≡ some a
      → a.status ≡ decided
      → close q x dispute_id now s ≡ find_by_dispute q x dispute_id s
  close-decided = rw (eq-reference q sql) (close-decided_at_reference x dispute_id now s a)

  -- Closing an open appeal before its deadline, while its votes leave the result open, is refused as a
  -- conflict and changes nothing.
  pub close_early :
      appeal_row dispute_id s ≡ some a
      → a.status ≡ open_appeal
      → (cast_tally a s).decision ≡ none
      → now ≤ a.voting_deadline
      → close q x dispute_id now s ≡ throw conflict s
  close_early = rw (eq-reference q sql) (close_early_at_reference x dispute_id now s a)

  -- A decision that reverses an overturning reinstates the verdict: the dispute is resolved as upheld,
  -- and the proposals of the dispute that still wait are rejected in the appeal's name. Proposals that
  -- were decided, and every other table, stay as they were.
  pub decide_reinstates :
      (d : Dispute)
      → dispute_row a.dispute_id s ≡ some d
      → a.original_outcome ≡ overturned
      → decide q x a reversed now s
        ≡ ok
            (decided_appeal reversed now a)
            (record (decision_rows x dispute_id now s a reversed d) {
              proposals = withdrawn_rows x dispute_id now s a d;
            })
  decide_reinstates = rw (eq-reference q sql) (decide_reinstates_at_reference x dispute_id now s a)
