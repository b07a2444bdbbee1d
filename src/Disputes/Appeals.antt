-- ===== src/Disputes/Appeals.antt =====
-- dispute-appeals.service.ts. `now` is the time of the request.
use a2a_verification_network.Prelude.{
  ℕ, ◌+◌, ◌*◌, max, Bool, true, false, not, ◌&&◌, List, [], Option, none, some, String, ◌<>◌, ltb,
  leb, length, filter, map, is_some, str_eq, includes, to_lower, trim, if◌then◌else◌,
}
use a2a_verification_network.External.{External}
use a2a_verification_network.Store.Entities.{
  Dispute, DisputeOutcome, upheld, overturned, resolved, appealed, DisputeAppeal, DisputeAppealVote,
  AppealStatus, open_appeal, decided, AppealVoteChoice, AppealDecision, stands, reversed, Verdict,
  same_vote,
}
use a2a_verification_network.Store.Queries.{Queries}
use a2a_verification_network.Store.Monad.{
  M, ◌>>=◌, ◌>>◌, return, throw_if, or_throw, when, find_by, find_one_by, insert, save, disputes,
  appeals, votes, not_found, conflict, forbidden, bad_request, unprocessable,
}
use a2a_verification_network.Coordinator.Draw.{select_weighted}
use a2a_verification_network.Disputes.Quorum.{
  AppealTally, appeal_panel_size, reversal_quorum, tally_appeal, decision_at_deadline,
  recover_appeal_voter,
}
use a2a_verification_network.Disputes.Service.{is_resolved}
use a2a_verification_network.Slashing.Service.{
  propose_for_overturned_verdict, reject_pending_for_dispute,
}
use a2a_verification_network.Validators.Service
use a2a_verification_network.Validators.Service.{find_eligible, distinct}
use a2a_verification_network.Verdicts.{find_optional_by_session_id}

abbrev pub baseline_committee_size : ℕ
baseline_committee_size = 3

abbrev pub hour_ms : ℕ
hour_ms = 60 * 60 * 1000

pub record OpenAppealDto : Type 0 where
  pub appellant : String
  pub reason : String

pub record CastAppealVoteDto : Type 0 where
  pub validator_id : String
  pub vote : AppealVoteChoice
  pub signature : String

pub record AppealView : Type 0 where
  pub appeal : DisputeAppeal
  pub votes : List DisputeAppealVote
  pub tally : AppealTally

abbrev pub is_open : AppealStatus → Bool
is_open open_appeal = true
is_open decided = false

abbrev pub is_reversed : AppealDecision → Bool
is_reversed reversed = true
is_reversed stands = false

-- `dispute.resolvedAt && now > dispute.resolvedAt + windowMs`
abbrev pub window_closed : Option ℕ → ℕ → ℕ → Bool
window_closed none window now = false
window_closed (some resolved_at) window now = ltb (resolved_at + window) now

-- `verdict?.signatures ?? []`
abbrev pub signatures_of : Option Verdict → List String
signatures_of none = []
signatures_of (some v) = v.signatures

abbrev pub same_dispute : DisputeAppeal → DisputeAppeal → Bool
same_dispute a b = str_eq a.dispute_id b.dispute_id

-- `dispute.resolution ?? ''`
abbrev text_of : Option String → String
text_of none = ""
text_of (some t) = t

abbrev pub opposite : DisputeOutcome → DisputeOutcome
opposite overturned = upheld
opposite upheld = overturned

-- The dispute after the decision of its appeal.
abbrev pub decided_dispute : DisputeAppeal → AppealDecision → Dispute → Dispute
decided_dispute appeal reversed d = record d {
  status = resolved;
  outcome = some (opposite appeal.original_outcome);
  resolution = some (
      trim (
        text_of d.resolution
        <> "\n[appeal "
        <> appeal.id
        <> "] resolution reversed by the appeal panel"));
}
decided_dispute appeal stands d = record d { status = resolved }

abbrev pub decided_appeal : AppealDecision → ℕ → DisputeAppeal → DisputeAppeal
decided_appeal decision now appeal = record appeal {
  status = decided;
  decision = some decision;
  decided_at = some now;
}

module _ (q : Queries) (x : External) where
  unfoldable pub dispute : String → M Dispute
  dispute id = do found ← find_one_by q disputes (λ d. str_eq d.id id); or_throw not_found found

  unfoldable pub appeal_of : String → M DisputeAppeal
  appeal_of dispute_id = do
    found ← find_one_by q appeals (λ a. str_eq a.dispute_id dispute_id)
    or_throw not_found found

  unfoldable pub view : DisputeAppeal → M AppealView
  unfolding tally_appeal
  view appeal = do
    cast ← find_by q votes (λ v. str_eq v.appeal_id appeal.id)
    return (record {
      appeal = appeal;
      votes = cast;
      tally = tally_appeal (map (λ v. v.vote) cast) (length appeal.panel);
    })

  -- The validators that may review the verdict, and how many signed it, at least the baseline.
  abbrev pub draw_panel : Option Verdict → String → M (List String)
  draw_panel verdict dispute_id = do
    let signers = distinct [] (signatures_of verdict)
    let committee_size = max (length signers) baseline_committee_size
    eligible ← find_eligible q x
    let candidates = filter (λ c. not (includes signers c.id)) eligible
    let panel =
        select_weighted x candidates
          (appeal_panel_size committee_size x.config.appeal_panel_multiplier)
          ("appeal:" <> dispute_id)
    throw_if (leb (length panel) committee_size) unprocessable
    return panel

  unfoldable pub open_appeal_of : String → OpenAppealDto → ℕ → M AppealView
  unfolding dispute view find_optional_by_session_id
  open_appeal_of dispute_id dto now = do
    d ← dispute dispute_id
    existing ← find_one_by q appeals (λ a. str_eq a.dispute_id dispute_id)
    throw_if (is_some existing) conflict
    throw_if (not (is_resolved d.status)) conflict
    outcome ← or_throw conflict d.outcome
    throw_if (window_closed d.resolved_at (x.config.appeal_window_hours * hour_ms) now) conflict
    verdict ← find_optional_by_session_id q x d.session_id
    panel ← draw_panel verdict dispute_id
    appeal ← insert q appeals same_dispute λ n. record {
      id = x.generate n;
      dispute_id = dispute_id;
      appellant = dto.appellant;
      reason = dto.reason;
      original_outcome = outcome;
      panel = panel;
      quorum = reversal_quorum (length panel);
      status = open_appeal;
      decision = none;
      opened_at = x.clock;
      voting_deadline = now + x.config.appeal_voting_hours * hour_ms;
      decided_at = none;
    }
    save q disputes (λ r. str_eq r.id d.id) (record d { status = appealed })
    view appeal

  -- What a decision does to the slashing proposals.
  abbrev pub after_reversal : DisputeAppeal → Dispute → Option DisputeOutcome → M (Unit {0})
  after_reversal appeal d (some overturned) = do
    propose_for_overturned_verdict q x (record {
      dispute_id = d.id;
      session_id = d.session_id;
      reason = "Verdict overturned on appeal " <> appeal.id <> " of dispute " <> d.id;
    })
    return tt
  after_reversal appeal d o = do
    reject_pending_for_dispute q x d.id ("appeal:" <> appeal.id) "Verdict reinstated on appeal"
    return tt

  unfoldable pub decide : DisputeAppeal → AppealDecision → ℕ → M DisputeAppeal
  unfolding dispute
  decide appeal decision now = do
    d ← dispute appeal.dispute_id
    a ← save q appeals (λ r. str_eq r.id appeal.id) (decided_appeal decision now appeal)
    d' ← save q disputes (λ r. str_eq r.id d.id) (decided_dispute appeal decision d)
    when (is_reversed decision) (after_reversal appeal d' d'.outcome)
    return a

  -- `if (tally.decision) await this.decide(…)`; the entity keeps the decision.
  abbrev pub decide_if : Option AppealDecision → DisputeAppeal → ℕ → M DisputeAppeal
  decide_if none appeal now = return appeal
  decide_if (some decision) appeal now = decide appeal decision now

  -- The guards of `vote`.
  unfoldable pub check_vote : String → CastAppealVoteDto → ℕ → M DisputeAppeal
  unfolding appeal_of Service.find_one recover_appeal_voter
  check_vote dispute_id dto now = do
    appeal ← appeal_of dispute_id
    throw_if (not (is_open appeal.status)) conflict
    throw_if (ltb appeal.voting_deadline now) conflict
    throw_if (not (includes appeal.panel dto.validator_id)) forbidden
    validator ← Service.find_one q x dto.validator_id
    signer ← or_throw bad_request (recover_appeal_voter x appeal.id dto.vote dto.signature)
    throw_if (not (str_eq (to_lower signer) (to_lower validator.address))) forbidden
    earlier ←
        find_one_by q votes
          (λ v. str_eq v.appeal_id appeal.id && str_eq v.validator_id dto.validator_id)
    throw_if (is_some earlier) conflict
    return appeal

  abbrev pub vote_row : CastAppealVoteDto → DisputeAppeal → ℕ → DisputeAppealVote
  vote_row dto appeal n = record {
    id = x.generate n;
    appeal_id = appeal.id;
    validator_id = dto.validator_id;
    vote = dto.vote;
    cast_at = x.clock;
  }

  unfoldable pub vote : String → CastAppealVoteDto → ℕ → M AppealView
  vote dispute_id dto now = do
    appeal ← check_vote dispute_id dto now
    insert q votes same_vote (vote_row dto appeal)
    seen ← view appeal
    appeal' ← decide_if seen.tally.decision appeal now
    view appeal'

  abbrev pub or_deadline : AppealTally → Option AppealDecision → AppealDecision
  or_deadline t none = decision_at_deadline t
  or_deadline t (some d) = d

  -- The rest of `close`, for an appeal that is still open.
  unfoldable pub close_open : DisputeAppeal → AppealTally → ℕ → M AppealView
  unfolding decision_at_deadline
  close_open appeal t now = do
    throw_if (not (is_some t.decision) && leb now appeal.voting_deadline) conflict
    appeal' ← decide appeal (or_deadline t t.decision) now
    view appeal'

  unfoldable pub close : String → ℕ → M AppealView
  unfolding appeal_of
  close dispute_id now = do
    appeal ← appeal_of dispute_id
    seen ← view appeal
    (if not (is_open appeal.status) then return seen else close_open appeal seen.tally now)

  unfoldable pub find_by_dispute : String → M AppealView
  unfolding appeal_of view
  find_by_dispute dispute_id = do appeal ← appeal_of dispute_id; view appeal
