-- ===== src/Disputes/Closing.antt =====
-- Closing an appeal, and the calls that follow.
use a2a_verification_network.Prelude.{
  ℕ, ◌≡◌, ◌≢◌, refl, ◌||◌, sym, subst, inl, inr, true, Option, none, some, String, str_eq,
  str_eq_iff, str_eq_self, arith, Option-cases, ◌<>◌,
}
use a2a_verification_network.External.{External}
use a2a_verification_network.Store.Entities.{
  Store, Dispute, DisputeOutcome, upheld, overturned, resolved, decided, DisputeAppeal,
  AppealDecision, stands, reversed, open_appeal,
}
use a2a_verification_network.Store.Queries.{
  Queries, IsSql, reference, reference-IsSql, eq-reference, replace_row,
}
use a2a_verification_network.Store.Rows.{find?-holds, find?-replace_other}
use a2a_verification_network.Store.Monad.{ok, throw, conflict}
use a2a_verification_network.Slashing.Service.{reject_pending_for_dispute}
use a2a_verification_network.Slashing.Frame.{propose_for_overturned_verdict_frame}
use a2a_verification_network.Disputes.Service.{ResolveDisputeDto, resolve, is_resolved, is_appealed}
use a2a_verification_network.Disputes.Quorum.{decision_at_deadline}
use a2a_verification_network.Disputes.Appeals.{
  CastAppealVoteDto, AppealView, vote, view, close, close_open, decide, decided_appeal,
  decided_dispute, find_by_dispute,
}
use a2a_verification_network.Disputes.Deciding.{appeal_row, cast_tally, vote_closed, close-decided}
use a2a_verification_network.Disputes.Resolving.{dispute_row, resolve_closed}

module _ (x : External) (a : DisputeAppeal) (decision : AppealDecision) (now : ℕ) (s : Store) where
  -- The rows that a decision writes.
  decide_rows_written :
      (d : Dispute) (r : DisputeAppeal) (t : Store)
      → dispute_row a.dispute_id s ≡ some d
      → decide reference x a decision now s ≡ ok r t
      → (r ≡ decided_appeal decision now a)
        × (t.appeals
            ≡ replace_row (λ b. str_eq b.id a.id) (decided_appeal decision now a) s.appeals)
        × (t.disputes
            ≡ replace_row (λ b. str_eq b.id d.id) (decided_dispute a decision d) s.disputes)
  unfolding decide reject_pending_for_dispute
  decide_rows_written d r t found e =
      let written : Store = record s {
        appeals = replace_row (λ b. str_eq b.id a.id) (decided_appeal decision now a) s.appeals;
        disputes = replace_row (λ b. str_eq b.id d.id) (decided_dispute a decision d) s.disputes;
      } in
      ground (
        arith,
        propose_for_overturned_verdict_frame x
            (record {
              dispute_id = d.id;
              session_id = d.session_id;
              reason = "Verdict overturned on appeal " <> a.id <> " of dispute " <> d.id;
            })
            written,
      )

  decide_unknown :
      (r : DisputeAppeal) (t : Store)
      → dispute_row a.dispute_id s ≡ none
      → decide reference x a decision now s ≢ ok r t
  unfolding decide
  decide_unknown r t missing e = ground arith

decided_dispute-id :
    (a : DisputeAppeal) (decision : AppealDecision) (d : Dispute)
    → (decided_dispute a decision d).id ≡ d.id
decided_dispute-id a stands d = refl
decided_dispute-id a reversed d = refl

decided_dispute-resolved :
    (a : DisputeAppeal) (decision : AppealDecision) (d : Dispute)
    → (is_resolved (decided_dispute a decision d).status
        || is_appealed (decided_dispute a decision d).status)
      ≡ true
decided_dispute-resolved a stands d = refl
decided_dispute-resolved a reversed d = refl

decided_dispute-status :
    (a : DisputeAppeal) (decision : AppealDecision) (d : Dispute)
    → (decided_dispute a decision d).status ≡ resolved
decided_dispute-status a stands d = refl
decided_dispute-status a reversed d = refl

-- The decision of an appeal that is closed: that of its votes, or the one at the deadline.
abbrev pub closing_decision : DisputeAppeal → Store → AppealDecision
closing_decision a s = elim (cast_tally a s).decision [
  | none ↦ decision_at_deadline (cast_tally a s)
  | some e ↦ e
]

module _ (x : External) (dispute_id : String) (now : ℕ) (s : Store) (a : DisputeAppeal)
    (found : appeal_row dispute_id s ≡ some a) where
  close-decide :
      (r : AppealView) (t : Store)
      → a.status ≡ open_appeal
      → close reference x dispute_id now s ≡ ok r t
      → decide reference x a (closing_decision a s) now s ≡ ok r.appeal t
  unfolding close close_open view
  close-decide r t still e = ground arith

  own_dispute : a.dispute_id ≡ dispute_id
  own_dispute =
      (str_eq_iff a.dispute_id dispute_id).0
        (find?-holds (λ b. str_eq b.dispute_id dispute_id) s.appeals a found)

  decided_rows :
      (decision : AppealDecision) (d : Dispute) (t : Store)
      → dispute_row dispute_id s ≡ some d
      → t.appeals ≡ replace_row (λ b. str_eq b.id a.id) (decided_appeal decision now a) s.appeals
      → t.disputes ≡ replace_row (λ b. str_eq b.id d.id) (decided_dispute a decision d) s.disputes
      → (appeal_row dispute_id t ≡ some (decided_appeal decision now a))
        × (dispute_row dispute_id t ≡ some (decided_dispute a decision d))
  decided_rows decision d t known appeals disputes =
      let own : str_eq a.dispute_id dispute_id ≡ true =
        find?-holds (λ b. str_eq b.dispute_id dispute_id) s.appeals a found in
      let same : str_eq d.id dispute_id ≡ true =
        find?-holds (λ b. str_eq b.id dispute_id) s.disputes d known in
      (
        cc (
          appeals,
          find?-replace_other (λ b. str_eq b.dispute_id dispute_id) (λ b. str_eq b.id a.id)
              s.appeals (decided_appeal decision now a) a found own (str_eq_self a.id),
        ),
        cc (
          disputes,
          find?-replace_other (λ b. str_eq b.id dispute_id) (λ b. str_eq b.id d.id) s.disputes
              (decided_dispute a decision d) d known
              (subst (λ i. str_eq i dispute_id ≡ true) (sym (decided_dispute-id a decision d)) same)
              (str_eq_self d.id),
        ),
      )

-- The appeal once it is decided: the decision, the time and the status are the only new fields.
abbrev pub closed_appeal : DisputeAppeal → AppealDecision → ℕ → DisputeAppeal
closed_appeal a decision now = record {
  id = a.id;
  dispute_id = a.dispute_id;
  appellant = a.appellant;
  reason = a.reason;
  original_outcome = a.original_outcome;
  panel = a.panel;
  quorum = a.quorum;
  status = decided;
  decision = some decision;
  opened_at = a.opened_at;
  voting_deadline = a.voting_deadline;
  decided_at = some now;
}

-- The outcome of a dispute after the decision of its appeal.
abbrev pub outcome_after :
    AppealDecision → DisputeAppeal → Option DisputeOutcome → Option DisputeOutcome
outcome_after stands a o = o
outcome_after reversed a o = elim a.original_outcome [
  | upheld ↦ some overturned
  | overturned ↦ some upheld
]

decided_dispute-outcome :
    (a : DisputeAppeal) (decision : AppealDecision) (d : Dispute)
    → (decided_dispute a decision d).outcome ≡ outcome_after decision a d.outcome
decided_dispute-outcome a stands d = refl
decided_dispute-outcome a reversed d = ground arith

-- What is left of an appeal that was closed: the appeal with its decision, its dispute, resolved with the
-- outcome that stands or is reversed, and no way to vote, to resolve the dispute or to decide again.
pub record IsClosed (q : Queries) (x : External) (dispute_id : String) (now : ℕ) (s t : Store)
    (a : DisputeAppeal) (r : AppealView) : Type 0 where
  pub shown : r.appeal ≡ closed_appeal a (closing_decision a s) now
  pub row : appeal_row dispute_id t ≡ some (closed_appeal a (closing_decision a s) now)
  pub before : Dispute
  pub before_row : dispute_row dispute_id s ≡ some before
  pub after : Dispute
  pub after_row : dispute_row dispute_id t ≡ some after
  pub after_status : after.status ≡ resolved
  pub after_outcome : after.outcome ≡ outcome_after (closing_decision a s) a before.outcome
  pub no_vote :
      (dto : CastAppealVoteDto) (later : ℕ) → vote q x dispute_id dto later t ≡ throw conflict t
  pub no_resolution : (dto : ResolveDisputeDto) → resolve q x dispute_id dto t ≡ throw conflict t
  pub again : (later : ℕ) → close q x dispute_id later t ≡ find_by_dispute q x dispute_id t

close-IsClosed_at_reference :
    (x : External) (dispute_id : String) (now : ℕ) (s : Store) (a : DisputeAppeal) (r : AppealView)
    (t : Store)
    → appeal_row dispute_id s ≡ some a
    → a.status ≡ open_appeal
    → close reference x dispute_id now s ≡ ok r t
    → IsClosed reference x dispute_id now s t a r
close-IsClosed_at_reference x dispute_id now s a r t found still e =
    let decision = closing_decision a s in
    let ran = close-decide x dispute_id now s a found r t still e in
    elim (Option-cases (dispute_row a.dispute_id s)) [
      | inl missing ↦ absurd (decide_unknown x a decision now s r.appeal t missing ran)
      | inr (d, known) ↦
          let (shown, appeals, disputes) =
            decide_rows_written x a decision now s d r.appeal t known ran in
          let there =
            subst (λ i. dispute_row i s ≡ some d) (own_dispute x dispute_id now s a found) known in
          let (row, ended) =
            decided_rows x dispute_id now s a found decision d t there appeals disputes in
          record {
            shown = shown;
            row = row;
            before = d;
            before_row = there;
            after = decided_dispute a decision d;
            after_row = ended;
            after_status = decided_dispute-status a decision d;
            after_outcome = decided_dispute-outcome a decision d;
            no_vote = λ dto later.
                vote_closed reference reference-IsSql x dispute_id later t
                  (decided_appeal decision now a) dto row refl;
            no_resolution = λ dto.
                resolve_closed reference reference-IsSql x dispute_id dto t
                  (decided_dispute a decision d) ended (decided_dispute-resolved a decision d);
            again = λ later.
                close-decided reference reference-IsSql x dispute_id later t
                  (decided_appeal decision now a) row refl;
          }
    ]

module _ (q : Queries) (sql : IsSql q) (x : External) (dispute_id : String) (now : ℕ) (s : Store)
    (a : DisputeAppeal) where
  -- Closing an open appeal, when it succeeds, settles it: the answer and the stored row are the appeal
  -- with the status `decided`, the time and the decision of its votes, or the one at the deadline, every
  -- other field as before; the dispute is stored as resolved, with its outcome if the decision is that it
  -- stands and the opposite of the appealed one if it is reversed. In the database that is left every vote
  -- on the appeal and every resolution of the dispute is refused as a conflict and changes nothing, and
  -- closing the appeal again only shows it.
  pub close-IsClosed :
      (r : AppealView) (t : Store)
      → appeal_row dispute_id s ≡ some a
      → a.status ≡ open_appeal
      → close q x dispute_id now s ≡ ok r t
      → IsClosed q x dispute_id now s t a r
  close-IsClosed = rw (eq-reference q sql) (close-IsClosed_at_reference x dispute_id now s a)
