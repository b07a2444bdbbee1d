-- ===== src/Disputes/Resolved.antt =====
-- A dispute after its resolution.
use a2a_verification_network.Prelude.{
  ◌≡◌, refl, true, false, ◌||◌, some, String, ◌<>◌, str_eq, str_eq_self, arith,
}
use a2a_verification_network.External.{External}
use a2a_verification_network.Store.Entities.{Store, Dispute, resolved}
use a2a_verification_network.Store.Queries.{
  Queries, IsSql, reference, reference-IsSql, eq-reference, replace_row,
}
use a2a_verification_network.Store.Rows.{find?-holds, find?-replace_other}
use a2a_verification_network.Store.Monad.{ok, throw, conflict}
use a2a_verification_network.Slashing.Frame.{propose_for_overturned_verdict_frame}
use a2a_verification_network.Disputes.Service
use a2a_verification_network.Disputes.Service.{
  ResolveDisputeDto, resolve, resolution_of, is_resolved, is_appealed,
}
use a2a_verification_network.Disputes.Evidence.{AttachEvidenceDto, attach}
use a2a_verification_network.Disputes.Resolving.{dispute_row, resolve_closed}

-- The dispute with a resolution: every field, old or new.
abbrev pub resolved_dispute : External → ResolveDisputeDto → Dispute → Dispute
resolved_dispute x dto d = record {
  id = d.id;
  session_id = d.session_id;
  reason = d.reason;
  initiator = d.initiator;
  status = resolved;
  resolution = some dto.resolution;
  outcome = dto.outcome;
  opened_at = d.opened_at;
  resolved_at = some x.clock;
}

-- What a resolution leaves: the dispute's row with the resolution, the outcome and the time, no second
-- resolution, and no evidence while the dispute stays as it is.
pub record IsSettled (q : Queries) (x : External) (id : String) (dto : ResolveDisputeDto)
    (s t : Store) (d r : Dispute) : Type 0 where
  pub unresolved : (is_resolved d.status || is_appealed d.status) ≡ false
  pub answer : r ≡ resolved_dispute x dto d
  pub row : dispute_row id t ≡ some (resolved_dispute x dto d)
  pub once : (later : ResolveDisputeDto) → resolve q x id later t ≡ throw conflict t
  pub no_evidence : (e : AttachEvidenceDto) → attach x q id e t ≡ throw conflict t

module _ (x : External) (id : String) (dto : ResolveDisputeDto) (s : Store) (d : Dispute)
    (found : dispute_row id s ≡ some d) where
  resolve_facts :
      (r : Dispute) (t : Store)
      → resolve reference x id dto s ≡ ok r t
      → ((is_resolved d.status || is_appealed d.status) ≡ false)
        × (r ≡ resolution_of x dto d)
        × (t.disputes ≡ replace_row (λ b. str_eq b.id d.id) (resolution_of x dto d) s.disputes)
  unfolding resolve
  resolve_facts r t e =
      let written : Store = record s {
        disputes = replace_row (λ b. str_eq b.id d.id) (resolution_of x dto d) s.disputes;
      } in
      ground (
        arith,
        propose_for_overturned_verdict_frame x
            (record {
              dispute_id = d.id;
              session_id = d.session_id;
              reason = "Verdict overturned in dispute " <> d.id <> ": " <> dto.resolution;
            })
            written,
      )

  resolved_row :
      (t : Store)
      → t.disputes ≡ replace_row (λ b. str_eq b.id d.id) (resolution_of x dto d) s.disputes
      → dispute_row id t ≡ some (resolution_of x dto d)
  resolved_row t rows =
      let own = find?-holds (λ b. str_eq b.id id) s.disputes d found in
      cc (
        rows,
        find?-replace_other (λ b. str_eq b.id id) (λ b. str_eq b.id d.id) s.disputes
            (resolution_of x dto d) d found own (str_eq_self d.id),
      )

attach_resolved :
    (x : External) (id : String) (dto : AttachEvidenceDto) (s : Store) (d : Dispute)
    → dispute_row id s ≡ some d
    → is_resolved d.status ≡ true
    → attach x reference id dto s ≡ throw conflict s
unfolding attach Service.find_one
attach_resolved x id dto s d found closed = ground arith

resolve-IsSettled_at_reference :
    (x : External) (id : String) (dto : ResolveDisputeDto) (s : Store) (d r : Dispute) (t : Store)
    → dispute_row id s ≡ some d
    → resolve reference x id dto s ≡ ok r t
    → IsSettled reference x id dto s t d r
resolve-IsSettled_at_reference x id dto s d r t found e =
    let (before, shown, rows) = resolve_facts x id dto s d found r t e in
    let row = resolved_row x id dto s d found t rows in
    record {
      unresolved = before;
      answer = shown;
      row = row;
      once = λ later.
          resolve_closed reference reference-IsSql x id later t (resolution_of x dto d) row refl;
      no_evidence = λ e. attach_resolved x id e t (resolution_of x dto d) row refl;
    }

module _ (q : Queries) (sql : IsSql q) (x : External) (id : String) (dto : ResolveDisputeDto)
    (s : Store) where
  -- A dispute that is resolved, with whatever outcome, was neither resolved nor under appeal; the
  -- answer and its row are the dispute with the status `resolved`, the resolution, the outcome and the
  -- time, every other field as before. In the database that is left a further resolution and an attachment of
  -- evidence are refused as conflicts and change nothing.
  pub resolve-IsSettled :
      (d r : Dispute) (t : Store)
      → dispute_row id s ≡ some d
      → resolve q x id dto s ≡ ok r t
      → IsSettled q x id dto s t d r
  resolve-IsSettled = rw (eq-reference q sql) (resolve-IsSettled_at_reference x id dto s)
