-- ===== src/Disputes/Resolving.antt =====
-- Resolving a dispute that has been resolved or appealed.
use a2a_verification_network.Prelude.{◌≡◌, true, Option, some, String, str_eq, find?, arith, ◌||◌}
use a2a_verification_network.External.{External}
use a2a_verification_network.Store.Entities.{Store, Dispute}
use a2a_verification_network.Store.Queries.{Queries, IsSql, reference, eq-reference}
use a2a_verification_network.Store.Monad.{throw, conflict}
use a2a_verification_network.Disputes.Service.{ResolveDisputeDto, resolve, is_resolved, is_appealed}

abbrev pub dispute_row : String → Store → Option Dispute
dispute_row id s = find? (λ d. str_eq d.id id) s.disputes

module _ (x : External) (id : String) (dto : ResolveDisputeDto) (s : Store) (d : Dispute) where
  resolve_twice_at_reference :
      dispute_row id s ≡ some d
      → (is_resolved d.status || is_appealed d.status) ≡ true
      → resolve reference x id dto s ≡ throw conflict s
  unfolding resolve
  resolve_twice_at_reference found closed = ground arith

module _ (q : Queries) (sql : IsSql q) (x : External) (id : String) (dto : ResolveDisputeDto)
    (s : Store) (d : Dispute) where
  -- A dispute that is resolved or under appeal cannot be resolved again: the call is refused as a
  -- conflict and changes nothing, whatever resolution it brings.
  pub resolve_closed :
      dispute_row id s ≡ some d
      → (is_resolved d.status || is_appealed d.status) ≡ true
      → resolve q x id dto s ≡ throw conflict s
  resolve_closed = rw (eq-reference q sql) (resolve_twice_at_reference x id dto s d)
