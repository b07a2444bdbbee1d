-- ===== src/Disputes/Service.antt =====
-- disputes.service.ts.
use a2a_verification_network.Prelude.{Bool, true, false, Option, none, some, String, str_eq, ◌<>◌}
use a2a_verification_network.External.{External}
use a2a_verification_network.Store.Entities.{
  Dispute, DisputeStatus, open_dispute, resolved, appealed, DisputeOutcome, overturned,
}
use a2a_verification_network.Store.Queries.{Queries}
use a2a_verification_network.Store.Monad.{
  M, ◌>>=◌, ◌>>◌, return, throw_if, or_throw, when, find_one_by, insert, save, disputes, not_found,
  conflict,
}
use a2a_verification_network.Slashing.Service.{propose_for_overturned_verdict}

pub record OpenDisputeDto : Type 0 where
  pub session_id : String
  pub reason : String
  pub initiator : String

pub record ResolveDisputeDto : Type 0 where
  pub resolution : String
  pub outcome : Option DisputeOutcome

abbrev pub is_resolved : DisputeStatus → Bool
is_resolved resolved = true
is_resolved _ = false

abbrev pub is_appealed : DisputeStatus → Bool
is_appealed appealed = true
is_appealed _ = false

abbrev pub is_overturned : Option DisputeOutcome → Bool
is_overturned (some overturned) = true
is_overturned _ = false

-- The entity after a resolution.
abbrev pub resolution_of : External → ResolveDisputeDto → Dispute → Dispute
resolution_of x dto d = record d {
  status = resolved;
  resolution = some dto.resolution;
  outcome = dto.outcome;
  resolved_at = some x.clock;
}

module _ (q : Queries) (x : External) where
  unfoldable pub open_dispute_for : OpenDisputeDto → M Dispute
  open_dispute_for dto =
      insert q disputes (λ a b. false)
        λ n. record {
          id = x.generate n;
          session_id = dto.session_id;
          reason = dto.reason;
          initiator = dto.initiator;
          status = open_dispute;
          resolution = none;
          outcome = none;
          opened_at = x.clock;
          resolved_at = none;
        }

  unfoldable pub find_one : String → M Dispute
  find_one id = do found ← find_one_by q disputes (λ d. str_eq d.id id); or_throw not_found found

  -- The proposals that an overturned verdict raises.
  abbrev pub raise_if_overturned : ResolveDisputeDto → Dispute → M (Unit {0})
  raise_if_overturned dto saved = when (is_overturned saved.outcome) do
    propose_for_overturned_verdict q x (record {
      dispute_id = saved.id;
      session_id = saved.session_id;
      reason = "Verdict overturned in dispute " <> saved.id <> ": " <> dto.resolution;
    })
    return tt

  unfoldable pub resolve : String → ResolveDisputeDto → M Dispute
  unfolding find_one
  resolve id dto = do
    dispute ← find_one id
    throw_if (is_resolved dispute.status) conflict
    throw_if (is_appealed dispute.status) conflict
    saved ← save q disputes (λ d. str_eq d.id dispute.id) (resolution_of x dto dispute)
    raise_if_overturned dto saved
    return saved
