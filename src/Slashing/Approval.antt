-- ===== src/Slashing/Approval.antt =====
-- What an approval takes from the validator, and what a failed one leaves.
use a2a_verification_network.Prelude.{min, ◌+◌, ◌≡◌, refl, true, none, some, String, str_eq}
use a2a_verification_network.Decimal.{parse_stake, parse_stake-to_string}
use a2a_verification_network.External.{External}
use a2a_verification_network.Store.Entities.{Store, SlashingProposal, Validator, approved}
use a2a_verification_network.Store.Queries.{Queries, IsSql, reference, eq-reference, update_rows}
use a2a_verification_network.Store.Rows.{find?-holds, find?-update_rows}
use a2a_verification_network.Store.Monad.{ok, throw, conflict, not_found}
use a2a_verification_network.Validators.Service.{tier_of}
use a2a_verification_network.Slashing.Service.{
  DecideSlashingDto, is_pending, decision_patch, undecided_patch, approve, reject,
}
use a2a_verification_network.Slashing.Deciding.{proposal_row}
use a2a_verification_network.Slashing.Executing.{
  validator_row, taken, slashed_row, executed_row, decided, approved_store, approve_at,
  approve_missing, decided_found, approve_twice_at, taken_exactly, slashed_found, executed_found,
}

-- What an executed approval leaves: the validator with the stake less the amount, which is the proposed
-- one or all that is left, and the tier of that stake; and the answer, stored as it is, with the amount and
-- the decision, which neither another approval nor a rejection touches again.
pub record IsExecuted (q : Queries) (x : External) (id : String) (dto : DecideSlashingDto)
    (p : SlashingProposal) (v : Validator) (r : SlashingProposal) (t : Store) : Type 0 where
  pub holder : Validator
  pub reduced : validator_row p.validator_id t ≡ some holder
  pub same_tier : holder.tier ≡ (tier_of q x holder.stake).tier
  pub conserved : parse_stake holder.stake + parse_stake r.amount ≡ parse_stake v.stake
  pub exact : parse_stake r.amount ≡ min (parse_stake p.amount) (parse_stake v.stake)
  pub stored : proposal_row id t ≡ some r
  pub status : r.status ≡ approved
  pub decided_at : r.decided_at ≡ some x.clock
  pub decided_by : r.decided_by ≡ some dto.decided_by
  pub decision_note : r.decision_note ≡ dto.note
  pub against : r.validator_id ≡ p.validator_id
  pub once :
      (later : DecideSlashingDto)
      → (approve q x id later t ≡ throw conflict t) × (reject q x id later t ≡ throw conflict t)

approve-IsExecuted_at_reference :
    (x : External) (id : String) (dto : DecideSlashingDto) (s : Store) (p : SlashingProposal)
    (v : Validator)
    → proposal_row id s ≡ some p
    → is_pending p ≡ true
    → validator_row p.validator_id s ≡ some v
    → (r : SlashingProposal) × (t : Store) × (approve reference x id dto s ≡ ok r t)
      × IsExecuted reference x id dto p v r t
approve-IsExecuted_at_reference x id dto s p v found wait registered = (
  executed_row x dto p v,
  approved_store x id dto s p found wait v,
  approve_at x id dto s p found wait v registered,
  record {
    holder = slashed_row reference x p v;
    reduced = slashed_found x id dto s p found wait v registered;
    same_tier = refl;
    conserved = taken_exactly x id dto s p found wait v;
    exact = parse_stake-to_string (taken p v);
    stored = executed_found x id dto s p found wait v;
    status = refl;
    decided_at = refl;
    decided_by = refl;
    decision_note = refl;
    against = refl;
    once = λ later. approve_twice_at x id dto s p found wait v later registered;
  },
)

module _ (q : Queries) (sql : IsSql q) (x : External) (id : String) (dto : DecideSlashingDto)
    (s : Store) (p : SlashingProposal) where
  -- Approving a pending proposal against a registered validator succeeds. The recorded amount is the
  -- proposed one, or the whole stake where that is less; the validator's row has the stake before without
  -- that amount, and the tier of what is left. The answer, which is also the stored row, is approved at
  -- this time by this operator with this note. In the database that is left every approval and every
  -- rejection of the proposal is refused as a conflict and changes nothing.
  pub approve-IsExecuted :
      (v : Validator)
      → proposal_row id s ≡ some p
      → is_pending p ≡ true
      → validator_row p.validator_id s ≡ some v
      → (r : SlashingProposal) × (t : Store) × (approve q x id dto s ≡ ok r t)
        × IsExecuted q x id dto p v r t
  approve-IsExecuted = rw (eq-reference q sql) (approve-IsExecuted_at_reference x id dto s p)

  -- Approving a pending proposal against a validator that is not registered fails, and the proposal
  -- waits for a decision as before, with the fields of a decision empty; no stake changes.
  pub approve_unregistered :
      proposal_row id s ≡ some p
      → is_pending p ≡ true
      → validator_row p.validator_id s ≡ none
      → (t : Store) × (approve q x id dto s ≡ throw not_found t)
        × (proposal_row id t ≡ some (undecided_patch p))
        × (t.validators ≡ s.validators)
  approve_unregistered = rw (eq-reference q sql) λ found wait missing. (
    record s {
      proposals =
          (update_rows (λ r. str_eq r.id id) undecided_patch
            (decided x id dto s p found wait).proposals).0;
    },
    approve_missing x id dto s p found wait missing,
    find?-update_rows (λ r. str_eq r.id id) (λ r. str_eq r.id id) undecided_patch
        (decided x id dto s p found wait).proposals
        (decision_patch approved x.clock dto.decided_by dto.note p) (λ r. refl)
        (decided_found x id dto s p found wait)
        (find?-holds (λ r. str_eq r.id id) s.proposals p found),
    refl,
  )
