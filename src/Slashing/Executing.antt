-- ===== src/Slashing/Executing.antt =====
-- The steps of an approval: the decision, the withdrawal of the stake, the recorded amount.
use a2a_verification_network.Prelude.{
  ℕ, ◌+◌, ◌-◌, ◌≡◌, refl, sym, subst, min, true, false, Option, none, some, String, str_eq, find?,
  any, arith, str_eq_self, str_eq_iff, ltb, if◌then◌else◌,
}
use a2a_verification_network.Decimal.{parse_stake, to_string, parse_stake-to_string}
use a2a_verification_network.External.{External}
use a2a_verification_network.Store.Entities.{Store, SlashingProposal, Validator, approved, rejected}
use a2a_verification_network.Store.Queries.{Queries, reference, update_rows, replace_row}
use a2a_verification_network.Store.Rows.{
  find?-holds, find?-replace_row, find?-update_rows, any-update_rows, any-replace_row,
}
use a2a_verification_network.Store.Monad.{ok, throw, conflict, not_found}
use a2a_verification_network.Validators.Service
use a2a_verification_network.Validators.Service.{tier_of}
use a2a_verification_network.Slashing.Service.{
  DecideSlashingDto, is_pending, decision_patch, undecided_patch, execute, approve, reject,
}
use a2a_verification_network.Slashing.Deciding.{
  proposal_row, waits, decide_rows, decide_pending, decide_decided,
}

abbrev pub validator_row : String → Store → Option Validator
validator_row id s = find? (λ v. str_eq v.id id) s.validators

-- What is taken: the amount, at most the stake.
abbrev pub taken : SlashingProposal → Validator → ℕ
taken p v = min (parse_stake p.amount) (parse_stake v.stake)

-- The validator after the slash.
abbrev pub slashed_row : Queries → External → SlashingProposal → Validator → Validator
slashed_row q x p v =
    let left = to_string (parse_stake v.stake - taken p v) in
    record v { stake = left; tier = (tier_of q x left).tier }

-- The proposal after it was executed.
abbrev pub executed_row :
    External → DecideSlashingDto → SlashingProposal → Validator → SlashingProposal
executed_row x dto p v = record (decision_patch approved x.clock dto.decided_by dto.note p) {
  amount = to_string (taken p v);
}

cap-min : (a b : ℕ) → (if ltb b a then b else a) ≡ min a b
cap-min a b = ground arith

validator_row_own :
    (id : String) (s : Store) {v : Validator}
    → validator_row id s ≡ some v
    → validator_row v.id s ≡ some v
validator_row_own id s {v} h =
    subst (λ i. validator_row i s ≡ some v)
      (sym ((str_eq_iff v.id id).0 (find?-holds (λ r. str_eq r.id id) s.validators v h))) h

find_validator :
    (x : External) (id : String) (s : Store) {v : Validator}
    → validator_row id s ≡ some v
    → Service.find_one reference x id s ≡ ok v s
unfolding Service.find_one
find_validator x id s found = rw (found, Service.find_one)

update_stake_at :
    (x : External) (id stake : String) (s : Store) {v : Validator}
    → validator_row id s ≡ some v
    → Service.update_stake reference x v.id stake s
      ≡ ok
          (record v { stake = stake; tier = (tier_of reference x stake).tier })
          (record s {
            validators =
                replace_row
                  (λ r. str_eq r.id v.id)
                  (record v { stake = stake; tier = (tier_of reference x stake).tier })
                  s.validators;
          })
unfolding Service.update_stake
update_stake_at x id stake s {v} found =
    ground (arith, find_validator x v.id s (validator_row_own id s found))

module _ (x : External) (id : String) (dto : DecideSlashingDto) (s : Store) (p : SlashingProposal)
    (found : proposal_row id s ≡ some p) (wait : is_pending p ≡ true) where
  abbrev pub decided : Store
  decided = decide_rows x id approved dto s

  -- The database after the approval of a proposal against a registered validator.
  abbrev pub approved_store : Validator → Store
  approved_store v = record decided {
    validators = replace_row (λ r. str_eq r.id v.id) (slashed_row reference x p v) s.validators;
    proposals = replace_row (λ r. str_eq r.id p.id) (executed_row x dto p v) decided.proposals;
  }

  execute_at :
      (v : Validator)
      → validator_row p.validator_id s ≡ some v
      → execute reference x (decision_patch approved x.clock dto.decided_by dto.note p) decided
        ≡ ok (executed_row x dto p v) (approved_store v)
  unfolding execute
  execute_at v registered = ground (
    arith,
    find_validator x p.validator_id decided registered,
    update_stake_at x p.validator_id (to_string (parse_stake v.stake - taken p v)) decided
        registered,
    cap-min (parse_stake p.amount) (parse_stake v.stake),
  )

  execute_missing :
      validator_row p.validator_id s ≡ none
      → execute reference x (decision_patch approved x.clock dto.decided_by dto.note p) decided
        ≡ throw not_found decided
  unfolding execute Service.find_one
  execute_missing missing = ground arith

  pub approve_at :
      (v : Validator)
      → validator_row p.validator_id s ≡ some v
      → approve reference x id dto s ≡ ok (executed_row x dto p v) (approved_store v)
  unfolding approve
  approve_at v registered =
      ground (arith, decide_pending x id dto approved s p found wait, execute_at v registered)

  pub approve_missing :
      validator_row p.validator_id s ≡ none
      → approve reference x id dto s
        ≡ throw not_found (record s {
          proposals = (update_rows (λ r. str_eq r.id id) undecided_patch decided.proposals).0;
        })
  unfolding approve
  approve_missing missing =
      ground (arith, decide_pending x id dto approved s p found wait, execute_missing missing)

  own_id : p.id ≡ id
  own_id = (str_eq_iff p.id id).0 (find?-holds (λ r. str_eq r.id id) s.proposals p found)

  -- No row with the id waits for a decision any more, and the proposal is found as executed.
  nothing_waits : (v : Validator) → any (waits id) (approved_store v).proposals ≡ false
  nothing_waits v =
      any-replace_row (waits id) (λ r. str_eq r.id p.id) (executed_row x dto p v) decided.proposals
        (any-update_rows (waits id) (decision_patch approved x.clock dto.decided_by dto.note)
          s.proposals (λ r. ground arith))
        (ground arith)

  pub decided_found :
      proposal_row id decided ≡ some (decision_patch approved x.clock dto.decided_by dto.note p)
  decided_found =
      find?-update_rows (λ r. str_eq r.id id) (waits id)
        (decision_patch approved x.clock dto.decided_by dto.note) s.proposals p (λ r. refl) found
        (ground (arith, find?-holds (λ r. str_eq r.id id) s.proposals p found))

  pub executed_found :
      (v : Validator) → proposal_row id (approved_store v) ≡ some (executed_row x dto p v)
  executed_found v =
      subst
        (λ i.
          find? (λ r. str_eq r.id i) (approved_store v).proposals ≡ some (executed_row x dto p v))
        own_id
        (find?-replace_row (λ r. str_eq r.id p.id) decided.proposals (executed_row x dto p v)
          (decision_patch approved x.clock dto.decided_by dto.note p)
          (subst
            (λ i.
              find? (λ r. str_eq r.id i) decided.proposals
              ≡ some (decision_patch approved x.clock dto.decided_by dto.note p))
            (sym own_id) decided_found)
          (str_eq_self p.id))

  pub approve_twice_at :
      (v : Validator) (later : DecideSlashingDto)
      → validator_row p.validator_id s ≡ some v
      → (approve reference x id later (approved_store v) ≡ throw conflict (approved_store v))
        × (reject reference x id later (approved_store v) ≡ throw conflict (approved_store v))
  unfolding approve reject
  approve_twice_at v later registered = ground (
    arith,
    decide_decided x id later approved (approved_store v) (executed_row x dto p v)
        (executed_found v) (nothing_waits v),
    decide_decided x id later rejected (approved_store v) (executed_row x dto p v)
        (executed_found v) (nothing_waits v),
  )

  pub taken_exactly :
      (v : Validator)
      → parse_stake (slashed_row reference x p v).stake
          + parse_stake (executed_row x dto p v).amount
        ≡ parse_stake v.stake
  taken_exactly v = omega (
    arith,
    parse_stake-to_string (parse_stake v.stake - taken p v),
    parse_stake-to_string (taken p v),
  )

  pub slashed_found :
      (v : Validator)
      → validator_row p.validator_id s ≡ some v
      → validator_row p.validator_id (approved_store v) ≡ some (slashed_row reference x p v)
  slashed_found v registered =
      subst
        (λ i.
          find? (λ r. str_eq r.id i) (approved_store v).validators
          ≡ some (slashed_row reference x p v))
        ((str_eq_iff v.id p.validator_id).0
          (find?-holds (λ r. str_eq r.id p.validator_id) s.validators v registered))
        (find?-replace_row (λ r. str_eq r.id v.id) s.validators (slashed_row reference x p v) v
          (validator_row_own p.validator_id s registered) (str_eq_self v.id))
