-- ===== src/System/Changes.antt =====
-- What a request can do to the commitments: nothing, add one that is sealed, or open one that is sealed.
use a2a_verification_network.Prelude.{
  ℕ, suc, ◌≡◌, refl, ◌⊎◌, inl, inr, true, false, List, [], ◌∷◌, ◌++◌, Option, none, some, String,
  str_eq_iff, any, is_some, str_eq, to_lower, arith, Option-cases, Bool-cases,
}
use a2a_verification_network.External.{External}
use a2a_verification_network.Store.Entities.{
  Store, VerificationJob, VerdictCommitment, same_commitment,
}
use a2a_verification_network.Store.Queries.{reference, replace_row}
use a2a_verification_network.Store.Monad.{state_of, ok, is_ok}
use a2a_verification_network.Store.Distinct.{In, In-tail, In-filter, find?-In}
use a2a_verification_network.System.Quiet.{IsKept, IsKept-refl, then-IsQuiet, when-IsQuiet}
use a2a_verification_network.System.Quiet.Tables.{next-IsKept}
use a2a_verification_network.Jobs.Laws.{job_row}
use a2a_verification_network.Store.Rows.{find?-holds}
use a2a_verification_network.System.Quiet.Rounds.{settle-IsQuiet, status-IsQuiet}
use a2a_verification_network.CommitReveal.Service.{
  CommitVerdictDto, RevealVerdictDto, commit, reveal, check_reveal, opened, revealed_list,
  all_revealed,
}
use a2a_verification_network.CommitReveal.Tally.{compute_commit_hash}
use a2a_verification_network.CommitReveal.Committing.{round_rows, sealed_row}
use a2a_verification_network.CommitReveal.Revealing.{
  MayReveal, check_reveal_guards, check_reveal_ok,
}

-- A commitment as `commit` writes it.
pub record IsSealed (x : External) (n : ℕ) (c : VerdictCommitment) : Type 0 where
  pub id : c.id ≡ x.generate n
  pub outcome : c.outcome ≡ none
  pub salt : c.salt ≡ none
  pub unopened : c.revealed_at ≡ none

-- A commitment of the database that the vote opens.
pub record MayOpen (x : External) (dto : RevealVerdictDto) (c : VerdictCommitment)
    (rows : List VerdictCommitment) : Type 0 where
  pub present : In c rows
  pub validator : str_eq c.validator_id dto.validator_id ≡ true
  pub unopened : is_some c.revealed_at ≡ false
  pub binding :
      str_eq
        (to_lower (compute_commit_hash x c.job_id c.validator_id dto.outcome dto.salt))
        (to_lower c.commit_hash)
      ≡ true

-- The database with the vote in its commitment.
abbrev pub with_vote : External → RevealVerdictDto → ℕ → VerdictCommitment → Store → Store
with_vote x dto now c s = record s {
  commitments = replace_row (λ r. str_eq r.id c.id) (opened reference x dto now c) s.commitments;
}

abbrev pub with_sealed : VerdictCommitment → Store → Store
with_sealed c s = record s { commitments = s.commitments ++ c ∷ []; sequence = suc s.sequence }

pub data Change (x : External) (s t : Store) : Type 0 where
  kept : IsKept s t → Change x s t
  sealed :
      (c : VerdictCommitment)
      → IsSealed x s.sequence c
      → any (same_commitment c) s.commitments ≡ false
      → t ≡ with_sealed c s
      → Change x s t
  voted :
      (dto : RevealVerdictDto) (now : ℕ) (c : VerdictCommitment)
      → MayOpen x dto c s.commitments
      → IsKept (with_vote x dto now c s) t
      → Change x s t

module _ (x : External) (job_id : String) where
  commit_cases :
      (dto : CommitVerdictDto) (now : ℕ) (s : Store)
      → (state_of (commit reference x job_id dto now s) ≡ s)
        ⊎ (state_of (commit reference x job_id dto now s) ≡ record s { sequence = suc s.sequence })
        ⊎ ((any (same_commitment (sealed_row x job_id dto s)) s.commitments ≡ false)
            × (state_of (commit reference x job_id dto now s)
                ≡ with_sealed (sealed_row x job_id dto s) s))
  unfolding commit
  commit_cases dto now s = ground arith

  pub commit_change :
      (dto : CommitVerdictDto) (now : ℕ) (s : Store)
      → Change x s (state_of (commit reference x job_id dto now s))
  commit_change dto now s = elim (commit_cases dto now s) [
    | inl e ↦ kept (rw e (IsKept-refl s))
    | inr (inl e) ↦ kept (rw e (next-IsKept s))
    | inr (inr (h, e)) ↦
        sealed (sealed_row x job_id dto s)
          (record { id = refl; outcome = refl; salt = refl; unopened = refl }) h e
  ]

  check_reveal_state :
      (dto : RevealVerdictDto) (now : ℕ) (s : Store)
      → state_of (check_reveal reference x job_id dto now s) ≡ s
  unfolding check_reveal
  check_reveal_state dto now s = ground arith

  check_reveal_found :
      (dto : RevealVerdictDto) (now : ℕ) (s : Store)
      → is_ok (check_reveal reference x job_id dto now s) ≡ true
      → (job : VerificationJob) × (job_row job_id s ≡ some job)
  unfolding check_reveal
  check_reveal_found dto now s e = elim (Option-cases (job_row job_id s)) [
    | inl missing ↦ absurd (ground arith)
    | inr found ↦ found
  ]

  pub may_open :
      (dto : RevealVerdictDto) (now : ℕ) (s : Store) (job : VerificationJob) (c : VerdictCommitment)
      → MayReveal x job_id dto now s job c
      → MayOpen x dto c s.commitments
  may_open dto now s job c m =
      let present =
        find?-In (λ r. str_eq r.validator_id dto.validator_id) c (round_rows job_id s) m.own in
      let validator =
        find?-holds (λ r. str_eq r.validator_id dto.validator_id) (round_rows job_id s) c m.own in
      let in_round = In-filter (λ r. str_eq r.job_id job_id) c s.commitments present in
      record {
        present = In-tail (λ r. str_eq r.job_id job_id) c s.commitments present;
        validator = validator;
        unopened = m.unopened;
        binding =
            rw
              (
                (str_eq_iff c.job_id job_id).0 in_round,
                (str_eq_iff c.validator_id dto.validator_id).0 validator,
              )
              m.binding;
      }

  reveal_refused :
      (dto : RevealVerdictDto) (now : ℕ) (tx : Option String) (s : Store)
      → is_ok (check_reveal reference x job_id dto now s) ≡ false
      → state_of (reveal reference x job_id dto now tx s) ≡ s
  unfolding reveal
  reveal_refused dto now tx s e = ground (arith, check_reveal_state dto now s)

  -- The round with the vote in it.
  abbrev votes_now : RevealVerdictDto → ℕ → VerdictCommitment → Store → List VerdictCommitment
  votes_now dto now c s =
      revealed_list reference x dto.validator_id (opened reference x dto now c)
        (round_rows job_id s)

  pub reveal_accepted :
      (dto : RevealVerdictDto) (now : ℕ) (tx : Option String) (s : Store) (job : VerificationJob)
      (c : VerdictCommitment)
      → check_reveal reference x job_id dto now s ≡ ok (job, round_rows job_id s, c) s
      → IsKept (with_vote x dto now c s) (state_of (reveal reference x job_id dto now tx s))
  unfolding reveal
  reveal_accepted dto now tx s job c e =
      rw (e, state_of)
        ((then-IsQuiet
            (when-IsQuiet (all_revealed (votes_now dto now c s))
              (settle-IsQuiet x job (votes_now dto now c s) tx))
            (status-IsQuiet x job_id now)).kept
          (with_vote x dto now c s))

  pub reveal_change :
      (dto : RevealVerdictDto) (now : ℕ) (tx : Option String) (s : Store)
      → Change x s (state_of (reveal reference x job_id dto now tx s))
  reveal_change dto now tx s =
      elim (Bool-cases (is_ok (check_reveal reference x job_id dto now s))) [
        | inl accepted ↦
            let (job, found) = check_reveal_found dto now s accepted in
            let (c, m) = check_reveal_guards x job_id dto now s found accepted in
            voted dto now c (may_open dto now s job c m)
              (reveal_accepted dto now tx s job c (check_reveal_ok x job_id dto now s found m))
        | inr refused ↦ kept (rw (reveal_refused dto now tx s refused) (IsKept-refl s))
      ]
