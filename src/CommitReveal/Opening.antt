-- ===== src/CommitReveal/Opening.antt =====
-- What an accepted reveal needs, and the vote that it stores.
use a2a_verification_network.Prelude.{
  ℕ, ◌≡◌, sym, subst, inl, inr, Bool, true, List, [], ◌∷◌, Option, some, String, str_eq,
  str_eq_self, to_lower, ap, arith,
}
use a2a_verification_network.External.{External}
use a2a_verification_network.Store.Entities.{Store, VerificationJob, VerdictCommitment}
use a2a_verification_network.Store.Queries.{Queries, IsSql, reference, eq-reference, replace_row}
use a2a_verification_network.Store.Distinct.{In}
use a2a_verification_network.Store.Monad.{ok, is_ok, state_of}
use a2a_verification_network.Jobs.Laws.{job_row}
use a2a_verification_network.CommitReveal.Service.{
  RevealVerdictDto, RoundStatus, reveal, check_reveal,
}
use a2a_verification_network.CommitReveal.Revealing.{
  MayReveal, check_reveal_guards, check_reveal_ok,
}
use a2a_verification_network.System.Changes.{may_open, reveal_accepted}

-- The commitment with the vote in it: outcome, salt and time are new.
abbrev pub voted_row : RevealVerdictDto → ℕ → VerdictCommitment → VerdictCommitment
voted_row dto now c = record {
  id = c.id;
  job_id = c.job_id;
  validator_id = c.validator_id;
  commit_hash = c.commit_hash;
  outcome = some dto.outcome;
  salt = some (to_lower dto.salt);
  committed_at = c.committed_at;
  revealed_at = some now;
}

-- What an accepted reveal means for the commitment that it opens.
pub record IsOpened (x : External) (job_id : String) (dto : RevealVerdictDto) (now : ℕ)
    (s t : Store) (job : VerificationJob) : Type 0 where
  pub sealed : VerdictCommitment
  pub may_reveal : MayReveal x job_id dto now s job sealed
  pub present : In sealed s.commitments
  pub stored : In (voted_row dto now sealed) t.commitments
  pub replaced :
      t.commitments
      ≡ replace_row (λ r. str_eq r.id sealed.id) (voted_row dto now sealed) s.commitments

In-replace_row :
    (same : VerdictCommitment → Bool) (c e : VerdictCommitment) (rows : List VerdictCommitment)
    → same c ≡ true
    → In c rows
    → In e (replace_row same e rows)
In-replace_row same c e [] h i = absurd i
In-replace_row same c e (r ∷ rows) h (inl own) = ground arith
In-replace_row same c e (r ∷ rows) h (inr later) =
    ground (arith, In-replace_row same c e rows h later)

module _ (x : External) (job_id : String) (dto : RevealVerdictDto) (now : ℕ) (s : Store)
    (tx : Option String) {r : RoundStatus} {t : Store} where
  reveal_checked :
      reveal reference x job_id dto now tx s ≡ ok r t
      → is_ok (check_reveal reference x job_id dto now s) ≡ true
  unfolding reveal
  reveal_checked e = ground arith

  reveal-IsOpened_at_reference :
      {job : VerificationJob}
      → job_row job_id s ≡ some job
      → reveal reference x job_id dto now tx s ≡ ok r t
      → IsOpened x job_id dto now s t job
  reveal-IsOpened_at_reference {job} found e =
      let (c, m) = check_reveal_guards x job_id dto now s found (reveal_checked e) in
      let here = (may_open x job_id dto now s job c m).present in
      let kept =
        reveal_accepted x job_id dto now tx s job c (check_reveal_ok x job_id dto now s found m) in
      let rows : t.commitments
          ≡ replace_row (λ r. str_eq r.id c.id) (voted_row dto now c) s.commitments =
        subst
          (λ (u : Store).
            u.commitments ≡ replace_row (λ r. str_eq r.id c.id) (voted_row dto now c) s.commitments)
          (ap (λ o. state_of o) e) kept.commitments in
      record {
        sealed = c;
        may_reveal = m;
        present = here;
        stored = subst (In (voted_row dto now c)) (sym rows) (
            In-replace_row (λ r. str_eq r.id c.id) c (voted_row dto now c) s.commitments
              (str_eq_self c.id) here);
        replaced = rows;
      }

module _ (q : Queries) (sql : IsSql q) (x : External) (job_id : String) where
  -- A reveal that is accepted opens a commitment of the round: the job uses commit-reveal, its commit
  -- phase is over and its reveal deadline has not passed, the validator has a commitment that was not
  -- opened, and the hash of job, validator, outcome and salt is the committed one, case ignored. The
  -- commitment is stored with the outcome, the salt in lower case and the time, its other fields as they
  -- were, and no commitment with another id changes.
  pub reveal-IsOpened :
      (dto : RevealVerdictDto) (now : ℕ) (s : Store) (tx : Option String) {r : RoundStatus}
      {t : Store} {job : VerificationJob}
      → job_row job_id s ≡ some job
      → reveal q x job_id dto now tx s ≡ ok r t
      → IsOpened x job_id dto now s t job
  reveal-IsOpened = rw (eq-reference q sql) (reveal-IsOpened_at_reference x job_id)
