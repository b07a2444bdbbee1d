-- ===== src/CommitReveal/Committing.antt =====
-- The commit phase: what a commitment needs, what it stores, and what a refusal leaves alone.
use a2a_verification_network.Prelude.{
  ℕ, ◌≡◌, ◌≢◌, Bool, true, false, List, [], ◌∷◌, ◌++◌, Option, none, some, String, str_eq, find?,
  filter, any, includes, to_lower, arith, str_eq_iff, str_eq_self, sym,
}
use a2a_verification_network.External.{External}
use a2a_verification_network.Store.Entities.{
  Store, VerificationJob, VerdictCommitment, Validator, commit_reveal,
}
use a2a_verification_network.Store.Queries.{Queries, IsSql, reference, eq-reference}
use a2a_verification_network.Jobs.Laws.{job_row}
use a2a_verification_network.Store.Monad.{ok, throw, Error}
use a2a_verification_network.CommitReveal.Service.{
  CommitVerdictDto, CommitmentView, committing, phase_of, commit, view,
}

-- The commitments of the round, which are those under this spelling of the job's id.
abbrev pub round_rows : String → Store → List VerdictCommitment
round_rows id s = filter (λ c. str_eq c.job_id id) s.commitments

abbrev pub validator_row : String → Store → Option Validator
validator_row id s = find? (λ v. str_eq v.id id) s.validators

-- Whether the signer is the registered address, case ignored.
abbrev pub signed_by : Option String → Option Validator → Bool
signed_by (some signer) (some v) = str_eq (to_lower signer) (to_lower v.address)
signed_by _ _ = false

-- The row that a commitment adds: the hash, and nothing of the vote.
abbrev pub sealed_row : External → String → CommitVerdictDto → Store → VerdictCommitment
sealed_row x job_id dto s = record {
  id = x.generate s.sequence;
  job_id = job_id;
  validator_id = dto.validator_id;
  commit_hash = to_lower dto.commit_hash;
  outcome = none;
  salt = none;
  committed_at = x.clock;
  revealed_at = none;
}

module _ (x : External) (job_id : String) (dto : CommitVerdictDto) (now : ℕ) (s : Store) where
  commit-guards_at_reference :
      (job : VerificationJob) {v : CommitmentView} {t : Store}
      → job_row job_id s ≡ some job
      → commit reference x job_id dto now s ≡ ok v t
      → (job.verdict_mode ≡ commit_reveal)
        × (phase_of job (round_rows job_id s) now ≡ committing)
        × (includes job.assigned_validators dto.validator_id ≡ true)
        × (any (λ c. str_eq c.validator_id dto.validator_id) (round_rows job_id s) ≡ false)
        × (signed_by
              (x.verify_bytes dto.commit_hash dto.signature)
              (validator_row dto.validator_id s)
            ≡ true)
        × (t.commitments ≡ s.commitments ++ sealed_row x job_id dto s ∷ [])
        × (v ≡ view (sealed_row x job_id dto s))
  unfolding commit
  commit-guards_at_reference job found e = ground arith

  commit-refused_at_reference :
      {e : Error} {t : Store}
      → commit reference x job_id dto now s ≡ throw e t
      → record t { sequence = s.sequence } ≡ s
  unfolding commit
  commit-refused_at_reference e = ground arith

  commit-fresh :
      {v : CommitmentView} {t : Store}
      → commit reference x job_id dto now s ≡ ok v t
      → (any (λ c. str_eq c.validator_id dto.validator_id) (round_rows job_id s) ≡ false)
        × (t.commitments ≡ s.commitments ++ sealed_row x job_id dto s ∷ [])
  unfolding commit
  commit-fresh e = ground arith

-- A row of the round that the validator committed stays found when rows are added before it.
any-filter-append :
    (job_id validator_id : String) (c : VerdictCommitment) (rows : List VerdictCommitment)
    → str_eq c.job_id job_id ≡ true
    → str_eq c.validator_id validator_id ≡ true
    → any
        (λ r. str_eq r.validator_id validator_id)
        (filter (λ r. str_eq r.job_id job_id) (rows ++ c ∷ []))
      ≡ true
any-filter-append job_id validator_id c [] h k = ground arith
any-filter-append job_id validator_id c (r ∷ rows) h k =
    ground (arith, any-filter-append job_id validator_id c rows h k)

commit_once_at_reference :
    (x : External) (job_id : String) (dto later : CommitVerdictDto) (now then_now : ℕ) (s : Store)
    {v : CommitmentView} {t : Store} {w : CommitmentView} {u : Store}
    → commit reference x job_id dto now s ≡ ok v t
    → later.validator_id ≡ dto.validator_id
    → commit reference x job_id later then_now t ≢ ok w u
commit_once_at_reference x job_id dto later now then_now s {t = t} first same second =
    let (_, rows) = commit-fresh x job_id dto now s first in
    let (fresh, _) = commit-fresh x job_id later then_now t second in
    cc (
      any-filter-append job_id later.validator_id (sealed_row x job_id dto s) s.commitments
          (str_eq_self job_id) ((str_eq_iff dto.validator_id later.validator_id).1 (sym same)),
      rows,
      fresh,
    )

module _ (q : Queries) (sql : IsSql q) (x : External) (job_id : String) where
  -- A commitment that is accepted meets every guard: its job uses commit-reveal and is in the commit
  -- phase, the validator sits on the committee, has no commitment in the round, is registered, and
  -- its registered address signed the hash. The call adds one row at the end of the table, with the
  -- hash in lower case and no vote, and answers with the view of that row.
  pub commit-guards :
      (dto : CommitVerdictDto) (now : ℕ) (s : Store) (job : VerificationJob) {v : CommitmentView}
      {t : Store}
      → job_row job_id s ≡ some job
      → commit q x job_id dto now s ≡ ok v t
      → (job.verdict_mode ≡ commit_reveal)
        × (phase_of job (round_rows job_id s) now ≡ committing)
        × (includes job.assigned_validators dto.validator_id ≡ true)
        × (any (λ c. str_eq c.validator_id dto.validator_id) (round_rows job_id s) ≡ false)
        × (signed_by
              (x.verify_bytes dto.commit_hash dto.signature)
              (validator_row dto.validator_id s)
            ≡ true)
        × (t.commitments ≡ s.commitments ++ sealed_row x job_id dto s ∷ [])
        × (v ≡ view (sealed_row x job_id dto s))
  commit-guards = rw (eq-reference q sql) (commit-guards_at_reference x job_id)

  -- A commitment that is refused, for whatever reason, changes no row of any table.
  pub commit-refused :
      (dto : CommitVerdictDto) (now : ℕ) (s : Store) {e : Error} {t : Store}
      → commit q x job_id dto now s ≡ throw e t
      → record t { sequence = s.sequence } ≡ s
  commit-refused = rw (eq-reference q sql) (commit-refused_at_reference x job_id)

  -- After a commitment was accepted, none by the same validator under the same job id is, whatever its
  -- hash, signature and time.
  pub commit_once :
      (dto later : CommitVerdictDto) (now then_now : ℕ) (s : Store) {v : CommitmentView} {t : Store}
      {w : CommitmentView} {u : Store}
      → commit q x job_id dto now s ≡ ok v t
      → later.validator_id ≡ dto.validator_id
      → commit q x job_id later then_now t ≢ ok w u
  commit_once = rw (eq-reference q sql) (commit_once_at_reference x job_id)
