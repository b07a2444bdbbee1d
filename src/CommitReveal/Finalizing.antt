-- ===== src/CommitReveal/Finalizing.antt =====
-- Finalizing a round: each way that it ends.
use a2a_verification_network.Prelude.{
  ℕ, suc, ◌≡◌, refl, ◌∙◌, ap, subst, ◌⊎◌, ◌↔◌, inl, inr, true, false, ◌||◌, List, [], ◌∷◌, ◌++◌,
  Option, none, some, String, arith, Option-cases, Bool-cases, any, str_eq,
}
use a2a_verification_network.External.{External}
use a2a_verification_network.Jobs.{is_final, is_commit_reveal, with_status}
use a2a_verification_network.Jobs.Laws.{
  job_row, put_job, job_row_own, job_row_spelled, put_job_spelled, job_row-put_job,
}
use a2a_verification_network.Reputation.Frame.{with_scores_of}
use a2a_verification_network.Store.Entities.{
  Store, VerificationJob, VerdictCommitment, VerdictOutcome, completed, failed,
}
use a2a_verification_network.Store.Queries.{reference}
use a2a_verification_network.Store.Monad.{ok, throw, is_ok, query_failed}
use a2a_verification_network.CommitReveal.Service.{
  RoundStatus, revealing, finalized, phase_of, settle, settle_tally, tally, all_revealed,
  check_finalize, round_status, has_passed, finalize, status,
}
use a2a_verification_network.CommitReveal.Committing.{round_rows}
use a2a_verification_network.CommitReveal.Settling.{
  settle_none, publish_refused, publish_done, majority_row, published, with_verdict, settled,
  published_frame,
}

-- A round that `finalize` has to settle: its commit phase is over, and every commitment is opened or
-- the reveal deadline has passed.
pub record IsDue (id : String) (now : ℕ) (s : Store) (job : VerificationJob) : Type 0 where
  pub in_mode : is_commit_reveal job.verdict_mode ≡ true
  pub in_phase : phase_of job (round_rows id s) now ≡ revealing
  pub due : (all_revealed (round_rows id s) || has_passed job.reveal_deadline now) ≡ true

final_of_phase :
    (job : VerificationJob) (cs : List VerdictCommitment) (now : ℕ)
    → (phase_of job cs now ≡ finalized) ↔ (is_final job.status ≡ true)
unfolding phase_of
final_of_phase job cs now = ground arith

module _ (x : External) (id : String) (now : ℕ) where
  status_at :
      (t : Store) {job : VerificationJob}
      → job_row id t ≡ some job
      → is_commit_reveal job.verdict_mode ≡ true
      → status reference x id now t ≡ ok (round_status id now job (round_rows id t)) t
  unfolding status
  status_at t found mode = rw (found, mode, status)

  module _ (s : Store) (job : VerificationJob) (found : job_row id s ≡ some job) where
    check_finalize_due :
        IsDue id now s job → check_finalize reference x id now s ≡ ok (job, round_rows id s, true) s
    unfolding check_finalize
    check_finalize_due d = ground arith

    finalize_due :
        (tx : Option String)
        → IsDue id now s job
        → {t : Store} {job' : VerificationJob}
        → settle reference x job (round_rows id s) tx s ≡ ok tt t
        → job_row id t ≡ some job'
        → is_commit_reveal job'.verdict_mode ≡ true
        → finalize reference x id now tx s ≡ ok (round_status id now job' (round_rows id t)) t
    unfolding finalize
    finalize_due tx d {t = t} e found' mode =
        ground (arith, check_finalize_due d, status_at t found' mode)

    -- The three ways that settling a due round ends.
    pub finalize-none :
        (tx : Option String)
        → IsDue id now s job
        → (tally job (round_rows id s)).outcome ≡ none
        → finalize reference x id now tx s
          ≡ ok
              (round_status id now (with_status reference x failed job) (round_rows id s))
              (put_job id (with_status reference x failed job) s)
    finalize-none tx d e =
        finalize_due tx d
          (unfold settle in
            subst (λ (u : Store). settle reference x job (round_rows id s) tx s ≡ ok tt u)
              (put_job_spelled id s s (with_status reference x failed job) found)
              (ground (
                arith,
                settle_none x s job (job_row_own id s found) (round_rows id s)
                    (tally job (round_rows id s)) tx,
              )))
          (job_row-put_job x id s found (with_status reference x failed job) refl) d.in_mode

    module _ (outcome : VerdictOutcome) (tx : Option String) (d : IsDue id now s job)
        (won : (tally job (round_rows id s)).outcome ≡ some outcome) where
      pub finalize_taken :
          any (λ v. str_eq job.session_id v.session_id) s.verdicts ≡ true
          → finalize reference x id now tx s
            ≡ throw query_failed (record s { sequence = suc s.sequence })
      unfolding finalize settle settle_tally
      finalize_taken taken = ground (
        arith,
        check_finalize_due d,
        publish_refused x s job (job_row_own id s found) (round_rows id s)
            (tally job (round_rows id s)) outcome tx taken,
      )

      pub ended : Store
      ended =
          settled x s job (job_row_own id s found) (round_rows id s) (tally job (round_rows id s))
            outcome tx

      ended_frame :
          with_scores_of
            (published x s job
              (job_row_own id s found)
              (round_rows id s)
              (tally job (round_rows id s))
              outcome
              tx)
            ended
          ≡ published x s job
              (job_row_own id s found)
              (round_rows id s)
              (tally job (round_rows id s))
              outcome
              tx
      unfolding ended
      ended_frame =
          published_frame x s job (job_row_own id s found) (round_rows id s)
            (tally job (round_rows id s)) outcome tx

      pub ended_verdicts :
          ended.verdicts
          ≡ s.verdicts
            ++ majority_row x s job
                (job_row_own id s found)
                (round_rows id s)
                (tally job (round_rows id s))
                outcome
                tx
              ∷ []
      unfolding published with_verdict
      ended_verdicts = ap (λ (u : Store). u.verdicts) ended_frame

      pub ended_commitments : ended.commitments ≡ s.commitments
      unfolding published with_verdict
      ended_commitments = ap (λ (u : Store). u.commitments) ended_frame

      pub ended_job : job_row id ended ≡ some (with_status reference x completed job)
      unfolding published with_verdict
      ended_job = job_row_spelled id s ended found (
          ap (λ (u : Store). job_row job.id u) ended_frame
          ∙ job_row-put_job x job.id
              (with_verdict x s job (job_row_own id s found) (round_rows id s)
                (tally job (round_rows id s)) outcome tx)
              (job_row_own id s found) (with_status reference x completed job) refl)

      pub finalize_won :
          any (λ v. str_eq job.session_id v.session_id) s.verdicts ≡ false
          → finalize reference x id now tx s
            ≡ ok
                (round_status id now (with_status reference x completed job) (round_rows id ended))
                ended
      unfolding settle settle_tally ended
      finalize_won free =
          finalize_due tx d
            (ground (
              arith,
              publish_done x s job (job_row_own id s found) (round_rows id s)
                  (tally job (round_rows id s)) outcome tx free,
            ))
            ended_job d.in_mode

    check_finalize_cases :
        is_ok (check_finalize reference x id now s) ≡ true
        → IsDue id now s job
          ⊎ ((is_final job.status ≡ true)
              × (is_commit_reveal job.verdict_mode ≡ true)
              × (check_finalize reference x id now s ≡ ok (job, round_rows id s, false) s))
    unfolding check_finalize
    check_finalize_cases e = ground (arith, final_of_phase job (round_rows id s) now)

    finalize_refused :
        (tx : Option String)
        → is_ok (check_finalize reference x id now s) ≡ false
        → is_ok (finalize reference x id now tx s) ≡ false
    unfolding finalize
    finalize_refused tx e = ground arith

    finalize_final :
        (tx : Option String)
        → is_commit_reveal job.verdict_mode ≡ true
        → check_finalize reference x id now s ≡ ok (job, round_rows id s, false) s
        → finalize reference x id now tx s ≡ ok (round_status id now job (round_rows id s)) s
    unfolding finalize
    finalize_final tx mode e = ground (arith, status_at s found mode)

    due_ends :
        (tx : Option String) (r : RoundStatus) (t : Store)
        → IsDue id now s job
        → finalize reference x id now tx s ≡ ok r t
        → is_final r.job_status ≡ true
    due_ends tx r t d e = elim (Option-cases (tally job (round_rows id s)).outcome) [
      | inl lost ↦ ground (arith, finalize-none tx d lost)
      | inr (o, won) ↦
          elim (Bool-cases (any (λ v. str_eq job.session_id v.session_id) s.verdicts)) [
            | inl taken ↦ absurd (cc (finalize_taken o tx d won taken))
            | inr free ↦ ground (arith, finalize_won o tx d won free)
          ]
    ]

    pub finalize_ends_at_reference :
        (tx : Option String) (r : RoundStatus) (t : Store)
        → finalize reference x id now tx s ≡ ok r t
        → is_final r.job_status ≡ true
    finalize_ends_at_reference tx r t e =
        elim (Bool-cases (is_ok (check_finalize reference x id now s))) [
          | inl checked ↦ elim (check_finalize_cases checked) [
            | inl d ↦ due_ends tx r t d e
            | inr (final, mode, c) ↦ ground (arith, finalize_final tx mode c)
          ]
          | inr bad ↦ absurd (cc (finalize_refused tx bad, ap is_ok e))
        ]
