-- ===== src/Jobs/Claiming.antt =====
-- Taking a pending job off the queue.
use a2a_verification_network.Prelude.{
  ◌≡◌, refl, ◌&&◌, Bool, true, false, some, String, same_uuid, arith,
}
use a2a_verification_network.External.{External}
use a2a_verification_network.Store.Entities.{Store, VerificationJob, pending, assigned}
use a2a_verification_network.Store.Queries.{Queries, IsSql, reference, eq-reference, update_rows}
use a2a_verification_network.Store.Rows.{
  find?-holds, find?-update_rows, any-update_rows, update_rows_unmet, affected_pos,
}
use a2a_verification_network.Store.Monad.{ok}
use a2a_verification_network.Jobs.{claim_pending, same_status}
use a2a_verification_network.Jobs.Laws.{job_row}

abbrev pub is_queued : String → VerificationJob → Bool
is_queued id j = same_uuid j.id id && same_status j.status pending

abbrev pub claim_patch : VerificationJob → VerificationJob
claim_patch j = record j { status = assigned }

abbrev pub claimed : String → Store → Store
claimed id s = record s { jobs = (update_rows (is_queued id) claim_patch s.jobs).0 }

module _ (x : External) (id : String) (s : Store) (job : VerificationJob) where
  claim_once_at_reference :
      job_row id s ≡ some job
      → job.status ≡ pending
      → (claim_pending reference x id s ≡ ok true (claimed id s))
        × (job_row id (claimed id s) ≡ some (claim_patch job))
        × (claim_pending reference x id (claimed id s) ≡ ok false (claimed id s))
  unfolding claim_pending
  claim_once_at_reference found wait =
      let own = find?-holds (λ j. same_uuid j.id id) s.jobs job found in
      let queued : is_queued id job ≡ true = ground arith in
      (
        ground (
          arith,
          affected_pos (λ j. same_uuid j.id id) (is_queued id) claim_patch s.jobs job found queued,
        ),
        find?-update_rows (λ j. same_uuid j.id id) (is_queued id) claim_patch s.jobs job (λ r. refl)
            found queued,
        ground (
          arith,
          update_rows_unmet (is_queued id) claim_patch (claimed id s).jobs
              (any-update_rows (is_queued id) claim_patch s.jobs (λ r. ground arith)),
        ),
      )

module _ (q : Queries) (sql : IsSql q) (x : External) (id : String) (s : Store)
    (job : VerificationJob) where
  -- A pending job is claimed by the first claim, which makes it assigned and leaves its other columns;
  -- a second claim, by whichever instance, gets nothing and changes nothing.
  pub claim_once :
      job_row id s ≡ some job
      → job.status ≡ pending
      → (claim_pending q x id s ≡ ok true (claimed id s))
        × (job_row id (claimed id s) ≡ some (claim_patch job))
        × (claim_pending q x id (claimed id s) ≡ ok false (claimed id s))
  claim_once = rw (eq-reference q sql) (claim_once_at_reference x id s job)
