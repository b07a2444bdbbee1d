-- ===== src/Jobs/Laws.antt =====
-- Rows that are found by their id, and the job that a status change leaves behind.
use a2a_verification_network.Prelude.{
  ◌≡◌, ◌∙◌, sym, ap, subst, List, Option, some, String, str_eq, str_eq_iff, same_uuid, to_lower,
  find?,
}
use a2a_verification_network.External.{External}
use a2a_verification_network.Store.Entities.{Store, VerificationJob, JobStatus}
use a2a_verification_network.Store.Queries.{reference, replace_row}
use a2a_verification_network.Store.Rows.{find?-holds, find?-replace_row}
use a2a_verification_network.Store.Monad.{ok}
use a2a_verification_network.Jobs.{with_status, update_status, assign_validators, with_validators}

-- The job with the id, as a request finds it.
abbrev pub job_row : String → Store → Option VerificationJob
job_row id s = find? (λ j. same_uuid j.id id) s.jobs

-- The job's own id is a spelling of the requested one.
pub job_row-id :
    (id : String) (s : Store) {job : VerificationJob}
    → job_row id s ≡ some job
    → to_lower job.id ≡ to_lower id
job_row-id id s {job} h =
    (str_eq_iff (to_lower job.id) (to_lower id)).0
      (find?-holds (λ j. same_uuid j.id id) s.jobs job h)

-- A job that was found is found by its own id.
pub job_row_own :
    (id : String) (s : Store) {job : VerificationJob}
    → job_row id s ≡ some job
    → job_row job.id s ≡ some job
job_row_own id s {job} h =
    subst (λ i. find? (λ j. str_eq (to_lower j.id) i) s.jobs ≡ some job) (sym (job_row-id id s h)) h

-- The database after the job's row is overwritten.
abbrev pub put_job : String → VerificationJob → Store → Store
put_job id job s = record s { jobs = replace_row (λ j. same_uuid j.id id) job s.jobs }

module _ (x : External) (id : String) (s : Store) {job : VerificationJob}
    (found : job_row id s ≡ some job) where
  pub update_status_at :
      (status : JobStatus)
      → update_status reference x id status s
        ≡ ok
            (with_status reference x status job)
            (put_job id (with_status reference x status job) s)
  unfolding update_status
  update_status_at status = rw (found, update_status) (rw (job_row-id id s found))

  pub assign_validators_at :
      (ids : List String)
      → assign_validators reference x id ids s
        ≡ ok
            (with_validators reference x ids job)
            (put_job id (with_validators reference x ids job) s)
  unfolding assign_validators
  assign_validators_at ids = rw (found, assign_validators) (rw (job_row-id id s found))

  pub job_row-put_job :
      (job' : VerificationJob) → job'.id ≡ job.id → job_row id (put_job id job' s) ≡ some job'
  job_row-put_job job' same =
      find?-replace_row (λ j. same_uuid j.id id) s.jobs job' job found
        ((str_eq_iff (to_lower job'.id) (to_lower id)).1 (ap to_lower same ∙ job_row-id id s found))

-- What is said of a job by its own id holds of every spelling under which it was found.
pub job_row_spelled :
    (id : String) (s t : Store) {job job' : VerificationJob}
    → job_row id s ≡ some job
    → job_row job.id t ≡ some job'
    → job_row id t ≡ some job'
job_row_spelled id s t {job} {job'} found =
    subst (λ i. find? (λ j. str_eq (to_lower j.id) i) t.jobs ≡ some job') (job_row-id id s found)

pub put_job_spelled :
    (id : String) (s t : Store) {job : VerificationJob} (job' : VerificationJob)
    → job_row id s ≡ some job
    → put_job job.id job' t ≡ put_job id job' t
put_job_spelled id s t job' found =
    ap (λ (i : String). record t { jobs = replace_row (λ j. str_eq (to_lower j.id) i) job' t.jobs })
      (job_row-id id s found)
