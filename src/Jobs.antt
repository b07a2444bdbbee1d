-- ===== src/Jobs.antt =====
-- jobs.service.ts.
pub mod Laws
pub mod Claiming
use a2a_verification_network.Prelude.{
  sort, take, ℕ, ◌+◌, ◌*◌, ◌≡◌, Bool, true, false, ◌&&◌, ◌||◌, List, [], ◌∷◌, Option, none, some,
  String, ltb, str_eq, same_uuid, if◌then◌else◌,
}
use a2a_verification_network.External.{External}
use a2a_verification_network.Store.Entities.{
  Store, VerificationJob, JobStatus, pending, assigned, in_progress, completed, failed, VerdictMode,
  instant, commit_reveal,
}
use a2a_verification_network.Priority.{PriorityOptions, is_positive}
use a2a_verification_network.Store.Queries.{Queries}
use a2a_verification_network.Store.Monad.{
  M, ok, throw, ◌>>=◌, ◌>>◌, return, or_throw, not_found, find_by, find_one_by, insert, save,
  update, jobs,
}

pub record SubmitJobDto : Type 0 where
  pub session_id : String
  pub request_hash : String
  pub result_hash : Option String
  pub policy_id : String
  pub artifacts_ref : Option String
  pub verdict_mode : Option VerdictMode
  pub fee : Option String
  pub deferred : Option Bool

-- `value ?? default`
abbrev pub or_default {ℓ} : {A : Type ℓ} → A → Option A → A
or_default d none = d
or_default d (some a) = a

abbrev pub same_status : JobStatus → JobStatus → Bool
same_status pending pending = true
same_status assigned assigned = true
same_status in_progress in_progress = true
same_status completed completed = true
same_status failed failed = true
same_status _ _ = false

-- `status === COMPLETED || status === FAILED`
abbrev pub is_final : JobStatus → Bool
is_final completed = true
is_final failed = true
is_final _ = false

abbrev pub is_commit_reveal : VerdictMode → Bool
is_commit_reveal commit_reveal = true
is_commit_reveal instant = false

module _ (q : Queries) (x : External) where
  unfoldable pub submit : SubmitJobDto → M VerificationJob
  submit dto =
      insert q jobs (λ a b. false)
        λ n. record {
          id = x.generate n;
          session_id = dto.session_id;
          request_hash = dto.request_hash;
          result_hash = or_default "" dto.result_hash;
          policy_id = dto.policy_id;
          artifacts_ref = dto.artifacts_ref;
          status = pending;
          assigned_validators = [];
          submitted_at = x.clock;
          completed_at = none;
          verdict_mode = or_default instant dto.verdict_mode;
          fee = or_default "0" dto.fee;
          commit_deadline = none;
          reveal_deadline = none;
        }

  -- The column is a uuid: a text in upper case finds the same row.
  unfoldable pub find_one : String → M VerificationJob
  find_one id = do found ← find_one_by q jobs (λ j. same_uuid j.id id); or_throw not_found found

  unfoldable pub find_all : Option JobStatus → M (List VerificationJob)
  find_all none = find_by q jobs (λ j. true)
  find_all (some status) = find_by q jobs (λ j. same_status j.status status)

  -- The change that `updateStatus` makes to the entity.
  abbrev pub with_status : JobStatus → VerificationJob → VerificationJob
  with_status status job = record job {
    status = status;
    completed_at = if is_final status then some x.clock else job.completed_at;
  }

  unfoldable pub update_status : String → JobStatus → M VerificationJob
  unfolding find_one
  update_status id status = do
    job ← find_one id
    save q jobs (λ j. same_uuid j.id job.id) (with_status status job)

  -- The change that `assignValidators` makes to the entity; the deadlines are in milliseconds.
  abbrev pub with_validators : List String → VerificationJob → VerificationJob
  with_validators ids job =
      let commit_ms = x.config.commit_phase_seconds * 1000 in
      let reveal_ms = x.config.reveal_phase_seconds * 1000 in
      if is_commit_reveal job.verdict_mode
      then record job {
        assigned_validators = ids;
        status = assigned;
        commit_deadline = some (x.clock + commit_ms);
        reveal_deadline = some (x.clock + commit_ms + reveal_ms);
      }
      else record job { assigned_validators = ids; status = assigned }

  unfoldable pub assign_validators : String → List String → M VerificationJob
  unfolding find_one
  assign_validators id ids = do
    job ← find_one id
    save q jobs (λ j. same_uuid j.id job.id) (with_validators ids job)

  -- The conditional update of one pending row.
  unfoldable pub claim_pending : String → M Bool
  claim_pending id = do
    affected ←
        update q jobs (λ j. same_uuid j.id id && same_status j.status pending)
          (λ j. record j { status = assigned })
    return (ltb 0 affected)

  unfoldable pub find_by_session_id : String → M (Option VerificationJob)
  find_by_session_id session = find_one_by q jobs (λ j. str_eq j.session_id session)

  -- The head of the pending queue, as the database orders it.
  unfoldable pub find_pending_by_priority : ℕ → PriorityOptions x → M (List VerificationJob)
  find_pending_by_priority limit options = do
    let aging = if is_positive x options.aging_seconds then some options.aging_seconds else none
    found ← find_by q jobs (λ j. same_status j.status pending)
    return (take limit (sort (x.queued_before options.fee_unit_wei aging) found))
