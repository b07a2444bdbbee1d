-- ===== src/JobQueue/Service.antt =====
-- Listing and draining the queue, one job after the other. The timer that drains at an interval is not
-- modelled; `draining` is the flag of the service.
use a2a_verification_network.Prelude.{
  ℕ, Bool, true, false, not, ◌&&◌, List, [], ◌∷◌, Option, none, some, String, map, ltb, is_empty,
  all_digits, if◌then◌else◌, Ordering,
}
use a2a_verification_network.Decimal.{value}
use a2a_verification_network.External.{External}
use a2a_verification_network.Store.Entities.{failed}
use a2a_verification_network.Store.Queries.{Queries}
use a2a_verification_network.Store.Monad.{M, ◌>>=◌, ◌>>◌, return, catch}
use a2a_verification_network.Priority.{
  PriorityOptions, default_priority_options, QueueEntry, order_queue,
}
use a2a_verification_network.Jobs
use a2a_verification_network.Coordinator.Service.{process_job}

-- Of the error's text, only whether there is one.
pub record DrainResult : Type 0 where
  pub job_id : String
  pub outcome : String
  pub verdict_id : Option (Option String)
  pub has_error : Bool

module _ (x : External) where
  -- `feeUnit > 0n` and all digits, or the default.
  unfoldable pub fee_unit_of : String → ℕ
  unfolding value all_digits
  fee_unit_of text =
      if not (is_empty text) && all_digits text && ltb 0 (value 0 text)
      then value 0 text
      else (default_priority_options x).fee_unit_wei

  -- `Number.isFinite(aging) && aging >= 0`
  abbrev pub is_aging : x.Number → Bool
  is_aging aging =
      x.is_finite aging
      && elim (x.number_compare aging (x.number "0")) [ Ordering.lt ↦ false | _ ↦ true ]

  unfoldable pub options : PriorityOptions x
  unfolding fee_unit_of
  options = record {
    fee_unit_wei = fee_unit_of x.config.job_queue_fee_unit_wei;
    aging_seconds =
        if is_aging (x.number x.config.job_queue_aging_seconds)
        then x.number x.config.job_queue_aging_seconds
        else (default_priority_options x).aging_seconds;
  }

module _ (q : Queries) (x : External) where
  unfoldable pub list_queue : ℕ → ℕ → M (List (QueueEntry x))
  unfolding options order_queue Jobs.find_pending_by_priority
  list_queue limit now = do
    pending ← Jobs.find_pending_by_priority q x limit (options x)
    return (order_queue x pending now (options x))

  -- The body of `try`: the job goes to the coordinator. `tx` is the hash of its verdict's transaction.
  unfoldable pub process_queued : String → Option String → M DrainResult
  unfolding process_job
  process_queued job_id tx = do
    processed ← process_job q x job_id tx
    return (record {
      job_id = job_id;
      outcome = processed.outcome;
      verdict_id = some processed.verdict_id;
      has_error = false;
    })

  unfoldable pub fail_queued : String → M DrainResult
  unfolding Jobs.update_status
  fail_queued job_id = do
    Jobs.update_status q x job_id failed
    return (record { job_id = job_id; outcome = "failed"; verdict_id = none; has_error = true })

  -- One pass of the loop of `drain`: a job that another instance took is passed over.
  unfoldable pub drain_one : String → Option String → M (List DrainResult) → M (List DrainResult)
  unfolding process_queued fail_queued Jobs.claim_pending
  drain_one id tx rest = do
    claimed ← Jobs.claim_pending q x id
    let taken = (do
      result ← catch (process_queued id tx) (fail_queued id)
      results ← rest
      return (result ∷ results))
    (if claimed then taken else rest)

  unfoldable pub drain_jobs : (String → Option String) → List String → M (List DrainResult)
  unfolding drain_one
  drain_jobs tx [] = return []
  drain_jobs tx (id ∷ ids) = drain_one id (tx id) (drain_jobs tx ids)

  unfoldable pub drain : Bool → (String → Option String) → ℕ → ℕ → M (List DrainResult)
  unfolding drain_jobs list_queue
  drain true tx limit now = return []
  drain false tx limit now = do
    entries ← list_queue limit now
    drain_jobs tx (map (λ (e : QueueEntry x). e.job.id) entries)
