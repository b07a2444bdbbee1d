-- ===== src/Tests/Queue.antt =====
-- A run of the queue, and loops on the chain that end.
use mathlib.Core.List.{Permᴰ}
use a2a_verification_network.Prelude.{
  true, ℕ, ◌≡◌, ◌≢◌, refl, inl, compare, List, [], ◌∷◌, none, All, arith,
}
use a2a_verification_network.Store.Entities.{VerificationJob}
use a2a_verification_network.Priority.{PriorityOptions, order_queue}
use a2a_verification_network.JobQueue.Ordering.{
  IsComparing, IsLinked, GoesFirst, opposite, jobs_of, positions_of, counted, order_queue-IsLinked,
}
use a2a_verification_network.Chain.Nonce.{
  Reply, accepted, nonce_error, other_error, waiting, submit_all,
}
use a2a_verification_network.Chain.Retry.{throws, RetryOptions, pending, with_retry}
use a2a_verification_network.Chain.Termination.{submit_all_ends, with_retry_ends}
use a2a_verification_network.Tests.Data.{world, job}

world-IsComparing : IsComparing world
world-IsComparing = record { flip = λ a b. flipped a b; locale_total = λ a b. inl refl }
  where
    flipped : (a b : ℕ) → compare b a ≡ opposite (compare a b)
    flipped a b = ground arith

abbrev waiting_jobs : List VerificationJob
waiting_jobs =
    record job { submitted_at = 40 }
    ∷ record job { id = "k"; submitted_at = 20; fee = "5000" }
    ∷ record job { id = "l"; submitted_at = 30 }
    ∷ []

abbrev queue_options : PriorityOptions world
queue_options = record { fee_unit_wei = 1000; aging_seconds = 60 }

order_queue-IsLinked_example :
    let entries = order_queue world waiting_jobs 90 queue_options in
    Permᴰ (jobs_of world 90 queue_options entries) waiting_jobs
    × IsLinked (GoesFirst world 90 queue_options) (jobs_of world 90 queue_options entries)
    × (positions_of world 90 queue_options entries
        ≡ counted 1 (jobs_of world 90 queue_options entries))
order_queue-IsLinked_example =
    order_queue-IsLinked world 90 queue_options world-IsComparing waiting_jobs

abbrev replies : List Reply
replies =
    record { pending = λ n. n; sent = nonce_error }
    ∷ record { pending = λ n. n; sent = accepted }
    ∷ record { pending = λ n. n; sent = other_error }
    ∷ []

submit_all_ends_example : All (λ o. o ≢ waiting) (submit_all (1 ∷ 0 ∷ []) replies none 0)
submit_all_ends_example = submit_all_ends (1 ∷ 0 ∷ []) replies (omega arith)

abbrev retry_options : RetryOptions
retry_options = record { max_attempts = 2; initial_delay_ms = 10; max_delay_ms = 50; factor = 2 }

with_retry_ends_example :
    (with_retry retry_options (throws true ∷ throws true ∷ [])).ended ≢ pending
with_retry_ends_example =
    with_retry_ends retry_options (throws true ∷ throws true ∷ []) (omega arith)
