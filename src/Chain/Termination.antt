-- ===== src/Chain/Termination.antt =====
-- The loops of the chain utilities end: enough answers, and no call is left without an outcome.
use a2a_verification_network.Prelude.{
  ℕ, zero, suc, ◌+◌, ◌*◌, ◌≤◌, ◌≡◌, ◌≢◌, min, Option, none, List, [], ◌∷◌, length, arith, All, any,
  leb, true,
}
use a2a_verification_network.Chain.Retry.{Call, RetryOptions, pending, retry_from, with_retry}
use a2a_verification_network.Chain.Poller.{
  Look, PollOptions, unanswered, poll_from, poll_for_receipt,
}
use a2a_verification_network.Chain.Nonce.{Reply, Run, waiting, round_end, attempt, submit_all}

retry_from_ends :
    (o : RetryOptions) (cs : List Call) (attempt delay : ℕ)
    → o.max_attempts ≤ length cs + attempt
    → (retry_from o cs attempt delay).ended ≢ pending
unfolding retry_from
retry_from_ends o [] attempt delay h = ground arith
retry_from_ends o (c ∷ cs) attempt delay h =
    ground (arith, retry_from_ends o cs (attempt + 1) (min (delay * o.factor) o.max_delay_ms))

-- A retried operation ends: where there is an answer to each of the `maxAttempts` calls, the loop has
-- returned or thrown.
pub with_retry_ends :
    (o : RetryOptions) (cs : List Call)
    → o.max_attempts ≤ length cs
    → (with_retry o cs).ended ≢ pending
unfolding with_retry
with_retry_ends o cs h = retry_from_ends o cs 0 o.initial_delay_ms (omega arith)

poll_from_ends :
    (o : PollOptions) (ls : List Look) (delay : ℕ)
    → any (λ l. leb o.timeout_ms l.elapsed) ls ≡ true
    → (poll_from o ls delay).fate ≢ unanswered
unfolding poll_from
poll_from_ends o [] delay h = ground arith
poll_from_ends o (l ∷ ls) delay h =
    ground (arith, poll_from_ends o ls (min (delay * 2) o.max_delay_ms))

-- Waiting for a receipt ends: once a look comes after the timeout, the transaction was mined, has
-- reverted or was dropped, or the wait has timed out.
pub poll_for_receipt_ends :
    (o : PollOptions) (ls : List Look)
    → any (λ l. leb o.timeout_ms l.elapsed) ls ≡ true
    → (poll_for_receipt o ls).fate ≢ unanswered
unfolding poll_for_receipt
poll_for_receipt_ends o ls h = poll_from_ends o ls o.initial_delay_ms h

-- A submission that ends, and takes at most `used` replies.
abbrev Ends : ℕ → List Reply → Run → Type 0
Ends used rs run = (run.outcome ≢ waiting) × (length rs ≤ length run.rest + used)

attempt-Ends :
    (rs : List Reply) (retries : ℕ) (next : Option ℕ) (low : ℕ)
    → suc retries ≤ length rs
    → Ends (suc retries) rs (attempt rs retries next low)
unfolding attempt round_end
attempt-Ends [] retries next low h = absurd (omega arith)
attempt-Ends (r ∷ rs) zero next low h = ground arith
attempt-Ends (r ∷ rs) (suc k) next low h = ground (arith, attempt-Ends rs k none low)

-- How many replies the submissions can take.
abbrev pub most_replies : List ℕ → ℕ
most_replies [] = 0
most_replies (retries ∷ more) = suc retries + most_replies more

submit_all_ends_from :
    (submissions : List ℕ) (rs : List Reply) (next : Option ℕ) (low : ℕ)
    → most_replies submissions ≤ length rs
    → All (λ o. o ≢ waiting) (submit_all submissions rs next low)
unfolding submit_all
submit_all_ends_from [] rs next low h = tt
submit_all_ends_from (k ∷ more) rs next low h =
    let run = attempt rs k next low in
    let ended = attempt-Ends rs k next low (omega arith) in
    (ended.0, submit_all_ends_from more run.rest run.next run.low (omega (arith, ended.1)))

-- Every submission of a fresh manager ends, accepted or rejected, where the node answers once for each
-- submission and once more for each of its retries.
pub submit_all_ends :
    (submissions : List ℕ) (rs : List Reply)
    → most_replies submissions ≤ length rs
    → All (λ o. o ≢ waiting) (submit_all submissions rs none 0)
submit_all_ends submissions rs h = submit_all_ends_from submissions rs none 0 h
