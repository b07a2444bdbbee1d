-- ===== src/Chain/Retry.antt =====
-- retry.util.ts. The operation is the list of what its calls end with.
use a2a_verification_network.Prelude.{
  ℕ, zero, suc, ◌+◌, ◌*◌, ◌≤◌, ◌<◌, ◌≡◌, min, max, Bool, true, not, ◌||◌, List, [], ◌∷◌, replicate,
  ◌++◌, leb, arith, All, if◌then◌else◌,
}

-- A call returns, or throws an error that `shouldRetry` accepts or not.
pub data Call : Type 0 where
  returns : Call
  throws : Bool → Call

pub data Ended : Type 0 where
  returned thrown pending : Ended

pub record RetryOptions : Type 0 where
  pub max_attempts : ℕ
  pub initial_delay_ms : ℕ
  pub max_delay_ms : ℕ
  pub factor : ℕ

-- How the loop ends, how often the operation was called, and the delays before jitter.
pub record Retried : Type 0 where
  pub ended : Ended
  pub calls : ℕ
  pub delays : List ℕ

-- The rounds of the loop; `attempt` is the number of calls so far.
unfoldable pub retry_from : RetryOptions → List Call → ℕ → ℕ → Retried
retry_from o [] attempt delay = record {
  ended = if leb o.max_attempts attempt then thrown else pending;
  calls = 0;
  delays = [];
}
retry_from o (c ∷ cs) attempt delay =
    let later = retry_from o cs (attempt + 1) (min (delay * o.factor) o.max_delay_ms) in
    let stop : Retried = record { ended = thrown; calls = 1; delays = [] } in
    let on_throw : Bool → Retried = λ retryable.
      if leb o.max_attempts (attempt + 1) || not retryable
      then stop
      else record { ended = later.ended; calls = later.calls + 1; delays = delay ∷ later.delays } in
    if leb o.max_attempts attempt
    then record { ended = thrown; calls = 0; delays = [] }
    else elim c [
      | returns ↦ record { ended = returned; calls = 1; delays = [] }
      | throws retryable ↦ on_throw retryable
    ]

unfoldable pub with_retry : RetryOptions → List Call → Retried
unfolding retry_from
with_retry o cs = retry_from o cs 0 o.initial_delay_ms

retry_from_bounds :
    (o : RetryOptions) (cs : List Call) (attempt delay : ℕ)
    → delay ≤ o.max_delay_ms
    → ((retry_from o cs attempt delay).calls + attempt ≤ max attempt o.max_attempts)
      × All (λ d. d ≤ o.max_delay_ms) (retry_from o cs attempt delay).delays
unfolding retry_from
retry_from_bounds o [] attempt delay h = ground arith
retry_from_bounds o (c ∷ cs) attempt delay h =
    ground (arith, retry_from_bounds o cs (attempt + 1) (min (delay * o.factor) o.max_delay_ms))

-- The operation is called at most `maxAttempts` times, and no delay before jitter is longer than
-- `maxDelayMs`, if the first one is not.
pub with_retry_bounds :
    (o : RetryOptions) (cs : List Call)
    → o.initial_delay_ms ≤ o.max_delay_ms
    → ((with_retry o cs).calls ≤ o.max_attempts)
      × All (λ d. d ≤ o.max_delay_ms) (with_retry o cs).delays
unfolding with_retry
with_retry_bounds o cs h =
    let b = retry_from_bounds o cs 0 o.initial_delay_ms h in (omega arith, b.1)

retry_reaches :
    (o : RetryOptions) (n : ℕ) (cs : List Call) (attempt delay : ℕ)
    → attempt + n < o.max_attempts
    → (retry_from o (replicate n (throws true) ++ returns ∷ cs) attempt delay).ended ≡ returned
unfolding retry_from
retry_reaches o zero cs attempt delay h = ground arith
retry_reaches o (suc n) cs attempt delay h =
    ground (arith, retry_reaches o n cs (attempt + 1) (min (delay * o.factor) o.max_delay_ms))

-- A call that returns after failures that may all be retried is reached, if it is among the first
-- `maxAttempts` calls: the whole run returns.
pub with_retry_reaches :
    (o : RetryOptions) (n : ℕ) (cs : List Call)
    → n < o.max_attempts
    → (with_retry o (replicate n (throws true) ++ returns ∷ cs)).ended ≡ returned
unfolding with_retry
with_retry_reaches o n cs h = retry_reaches o n cs 0 o.initial_delay_ms (omega arith)
