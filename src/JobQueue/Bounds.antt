-- ===== src/JobQueue/Bounds.antt =====
-- How many jobs a drain takes.
use a2a_verification_network.Prelude.{
  if◌then◌else◌, ℕ, suc, ◌≤◌, ◌≡◌, subst, Bool, true, false, List, [], ◌∷◌, map, Option, String,
  length, length-map, length-take-le, take, arith,
}
use a2a_verification_network.External.{External}
use a2a_verification_network.Store.Entities.{Store, VerificationJob}
use a2a_verification_network.Store.Queries.{Queries, IsSql, reference, eq-reference}
use a2a_verification_network.Store.Monad.{M, Result, ok, throw, ◌>>=◌, return, catch}
use a2a_verification_network.Jobs.{find_pending_by_priority, claim_pending}
use a2a_verification_network.Priority.{QueueEntry, order_queue}
use a2a_verification_network.JobQueue.Service.{
  DrainResult, options, list_queue, process_queued, fail_queued, drain_one, drain_jobs, drain,
}
use a2a_verification_network.JobQueue.Ordering.{length-order_queue}

-- What the step returns is no longer than `n`.
abbrev IsWithin : {T : Type 0} → ℕ → Result (List T) → Type 0
IsWithin n (ok rs t) = length rs ≤ n
IsWithin n (throw e t) = Unit

record YieldsWithin (n : ℕ) (m : M (List DrainResult)) : Type 0 where
  within : (s : Store) → IsWithin n (m s)

weaken : (m n : ℕ) (r : Result (List DrainResult)) → m ≤ n → IsWithin m r → IsWithin n r
weaken m n (ok rs t) le h = omega (arith, h, le)
weaken m n (throw e t) le h = tt

one_more :
    (n : ℕ) (d : DrainResult) (r : Result (List DrainResult))
    → IsWithin n r
    → IsWithin (suc n) (elim r [ ok rs t ↦ ok (d ∷ rs) t | throw e t ↦ throw e t ])
one_more n d (ok rs t) h = omega (arith, h)
one_more n d (throw e t) h = tt

after_one :
    {n : ℕ} (m : M DrainResult) {rest : M (List DrainResult)}
    → YieldsWithin n rest
    → YieldsWithin (suc n) (do d ← m; ds ← rest; return (d ∷ ds))
after_one {n} m {rest} h = record { within = λ s. go (m s) }
  where
    go :
        (a : Result DrainResult)
        → IsWithin (suc n) (elim a as (λ k. Result (List DrainResult)) [
          | ok d t ↦ (rest >>= λ ds. return (d ∷ ds)) t
          | throw e t ↦ throw e t
        ])
    go (ok d t) = one_more n d (rest t) (h.within t)
    go (throw e t) = tt

if_within :
    {n : ℕ} (b : Bool) {m k : M (List DrainResult)}
    → YieldsWithin n m
    → YieldsWithin n k
    → YieldsWithin n (if b then m else k)
if_within true h h' = h
if_within false h h' = h'

bind_within :
    {A : Type 0} {n : ℕ} (m : M A) {f : A → M (List DrainResult)}
    → ((a : A) → YieldsWithin n (f a))
    → YieldsWithin n (m >>= f)
bind_within {A} {n} m {f} h = record { within = λ s. go (m s) }
  where
    go :
        (a : Result A)
        → IsWithin n
            (elim a as (λ k. Result (List DrainResult)) [ ok d t ↦ f d t | throw e t ↦ throw e t ])
    go (ok d t) = (h d).within t
    go (throw e t) = tt

module _ (x : External) where
  drain_one_within :
      (id : String) (tx : Option String) (n : ℕ) (rest : M (List DrainResult))
      → YieldsWithin n rest
      → YieldsWithin (suc n) (drain_one reference x id tx rest)
  unfolding drain_one
  drain_one_within id tx n rest h = bind_within (claim_pending reference x id) λ claimed.
      if_within claimed
        (after_one (catch (process_queued reference x id tx) (fail_queued reference x id)) h)
        (record { within = λ t. weaken n (suc n) (rest t) (omega arith) (h.within t) })

  drain_jobs_within :
      (tx : String → Option String) (ids : List String)
      → YieldsWithin (length ids) (drain_jobs reference x tx ids)
  unfolding drain_jobs
  drain_jobs_within tx [] = record { within = λ s. omega arith }
  drain_jobs_within tx (id ∷ ids) =
      drain_one_within id (tx id) (length ids) (drain_jobs reference x tx ids)
        (drain_jobs_within tx ids)

  -- The loop over the head of a queue.
  drain_listed :
      (tx : String → Option String) (limit now : ℕ) (jobs : List VerificationJob)
      → YieldsWithin limit (
          drain_jobs reference x tx (
            map (λ (e : QueueEntry x). e.job.id) (order_queue x (take limit jobs) now (options x))))
  drain_listed tx limit now jobs =
      let entries = order_queue x (take limit jobs) now (options x) in
      let ids = map (λ (e : QueueEntry x). e.job.id) entries in
      record {
        within = λ s.
            weaken (length ids) limit (drain_jobs reference x tx ids s)
              (omega (
                arith,
                length-map (λ (e : QueueEntry x). e.job.id) entries,
                length-order_queue x now (options x) (take limit jobs),
                length-take-le limit jobs,
              ))
              ((drain_jobs_within tx ids).within s);
      }

  drain_within :
      (busy : Bool) (tx : String → Option String) (limit now : ℕ)
      → YieldsWithin (if busy then 0 else limit) (drain reference x busy tx limit now)
  unfolding drain list_queue find_pending_by_priority
  drain_within true tx limit now = record { within = λ s. omega arith }
  drain_within false tx limit now = record { within = λ s. (drain_listed tx limit now _).within s }

  drain-le_at_reference :
      (busy : Bool) (tx : String → Option String) (limit now : ℕ) (s t : Store)
      (rs : List DrainResult)
      → drain reference x busy tx limit now s ≡ ok rs t
      → length rs ≤ (if busy then 0 else limit)
  drain-le_at_reference busy tx limit now s t rs e =
      subst (IsWithin (if busy then 0 else limit)) e ((drain_within busy tx limit now).within s)

module _ (q : Queries) (sql : IsSql q) (x : External) where
  -- A drain handles at most as many jobs as its limit says, and none while another drain is running.
  pub length-drain-le :
      (busy : Bool) (tx : String → Option String) (limit now : ℕ) (s t : Store)
      (rs : List DrainResult)
      → drain q x busy tx limit now s ≡ ok rs t
      → length rs ≤ (if busy then 0 else limit)
  length-drain-le = rw (eq-reference q sql) (drain-le_at_reference x)
