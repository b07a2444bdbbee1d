-- ===== src/JobQueue/Ordering.antt =====
-- The order of the queue: every pending job has its place, and none stands before one that beats it.
use mathlib.Core.List.{Permᴰ}
use mathlib.Core.List.Permᴰ as Permuted
use a2a_verification_network.Prelude.{
  String, ℕ, ◌+◌, ◌-◌, ◌*◌, ◌/◌, ◌<◌, ◌==◌, ◌≡◌, refl, sym, ◌∙◌, ap, ◌⊎◌, Bool, true, false, List,
  [], ◌∷◌, map, length, length-map, Ordering, insert_sorted, sort, arith, if◌then◌else◌,
}
use a2a_verification_network.Coordinator.Fairness.{length-sort}
use a2a_verification_network.Decimal.{parse_fee}
use a2a_verification_network.External.{External}
use a2a_verification_network.Store.Entities.{VerificationJob}
use a2a_verification_network.Priority.{
  PriorityOptions, QueueEntry, rank, ranked_le, is_positive, priority_score, fee_units,
  number_entries, order_queue,
}

module _ {ℓ} {A : Type ℓ} (R : A → A → Type 0) where
  abbrev IsBefore : A → List A → Type 0
  IsBefore a [] = Unit
  IsBefore a (b ∷ l) = R a b

  -- Each stands in the relation to the next one.
  abbrev pub IsLinked : List A → Type 0
  IsLinked [] = Unit
  IsLinked (a ∷ l) = IsBefore a l × IsLinked l

module _ {ℓ} {A : Type ℓ} {R S : A → A → Type 0} (weaken : (a b : A) → R a b → S a b) where
  IsLinked-mono : (l : List A) → IsLinked R l → IsLinked S l
  IsLinked-mono [] h = tt
  IsLinked-mono (a ∷ []) h = (tt, tt)
  IsLinked-mono (a ∷ b ∷ l) (h, hs) = (weaken a b h, IsLinked-mono (b ∷ l) hs)

module _ {ℓ} {A : Type ℓ} (le : A → A → Bool) where
  abbrev IsSorted : List A → Type 0
  IsSorted l = IsLinked (λ a b. le a b ≡ true) l

  insert_sorted-perm : (a : A) (l : List A) → Permᴰ (insert_sorted le a l) (a ∷ l)
  unfolding insert_sorted
  insert_sorted-perm a [] = Permuted.refl (a ∷ [])
  insert_sorted-perm a (b ∷ l) =
      elim (le a b)
        as (λ k. Permᴰ (if k then a ∷ b ∷ l else b ∷ insert_sorted le a l) (a ∷ b ∷ l)) [
          | true ↦ Permuted.refl (a ∷ b ∷ l)
          | false ↦ Permᴰ.trans (Permᴰ.cons refl (insert_sorted-perm a l)) (Permᴰ.swap refl refl)
        ]

  sort-perm : (l : List A) → Permᴰ (sort le l) l
  unfolding sort
  sort-perm [] = Permᴰ.nil
  sort-perm (a ∷ l) = Permᴰ.trans (insert_sorted-perm a (sort le l)) (Permᴰ.cons refl (sort-perm l))

  module _ (total : (a b : A) → (le a b ≡ true) ⊎ (le b a ≡ true)) where
    insert_sorted-IsSorted : (a : A) (l : List A) → IsSorted l → IsSorted (insert_sorted le a l)
    unfolding insert_sorted
    insert_sorted-IsSorted a [] h = (tt, tt)
    insert_sorted-IsSorted a (b ∷ []) h = ground (arith, total a b)
    insert_sorted-IsSorted a (b ∷ c ∷ l) h =
        ground (arith, total a b, total a c, insert_sorted-IsSorted a (c ∷ l))

    sort-IsSorted : (l : List A) → IsSorted (sort le l)
    unfolding sort
    sort-IsSorted [] = tt
    sort-IsSorted (a ∷ l) = insert_sorted-IsSorted a (sort le l) (sort-IsSorted l)

module _ {ℓ κ} {A : Type ℓ} {B : Type κ} (le : B → B → Bool) (f : A → B) where
  insert_sorted-map :
      (a : A) (l : List A)
      → insert_sorted le (f a) (map f l) ≡ map f (insert_sorted (λ x y. le (f x) (f y)) a l)
  unfolding insert_sorted
  insert_sorted-map a [] = refl
  insert_sorted-map a (b ∷ l) = ground (arith, insert_sorted-map a l)

  sort-map : (l : List A) → sort le (map f l) ≡ map f (sort (λ x y. le (f x) (f y)) l)
  unfolding sort
  sort-map [] = refl
  sort-map (a ∷ l) =
      ap (insert_sorted le (f a)) (sort-map l)
      ∙ insert_sorted-map a (sort (λ x y. le (f x) (f y)) l)

abbrev pub opposite : Ordering → Ordering
opposite Ordering.lt = Ordering.gt
opposite Ordering.eq = Ordering.eq
opposite Ordering.gt = Ordering.lt

-- The sign of `a - b` is the opposite of that of `b - a`, and `localeCompare` compares any two texts.
pub record IsComparing (x : External) : Type 0 where
  pub flip : (a b : x.Number) → x.number_compare b a ≡ opposite (x.number_compare a b)
  pub locale_total : (a b : String) → (x.locale_le a b ≡ true) ⊎ (x.locale_le b a ≡ true)

-- The numbers from `n` on.
abbrev pub counted : ℕ → List VerificationJob → List ℕ
counted n [] = []
counted n (j ∷ js) = n ∷ counted (n + 1) js

module _ (x : External) (now : ℕ) (options : PriorityOptions x) where
  -- Whether the queue may put a job before another.
  abbrev pub before : VerificationJob → VerificationJob → Bool
  before a b = ranked_le x (rank x now options a) (rank x now options b)

  abbrev pub jobs_of : List (QueueEntry x) → List VerificationJob
  jobs_of = map (λ e. e.job)

  abbrev pub positions_of : List (QueueEntry x) → List ℕ
  positions_of = map (λ e. e.position)

  jobs_of-number_entries :
      (n : ℕ) (js : List VerificationJob)
      → jobs_of (number_entries x n (map (rank x now options) js)) ≡ js
  unfolding number_entries rank
  jobs_of-number_entries n [] = refl
  jobs_of-number_entries n (j ∷ js) = ap (λ l. j ∷ l) (jobs_of-number_entries (n + 1) js)

  positions_of-number_entries :
      (n : ℕ) (js : List VerificationJob)
      → positions_of (number_entries x n (map (rank x now options) js)) ≡ counted (n + 1) js
  unfolding number_entries
  positions_of-number_entries n [] = refl
  positions_of-number_entries n (j ∷ js) =
      ap (λ l. (n + 1) ∷ l) (positions_of-number_entries (n + 1) js)

  order_queue_entries :
      (jobs : List VerificationJob)
      → order_queue x jobs now options
        ≡ number_entries x 0 (map (rank x now options) (sort before jobs))
  unfolding order_queue
  order_queue_entries jobs =
      ap (number_entries x 0) (sort-map (ranked_le x) (rank x now options) jobs)

  -- The priority of a job: the fee in fee units with three decimals, and the time it has waited in aging
  -- intervals, as far as the options count them.
  abbrev pub priority : VerificationJob → x.Number
  priority j =
      x.add
        (if options.fee_unit_wei == 0
          then x.number "0"
          else x.div (x.of_ℕ (parse_fee j.fee * 1000 / options.fee_unit_wei)) (x.number "1000"))
        (if is_positive x options.aging_seconds
          then x.div (x.div (x.of_ℕ (now - j.submitted_at)) (x.number "1000")) options.aging_seconds
          else x.number "0")

  -- A higher priority goes first, of two equal ones the earlier submission, and then the id.
  abbrev pub GoesFirst : VerificationJob → VerificationJob → Type 0
  GoesFirst a b =
      (x.number_compare (priority a) (priority b) ≡ Ordering.gt)
      ⊎ ((x.number_compare (priority a) (priority b) ≡ Ordering.eq)
          × (a.submitted_at < b.submitted_at))
      ⊎ ((x.number_compare (priority a) (priority b) ≡ Ordering.eq)
          × (a.submitted_at ≡ b.submitted_at)
          × (x.locale_le a.id b.id ≡ true))

  before-GoesFirst : IsComparing x → (a b : VerificationJob) → before a b ≡ true → GoesFirst a b
  unfolding ranked_le rank priority_score fee_units
  before-GoesFirst c a b h = ground (arith, c.flip (priority a) (priority b))

  before_total : IsComparing x → (a b : VerificationJob) → (before a b ≡ true) ⊎ (before b a ≡ true)
  unfolding ranked_le
  before_total c a b = ground (
    arith,
    c.flip (rank x now options a).score (rank x now options b).score,
    c.locale_total (rank x now options a).job.id (rank x now options b).job.id,
  )

  -- The queue lists every pending job exactly once, with the positions 1, 2, 3 and so on. Each job has a
  -- higher priority than the next one, or an equal one and an earlier submission, or equal ones and an id
  -- that compares no greater; the priority is the fee in fee units plus the waiting time in aging
  -- intervals.
  pub order_queue-IsLinked :
      IsComparing x
      → (jobs : List VerificationJob)
      → let entries = order_queue x jobs now options in
        Permᴰ (jobs_of entries) jobs
        × IsLinked GoesFirst (jobs_of entries)
        × (positions_of entries ≡ counted 1 (jobs_of entries))
  order_queue-IsLinked c jobs =
      let listed = jobs_of-number_entries 0 (sort before jobs) in
      rw (order_queue_entries jobs, listed)
        (
          sort-perm before jobs,
          IsLinked-mono (before-GoesFirst c) (sort before jobs)
              (sort-IsSorted before (before_total c) jobs),
          positions_of-number_entries 0 (sort before jobs),
        )

  pub length-order_queue :
      (jobs : List VerificationJob) → length (order_queue x jobs now options) ≡ length jobs
  length-order_queue jobs =
      sym (length-map (λ (e : QueueEntry x). e.job) (order_queue x jobs now options))
      ∙ ap length
          (ap jobs_of (order_queue_entries jobs) ∙ jobs_of-number_entries 0 (sort before jobs))
      ∙ length-sort before jobs
