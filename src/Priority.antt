-- ===== src/Priority.antt =====
-- priority.ts: how pending jobs are ordered. Scores are doubles.
use a2a_verification_network.Prelude.{
  ℕ, ◌+◌, ◌-◌, ◌*◌, ◌/◌, ◌^◌, compare, Ordering, Bool, true, false, List, [], ◌∷◌, map, sort,
  if◌then◌else◌, ◌==◌,
}
use a2a_verification_network.Decimal.{parse_fee}
use a2a_verification_network.External.{External}
use a2a_verification_network.Store.Entities.{VerificationJob}

module _ (x : External) where
  open x use {Number, number, of_ℕ, add, div, number_compare, to_fixed}

  pub record PriorityOptions : Type 0 where
    pub fee_unit_wei : ℕ
    pub aging_seconds : Number

  abbrev pub default_priority_options : PriorityOptions
  default_priority_options = record { fee_unit_wei = 10 ^ 15; aging_seconds = number "60" }

  -- `a > 0`
  abbrev pub is_positive : Number → Bool
  is_positive a = elim (number_compare a (number "0")) [ Ordering.gt ↦ true | _ ↦ false ]

  unfoldable pub fee_units : ℕ → ℕ → Number
  fee_units fee_wei fee_unit_wei =
      if fee_unit_wei == 0
      then number "0"
      else div (of_ℕ (fee_wei * 1000 / fee_unit_wei)) (number "1000")

  unfoldable pub priority_score : ℕ → ℕ → PriorityOptions → Number
  unfolding fee_units
  priority_score fee_wei waited_ms options =
      let aging =
        if is_positive options.aging_seconds
        then div (div (of_ℕ waited_ms) (number "1000")) options.aging_seconds
        else number "0" in
      add (fee_units fee_wei options.fee_unit_wei) aging

  -- An entry before it has its position.
  pub record Ranked : Type 0 where
    pub job : VerificationJob
    pub score : Number
    pub waited_seconds : ℕ

  pub record QueueEntry : Type 0 where
    pub job : VerificationJob
    pub position : ℕ
    pub score : Number
    pub waited_seconds : ℕ

  unfoldable pub rank : ℕ → PriorityOptions → VerificationJob → Ranked
  unfolding parse_fee priority_score
  rank now options job =
      let waited_ms = now - job.submitted_at in
      record {
        job = job;
        score = priority_score (parse_fee job.fee) waited_ms options;
        waited_seconds = waited_ms / 1000;
      }

  -- Whether the comparison of `orderQueue` is not positive.
  unfoldable pub ranked_le : Ranked → Ranked → Bool
  ranked_le a b = elim (number_compare b.score a.score) [
    | Ordering.lt ↦ true
    | Ordering.gt ↦ false
    | Ordering.eq ↦ elim (compare a.job.submitted_at b.job.submitted_at) [
      | Ordering.lt ↦ true
      | Ordering.gt ↦ false
      | Ordering.eq ↦ x.locale_le a.job.id b.job.id
    ]
  ]

  -- The entries with their positions, from `index + 1` on, and with rounded scores.
  unfoldable pub number_entries : ℕ → List Ranked → List QueueEntry
  number_entries index [] = []
  number_entries index (e ∷ es) =
      record {
        job = e.job;
        position = index + 1;
        score = number (to_fixed e.score 3);
        waited_seconds = e.waited_seconds;
      }
      ∷ number_entries (index + 1) es

  unfoldable pub order_queue : List VerificationJob → ℕ → PriorityOptions → List QueueEntry
  unfolding number_entries sort ranked_le rank
  order_queue jobs now options = number_entries 0 (sort ranked_le (map (rank now options) jobs))
