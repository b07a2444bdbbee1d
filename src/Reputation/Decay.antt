-- ===== src/Reputation/Decay.antt =====
-- decay.ts. A double is a value of `x.Number`; milliseconds are natural numbers, since a difference of
-- dates that is not positive takes the same branch as 0.
use a2a_verification_network.Prelude.{ℕ, ◌*◌, ◌||◌, leb, if◌then◌else◌}
use a2a_verification_network.External.{External}

abbrev pub day_ms : ℕ
day_ms = 24 * 60 * 60 * 1000

abbrev pub days_to_ms : ℕ → ℕ
days_to_ms days = days * day_ms

module _ (x : External) where
  open x use {Number, number, of_ℕ, add, sub, mul, div, pow, math_min, math_max}

  pub record ReputationComponents : Type 0 where
    pub accuracy : Number
    pub uptime : Number
    pub dispute_loss_rate : Number

  unfoldable pub decay_factor : ℕ → ℕ → Number
  decay_factor elapsed_ms half_life_ms =
      if leb half_life_ms 0 || leb elapsed_ms 0
      then number "1"
      else pow (number "0.5") (div (of_ℕ elapsed_ms) (of_ℕ half_life_ms))

  unfoldable pub decay_toward : Number → Number → Number → Number
  decay_toward v baseline factor = add baseline (mul (sub v baseline) factor)

  unfoldable pub composite_score : ReputationComponents → Number
  composite_score c =
      let score =
        add (add (mul (number "0.5") c.accuracy) (mul (number "0.3") c.uptime))
          (mul (number "0.2") (sub (number "1") c.dispute_loss_rate)) in
      math_min (number "1") (math_max (number "0") score)

  -- The new mean and the new weight.
  unfoldable pub fold_observation : Number → Number → Number → Number → Number × Number
  fold_observation mean weight observation factor =
      let decayed_weight = mul (math_max (number "0") weight) factor in
      let next_weight = add decayed_weight (number "1") in
      (div (add (mul mean decayed_weight) observation) next_weight, next_weight)
