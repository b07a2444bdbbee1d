-- ===== src/Reputation/Service.antt =====
-- reputation.service.ts.
use a2a_verification_network.Prelude.{
  ℕ, ◌+◌, ◌-◌, Bool, List, [], ◌∷◌, Option, none, some, String, str_eq, if◌then◌else◌,
}
use a2a_verification_network.External.{External}
use a2a_verification_network.Store.Entities.{ReputationScore, EntityType, validator_entity}
use a2a_verification_network.Store.Queries.{Queries}
use a2a_verification_network.Store.Monad.{
  M, state_of, ok, ◌>>=◌, return, or_throw, not_found, find_one_by, insert, save, scores,
}
use a2a_verification_network.Reputation.Decay.{
  decay_factor, decay_toward, composite_score, fold_observation, days_to_ms,
}

pub record ReputationObservation : Type 0 where
  pub accurate : Bool
  pub dispute_lost : Bool

abbrev pub same_entity : ReputationScore → ReputationScore → Bool
same_entity a b = str_eq a.entity_id b.entity_id

module _ (x : External) where
  open x use {Number, number, math_min, math_max, truthy, to_fixed}

  abbrev round4 : Number → String
  round4 v = to_fixed (math_min (number "1") (math_max (number "0") v)) 4

  abbrev bit : Bool → Number
  bit b = if b then number "1" else number "0"

  -- `Number(text) || 0`
  abbrev number_or_zero : String → Number
  number_or_zero text = if truthy (number text) then number text else number "0"

  unfoldable pub factor_since : Option ℕ → ℕ → Number
  unfolding decay_factor
  factor_since none now = number "1"
  factor_since (some reference) now =
      decay_factor x (now - reference) (days_to_ms x.config.half_life_days)

  -- What an observation makes of the entity's row.
  unfoldable pub observe : ReputationObservation → ℕ → ReputationScore → ReputationScore
  unfolding factor_since fold_observation
  observe o now score =
      let factor = factor_since score.last_activity_at now in
      let weight = number_or_zero score.evidence_weight in
      let accuracy = fold_observation x (number score.accuracy) weight (bit o.accurate) factor in
      let losses =
        fold_observation x (number score.dispute_loss_rate) weight (bit o.dispute_lost) factor in
      record score {
        accuracy = round4 accuracy.0;
        dispute_loss_rate = round4 losses.0;
        evidence_weight = to_fixed accuracy.1 6;
        last_activity_at = some now;
        total_jobs = if o.dispute_lost then score.total_jobs else score.total_jobs + 1;
        last_updated = now;
      }

  abbrev new_score : String → EntityType → ℕ → ReputationScore
  new_score entity_id entity_type n = record {
    id = x.generate n;
    entity_id = entity_id;
    entity_type = entity_type;
    accuracy = "1.0000";
    uptime = "1.0000";
    dispute_loss_rate = "0.0000";
    total_jobs = 0;
    evidence_weight = "0";
    last_activity_at = none;
    last_updated = x.clock;
  }

  pub record ReputationView : Type 0 where
    pub score : ReputationScore
    pub raw_score : Number
    pub effective_score : Number
    pub decay_factor : Number
    pub half_life_days : ℕ

  -- The reference of the decay: rows without activity fall back to their last update.
  abbrev pub last_seen : ReputationScore → ℕ
  last_seen score = elim score.last_activity_at [ none ↦ score.last_updated | some t ↦ t ]

  unfoldable pub view : ReputationScore → ℕ → ReputationView
  unfolding factor_since composite_score decay_toward
  view score now =
      let raw = composite_score x (record {
        accuracy = number score.accuracy;
        uptime = number score.uptime;
        dispute_loss_rate = number score.dispute_loss_rate;
      }) in
      let neutral = number x.config.neutral_score in
      let factor = factor_since (some (last_seen score)) now in
      record {
        score = score;
        raw_score = number (to_fixed raw 4);
        effective_score = number (to_fixed (decay_toward x raw neutral factor) 4);
        decay_factor = number (to_fixed factor 6);
        half_life_days = x.config.half_life_days;
      }

  module _ (q : Queries) where
    unfoldable pub find_by_entity_id : String → ℕ → M ReputationView
    unfolding view
    find_by_entity_id entity_id now = do
      found ← find_one_by q scores (λ r. str_eq r.entity_id entity_id)
      score ← or_throw not_found found
      return (view score now)

    -- `save` of the row that was found, or of a new one.
    abbrev pub put_observed :
        Option ReputationScore → String → EntityType → ReputationObservation → ℕ → M ReputationScore
    put_observed none entity_id entity_type o now =
        insert q scores same_entity (λ n. observe o now (new_score entity_id entity_type n))
    put_observed (some score) entity_id entity_type o now =
        save q scores (λ r. str_eq r.id score.id) (observe o now score)

    unfoldable pub record_observation :
        String → EntityType → ReputationObservation → ℕ → M ReputationScore
    record_observation entity_id entity_type o now = do
      existing ← find_one_by q scores (λ r. str_eq r.entity_id entity_id)
      put_observed existing entity_id entity_type o now

    -- An exception is only logged.
    unfoldable pub record_for_validators : List String → ReputationObservation → ℕ → M (Unit {0})
    record_for_validators [] o now s = ok tt s
    record_for_validators (v ∷ vs) o now s =
        record_for_validators vs o now (state_of (record_observation v validator_entity o now s))
