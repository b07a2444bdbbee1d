-- ===== src/Reputation/Frame.antt =====
-- Recording reputation, as far as the other tables are concerned.
use a2a_verification_network.Prelude.{ℕ, ◌≡◌, refl, ◌∙◌, List, [], ◌∷◌, String, arith, ap}
use a2a_verification_network.External.{External}
use a2a_verification_network.Store.Entities.{Store, EntityType, validator_entity}
use a2a_verification_network.Store.Queries.{reference}
use a2a_verification_network.Store.Monad.{ok, state_of}
use a2a_verification_network.Reputation.Service.{
  ReputationObservation, record_observation, record_for_validators,
}

-- The database with the reputation of another one.
abbrev pub with_scores_of : Store → Store → Store
with_scores_of s t = record t { scores = s.scores; sequence = s.sequence }

module _ (x : External) (o : ReputationObservation) (now : ℕ) where
  observation_frame :
      (id : String) (kind : EntityType) (s : Store)
      → with_scores_of s (state_of (record_observation x reference id kind o now s)) ≡ s
  unfolding record_observation
  observation_frame id kind s = ground arith

  pub record_for_validators_frame :
      (ids : List String) (s : Store)
      → with_scores_of s (state_of (record_for_validators x reference ids o now s)) ≡ s
  unfolding record_for_validators
  record_for_validators_frame [] s = refl
  record_for_validators_frame (id ∷ ids) s =
      let s' = state_of (record_observation x reference id validator_entity o now s) in
      ap (with_scores_of s) (record_for_validators_frame ids s')
      ∙ observation_frame id validator_entity s

  pub record_for_validators_ok :
      (ids : List String) (s : Store)
      → record_for_validators x reference ids o now s
        ≡ ok tt (state_of (record_for_validators x reference ids o now s))
  unfolding record_for_validators
  record_for_validators_ok [] s = refl
  record_for_validators_ok (id ∷ ids) s =
      record_for_validators_ok ids
        (state_of (record_observation x reference id validator_entity o now s))
