-- ===== src/Validators/Tiers.antt =====
-- staking-tiers.ts: the tier table and the tier of a stake. Stakes are in wei.
use a2a_verification_network.Prelude.{
  ℕ, ◌*◌, List, [], ◌∷◌, Option, none, some, leb, if◌then◌else◌, map,
}
use a2a_verification_network.Store.Entities.{StakingTier, none_tier, bronze, silver, gold, platinum}

-- A whole number that may be negative; `negsuc n` is -(n + 1).
pub data ℤ : Type 0 where
  pos : ℕ → ℤ
  negsuc : ℕ → ℤ

pub record TierDefinition : Type 0 where
  pub tier : StakingTier
  pub min_stake_wei : ℕ
  pub weight : ℕ

pub record TierStep : Type 0 where
  pub tier : StakingTier
  pub multiple : ℕ
  pub weight : ℕ

abbrev pub tier_steps : List TierStep
tier_steps =
    record { tier = bronze; multiple = 1; weight = 1 }
    ∷ record { tier = silver; multiple = 5; weight = 2 }
    ∷ record { tier = gold; multiple = 20; weight = 4 }
    ∷ record { tier = platinum; multiple = 100; weight = 8 }
    ∷ []

abbrev pub unstaked : TierDefinition
unstaked = record { tier = none_tier; min_stake_wei = 0; weight = 0 }

abbrev pub scale : ℕ → TierStep → TierDefinition
scale unit step = record {
  tier = step.tier;
  min_stake_wei = unit * step.multiple;
  weight = step.weight;
}

-- `none` is the exception for a minimum stake that is not positive.
unfoldable pub build_tier_table : ℕ → Option (List TierDefinition)
build_tier_table unit = if leb unit 0 then none else some (map (scale unit) tier_steps)

-- The loop over the table, which keeps the last definition that the stake reaches.
unfoldable pub match_tier : TierDefinition → ℕ → List TierDefinition → TierDefinition
match_tier matched stake [] = matched
match_tier matched stake (d ∷ table) =
    match_tier (if leb d.min_stake_wei stake then d else matched) stake table

unfoldable pub tier_for_stake : ℕ → List TierDefinition → TierDefinition
unfolding match_tier
tier_for_stake stake table = match_tier unstaked stake table
