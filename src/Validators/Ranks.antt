-- ===== src/Validators/Ranks.antt =====
-- Tiers compared by stake.
use a2a_verification_network.Prelude.{ℕ, ◌≤◌, ◌<◌, ◌≡◌, List, some, arith, All}
use a2a_verification_network.Validators.Tiers.{
  TierDefinition, build_tier_table, tier_for_stake, unstaked,
}

-- Every definition that the stake reaches asks for no more than the matched one.
abbrev pub Highest : ℕ → TierDefinition → TierDefinition → Type 0
Highest stake matched d = d.min_stake_wei ≤ stake → d.min_stake_wei ≤ matched.min_stake_wei

-- In the table of a minimum stake, a stake is given the definition with the largest minimum among
-- those that it reaches; below the minimum stake it is given none, with weight 0.
pub tier_for_stake-Highest :
    (unit stake : ℕ) (table : List TierDefinition)
    → build_tier_table unit ≡ some table
    → All (Highest stake (tier_for_stake stake table)) table
      × ((tier_for_stake stake table).min_stake_wei ≤ stake)
      × (stake < unit → tier_for_stake stake table ≡ unstaked)
unfolding build_tier_table tier_for_stake
tier_for_stake-Highest unit stake table e = ground arith

-- More stake never means less weight in a draw.
pub tier_weight_mono :
    (unit small large : ℕ) (table : List TierDefinition)
    → build_tier_table unit ≡ some table
    → small ≤ large
    → (tier_for_stake small table).weight ≤ (tier_for_stake large table).weight
unfolding build_tier_table tier_for_stake
tier_weight_mono unit small large table e h = ground arith
