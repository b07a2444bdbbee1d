-- ===== src/Tests/Committees.antt =====
-- Runs of staking tiers, draws and claims at concrete inputs.
use mathlib.Core.List.{Permᴰ}
use a2a_verification_network.Prelude.{
  to_lower, ◌≤◌, ◌<◌, ◌≡◌, refl, true, false, List, [], ◌∷◌, some, String, str_eq, All, map,
}
use a2a_verification_network.Store.Entities.{VerificationJob, gold, pending}
use a2a_verification_network.Store.Queries.{reference, reference-IsSql}
use a2a_verification_network.Store.Monad.{ok}
use a2a_verification_network.Validators.Tiers.{
  TierDefinition, tier_steps, unstaked, scale, build_tier_table, tier_for_stake,
}
use a2a_verification_network.Validators.Ranks.{Highest, tier_for_stake-Highest}
use a2a_verification_network.Validators.Service.{EligibleValidator}
use a2a_verification_network.Coordinator.Draw.{select_weighted}
use a2a_verification_network.Coordinator.Fairness.{select_weighted-perm}
use a2a_verification_network.Jobs.{claim_pending}
use a2a_verification_network.Jobs.Laws.{job_row}
use a2a_verification_network.Jobs.Claiming.{claim_once, claimed, claim_patch}
use a2a_verification_network.Tests.Order.{ordered, ordered-IsCollation}
use a2a_verification_network.Tests.Data.{world, job, store_of}

abbrev table : List TierDefinition
table = map (scale 100) tier_steps

tier_for_stake-Highest_example :
    All (Highest 150 (tier_for_stake 150 table)) table
    × ((tier_for_stake 150 table).min_stake_wei ≤ 150)
    × (150 < 100 → tier_for_stake 150 table ≡ unstaked)
unfolding build_tier_table
tier_for_stake-Highest_example = tier_for_stake-Highest 100 150 table refl

abbrev candidate : String → EligibleValidator
candidate id = record { id = id; tier = gold; weight = 4 }

select_weighted-perm_example :
    select_weighted ordered (candidate "a" ∷ candidate "b" ∷ candidate "c" ∷ []) 2 "seed"
    ≡ select_weighted ordered (candidate "b" ∷ candidate "a" ∷ candidate "c" ∷ []) 2 "seed"
select_weighted-perm_example =
    select_weighted-perm ordered ordered-IsCollation 2 "seed" (Permᴰ.swap refl refl)
      (refl, (refl, (refl, tt)))

abbrev waiting_job : VerificationJob
waiting_job = record job { status = pending }

claim_once_example :
    (claim_pending reference world "j" (store_of waiting_job [])
      ≡ ok true (claimed "j" (store_of waiting_job [])))
    × (job_row "j" (claimed "j" (store_of waiting_job [])) ≡ some (claim_patch waiting_job))
    × (claim_pending reference world "j" (claimed "j" (store_of waiting_job []))
        ≡ ok false (claimed "j" (store_of waiting_job [])))
unfolding str_eq to_lower
claim_once_example =
    claim_once reference reference-IsSql world "j" (store_of waiting_job []) waiting_job refl refl
