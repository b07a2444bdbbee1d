-- ===== src/Validators/Service.antt =====
-- validators.service.ts. The constructor's tier table is `tiers`.
use a2a_verification_network.Prelude.{
  ℕ, Bool, true, false, List, [], ◌∷◌, Option, none, some, String, filter, map, ltb, str_eq,
  includes, if◌then◌else◌,
}
use a2a_verification_network.Decimal.{parse_stake, to_string}
use a2a_verification_network.External.{External}
use a2a_verification_network.Store.Entities.{Validator, StakingTier}
use a2a_verification_network.Store.Queries.{Queries}
use a2a_verification_network.Store.Monad.{
  M, ◌>>=◌, return, or_throw, not_found, find_by, find_one_by, insert, save, validators,
}
use a2a_verification_network.Validators.Tiers.{TierDefinition, tier_for_stake, tier_steps, scale}

pub record RegisterValidatorDto : Type 0 where
  pub address : String
  pub public_key : String
  pub stake : String
  pub endpoint : String
  pub capabilities : Option (List String)

pub record EligibleValidator : Type 0 where
  pub id : String
  pub tier : StakingTier
  pub weight : ℕ

abbrev or_empty : Option (List String) → List String
or_empty none = []
or_empty (some xs) = xs

abbrev pub same_address : Validator → Validator → Bool
same_address a b = str_eq a.address b.address

-- `[...new Set(ids)]`: the first occurrence of each.
unfoldable pub distinct : List String → List String → List String
unfolding includes
distinct seen [] = []
distinct seen (x ∷ xs) =
    let fresh = x ∷ distinct (x ∷ seen) xs in
    let known = distinct seen xs in if includes seen x then known else fresh

module _ (q : Queries) (x : External) where
  abbrev pub tiers : List TierDefinition
  tiers = map (scale x.config.min_stake_wei) tier_steps

  unfoldable pub tier_of : String → TierDefinition
  unfolding parse_stake tier_for_stake
  tier_of stake = tier_for_stake (parse_stake stake) tiers

  unfoldable pub register : RegisterValidatorDto → M Validator
  register dto = insert q validators same_address λ n. record {
    id = x.generate n;
    address = dto.address;
    public_key = dto.public_key;
    stake = dto.stake;
    tier = (tier_of dto.stake).tier;
    endpoint = dto.endpoint;
    capabilities = or_empty dto.capabilities;
    is_active = true;
    registered_at = x.clock;
  }

  unfoldable pub find_all : M (List Validator)
  find_all = find_by q validators λ v. true

  unfoldable pub find_one : String → M Validator
  find_one id = do found ← find_one_by q validators (λ v. str_eq v.id id); or_throw not_found found

  -- Ids that are no UUIDs are left out of the query.
  unfoldable pub find_by_ids : List String → M (List Validator)
  find_by_ids ids =
      let valid = distinct [] (filter x.is_uuid ids) in
      elim valid [ [] ↦ return [] | i ∷ is ↦ find_by q validators (λ v. includes (i ∷ is) v.id) ]

  unfoldable pub exit : String → M Validator
  exit id = do
    validator ← find_one id
    save q validators (λ v. str_eq v.id validator.id) (record validator { is_active = false })

  unfoldable pub update_stake : String → String → M Validator
  update_stake id stake = do
    validator ← find_one id
    save q validators (λ v. str_eq v.id validator.id)
        (record validator { stake = stake; tier = (tier_of stake).tier })

  abbrev pub tier_row : TierDefinition → StakingTier × String × ℕ
  tier_row d = (d.tier, to_string d.min_stake_wei, d.weight)

  unfoldable pub tier_table : List (StakingTier × String × ℕ)
  tier_table = map tier_row tiers

  abbrev pub candidate_of : Validator → EligibleValidator
  candidate_of v = let d = tier_of v.stake in record { id = v.id; tier = d.tier; weight = d.weight }

  unfoldable pub find_eligible : M (List EligibleValidator)
  find_eligible = do
    active ← find_by q validators (λ v. v.is_active)
    return (filter (λ c. ltb 0 c.weight) (map candidate_of active))
