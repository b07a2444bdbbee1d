-- ===== src/Deployments.antt =====
-- deployments.config.ts: the contract addresses that the node starts with. The pinned files are given by
-- what reading each candidate ends with, and `number` is the runtime's `Number(…)`, at whole values.
pub mod Sources
use a2a_verification_network.Prelude.{
  subst, ℕ, ◌==◌, ◌≡◌, refl, Bool, true, false, ◌||◌, List, [], ◌∷◌, Option, none, some, String,
  is_empty, str_eq, if◌then◌else◌, arith,
}
use a2a_verification_network.Jobs.{or_default}

pub record ContractDeployment : Type 0 where
  pub validator_registry : String
  pub policy_registry : String
  pub verdict_registry : String
  pub slashing_rewards : String

pub record DeploymentRegistry : Type 0 where
  pub chain_id : ℕ
  pub confirmations : ℕ
  pub explorer_url : String
  pub contracts : ContractDeployment

-- `process.env`, where a variable may be missing.
pub record Env : Type 0 where
  pub chain_id : Option String
  pub validator_registry_address : Option String
  pub policy_registry_address : Option String
  pub verdict_registry_address : Option String
  pub slashing_rewards_address : Option String
  pub blockchain_confirmations : Option String
  pub prom_testnet_explorer_url : Option String

-- A candidate file: not there, not readable, or parsed, with the address of each contract, if it has one.
pub data Pin : Type 0 where
  missing unreadable : Pin
  parsed : ℕ → List (String × Option String) → Pin

abbrev pub zero_address : String
zero_address = "0x0000000000000000000000000000000000000000"

-- `LOCAL_CHAIN_IDS.includes(chainId)`
abbrev pub is_local : ℕ → Bool
is_local chain = chain == 31337 || chain == 1337

-- The entries with an address.
abbrev pub with_address : Option String → String → List (String × String) → List (String × String)
with_address none name rest = rest
with_address (some address) name rest = if is_empty address then rest else (name, address) ∷ rest

abbrev pub addresses : List (String × Option String) → List (String × String)
addresses [] = []
addresses ((name, address) ∷ entries) = with_address address name (addresses entries)

unfoldable pub pinned_for : ℕ → List Pin → List (String × String)
pinned_for chain [] = []
pinned_for chain (missing ∷ pins) = pinned_for chain pins
pinned_for chain (unreadable ∷ pins) = pinned_for chain pins
pinned_for chain (parsed other entries ∷ pins) =
    let rest = pinned_for chain pins in if other == chain then addresses entries else rest

abbrev pub pinned_address : String → List (String × String) → Option String
pinned_address name [] = none
pinned_address name ((contract, address) ∷ entries) =
    let rest = pinned_address name entries in if str_eq contract name then some address else rest

-- `process.env.X ?? pinned.Y ?? ''`
unfoldable pub address_of : Option String → String → List (String × String) → String
address_of none name pinned = or_default "" (pinned_address name pinned)
address_of (some address) name pinned = address

unfoldable pub contracts_of : Env → List (String × String) → ContractDeployment
unfolding address_of
contracts_of env pinned = record {
  validator_registry = address_of env.validator_registry_address "ValidatorRegistry" pinned;
  policy_registry = address_of env.policy_registry_address "PolicyRegistry" pinned;
  verdict_registry = address_of env.verdict_registry_address "VerdictRegistry" pinned;
  slashing_rewards = address_of env.slashing_rewards_address "SlashingRewards" pinned;
}

-- `!address || address === ZERO`
abbrev pub is_unset : String → Bool
is_unset address = is_empty address || str_eq address zero_address

abbrev pub if_unset : String → String → List String → List String
if_unset name address rest = if is_unset address then name ∷ rest else rest

unfoldable pub unset_names : ContractDeployment → List String
unset_names c = if_unset "validatorRegistry" c.validator_registry (
    if_unset "policyRegistry" c.policy_registry (
      if_unset "verdictRegistry" c.verdict_registry
        (if_unset "slashingRewards" c.slashing_rewards [])))

-- How the start ends: with the registry, or with an exception that names the missing addresses.
pub data Resolved : Type 0 where
  registry : DeploymentRegistry → Resolved
  missing_addresses : List String → Resolved

abbrev pub accept_unset : Bool → List String → DeploymentRegistry → Resolved
accept_unset local [] r = registry r
accept_unset true (n ∷ ns) r = registry r
accept_unset false (n ∷ ns) r = missing_addresses (n ∷ ns)

module _ (number : String → ℕ) where
  abbrev pub chain_of : Env → ℕ
  chain_of env = elim env.chain_id [ none ↦ 31337 | some text ↦ number text ]

  abbrev pub contracts_for : Env → List Pin → ContractDeployment
  contracts_for env pins = contracts_of env (pinned_for (chain_of env) pins)

  abbrev pub registry_of : Env → List Pin → DeploymentRegistry
  registry_of env pins = record {
    chain_id = chain_of env;
    confirmations = elim env.blockchain_confirmations [
      | none ↦ if is_local (chain_of env) then 1 else 6
      | some text ↦ number text
    ];
    explorer_url = or_default "" env.prom_testnet_explorer_url;
    contracts = contracts_for env pins;
  }

  unfoldable pub resolve_deployments : Env → List Pin → Resolved
  unfolding pinned_for contracts_of unset_names
  resolve_deployments env pins =
      accept_unset (is_local (chain_of env)) (unset_names (contracts_for env pins))
        (registry_of env pins)
