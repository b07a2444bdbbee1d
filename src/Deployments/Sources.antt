-- ===== src/Deployments/Sources.antt =====
-- deployments.config.ts: where the addresses come from that the node starts with.
use a2a_verification_network.Prelude.{
  subst, ℕ, ◌≡◌, refl, ◌≢◌, ◌⊎◌, inl, inr, false, List, [], ◌∷◌, Option, none, some, String,
  str_eq_iff, arith,
}
use a2a_verification_network.Jobs.{or_default}
use a2a_verification_network.Deployments.{
  ContractDeployment, DeploymentRegistry, Env, Pin, missing, unreadable, parsed, is_local, is_unset,
  addresses, pinned_for, pinned_address, address_of, contracts_of, unset_names, registry,
  accept_unset, chain_of, contracts_for, registry_of, resolve_deployments,
}

-- The file has an entry with this name and this address.
abbrev pub HasEntry : String → String → List (String × Option String) → Type 0
HasEntry name address [] = ⊥
HasEntry name address ((n, a) ∷ entries) =
    ((n ≡ name) × (a ≡ some address)) ⊎ HasEntry name address entries

-- The first file for the chain has the entry.
abbrev pub IsPinned : ℕ → List Pin → String → String → Type 0
IsPinned chain [] name address = ⊥
IsPinned chain (missing ∷ pins) name address = IsPinned chain pins name address
IsPinned chain (unreadable ∷ pins) name address = IsPinned chain pins name address
IsPinned chain (parsed other entries ∷ pins) name address =
    ((other ≡ chain) × HasEntry name address entries)
    ⊎ ((other ≢ chain) × IsPinned chain pins name address)

-- The variable of the environment has the address; or there is none, and the address is pinned.
abbrev pub IsChosen : ℕ → List Pin → Option String → String → String → Type 0
IsChosen chain pins variable name address =
    (variable ≡ some address) ⊎ ((variable ≡ none) × IsPinned chain pins name address)

addresses-HasEntry :
    (name address : String) (entries : List (String × Option String))
    → pinned_address name (addresses entries) ≡ some address
    → HasEntry name address entries
addresses-HasEntry name address [] h = absurd (ground arith)
addresses-HasEntry name address ((n, none) ∷ entries) h =
    inr (addresses-HasEntry name address entries h)
addresses-HasEntry name address ((n, some a) ∷ entries) h =
    ground (arith, str_eq_iff n name, addresses-HasEntry name address entries)

pinned_for-IsPinned :
    (chain : ℕ) (pins : List Pin) (name address : String)
    → pinned_address name (pinned_for chain pins) ≡ some address
    → IsPinned chain pins name address
unfolding pinned_for
pinned_for-IsPinned chain [] name address h = absurd (ground arith)
pinned_for-IsPinned chain (missing ∷ pins) name address h =
    pinned_for-IsPinned chain pins name address h
pinned_for-IsPinned chain (unreadable ∷ pins) name address h =
    pinned_for-IsPinned chain pins name address h
pinned_for-IsPinned chain (parsed other entries ∷ pins) name address h =
    ground
      (arith, addresses-HasEntry name address entries, pinned_for-IsPinned chain pins name address)

-- An address that is not empty is the one that was found.
or_empty-some :
    (P : String → Type 0) (found : Option String)
    → ((a : String) → found ≡ some a → P a)
    → is_unset (or_default "" found) ≡ false
    → P (or_default "" found)
or_empty-some P none f h = absurd (ground arith)
or_empty-some P (some a) f h = f a refl

address_of-IsChosen :
    (chain : ℕ) (pins : List Pin) (variable : Option String) (name : String)
    → is_unset (address_of variable name (pinned_for chain pins)) ≡ false
    → IsChosen chain pins variable name (address_of variable name (pinned_for chain pins))
unfolding address_of
address_of-IsChosen chain pins (some address) name h = inl refl
address_of-IsChosen chain pins none name h = inr (
  refl,
  or_empty-some (IsPinned chain pins name) (pinned_address name (pinned_for chain pins))
      (pinned_for-IsPinned chain pins name) h,
)

-- An address that is used: neither empty nor zero, and chosen so.
abbrev pub IsUsed : ℕ → List Pin → Option String → String → String → Type 0
IsUsed chain pins variable name address =
    (is_unset address ≡ false) × IsChosen chain pins variable name address

unset_names-nil :
    (c : ContractDeployment)
    → unset_names c ≡ []
    → (is_unset c.validator_registry ≡ false)
      × (is_unset c.policy_registry ≡ false)
      × (is_unset c.verdict_registry ≡ false)
      × (is_unset c.slashing_rewards ≡ false)
unfolding unset_names
unset_names-nil c h = ground arith

accepted-nil :
    (names : List String) (r r' : DeploymentRegistry)
    → accept_unset false names r ≡ registry r'
    → (names ≡ []) × (r ≡ r')
accepted-nil [] r r' e = (refl, ground arith)
accepted-nil (n ∷ ns) r r' e = absurd (ground arith)

module _ (number : String → ℕ) (env : Env) (pins : List Pin) where
  -- The four addresses, each used and chosen on its own.
  pub record IsConfigured (r : DeploymentRegistry) : Type 0 where
    pub chain_id : r.chain_id ≡ chain_of number env
    pub validator_registry :
        IsUsed r.chain_id pins env.validator_registry_address "ValidatorRegistry"
          r.contracts.validator_registry
    pub policy_registry :
        IsUsed r.chain_id pins env.policy_registry_address "PolicyRegistry"
          r.contracts.policy_registry
    pub verdict_registry :
        IsUsed r.chain_id pins env.verdict_registry_address "VerdictRegistry"
          r.contracts.verdict_registry
    pub slashing_rewards :
        IsUsed r.chain_id pins env.slashing_rewards_address "SlashingRewards"
          r.contracts.slashing_rewards

  contracts_for-IsConfigured :
      unset_names (contracts_for number env pins) ≡ [] → IsConfigured (registry_of number env pins)
  unfolding contracts_of
  contracts_for-IsConfigured names =
      let (a, b, c, d) = unset_names-nil (contracts_for number env pins) names in
      let chain = chain_of number env in
      record {
        chain_id = refl;
        validator_registry = (
          a,
          address_of-IsChosen chain pins env.validator_registry_address "ValidatorRegistry" a,
        );
        policy_registry =
            (b, address_of-IsChosen chain pins env.policy_registry_address "PolicyRegistry" b);
        verdict_registry =
            (c, address_of-IsChosen chain pins env.verdict_registry_address "VerdictRegistry" c);
        slashing_rewards =
            (d, address_of-IsChosen chain pins env.slashing_rewards_address "SlashingRewards" d);
      }

  -- On a network that is not local, the node starts only with an address for each of the four contracts,
  -- none of them empty or zero. Each is the value of the contract's variable in the environment, or there
  -- is no such variable and the first pinned file for the chain has an entry with it.
  pub resolve_deployments-IsConfigured :
      (r : DeploymentRegistry)
      → is_local (chain_of number env) ≡ false
      → resolve_deployments number env pins ≡ registry r
      → IsConfigured r
  unfolding resolve_deployments
  resolve_deployments-IsConfigured r real e =
      let (names, same) =
        accepted-nil (unset_names (contracts_for number env pins)) (registry_of number env pins) r (
          subst
            (λ b.
              accept_unset b (unset_names (contracts_for number env pins))
                (registry_of number env pins)
              ≡ registry r)
            real e) in
      subst IsConfigured same (contracts_for-IsConfigured names)
