-- ===== src/Slashing/Proposing.antt =====
-- The proposals that an overturned verdict raises.
use mathlib.Core.List.{append_assoc, append-nil}
use a2a_verification_network.Prelude.{
  Bool, suc, sym, ap, subst, ◌∙◌, ◌⊎◌, inl, inr, ℕ, ◌≤◌, ◌<◌, ◌≡◌, refl, true, false, List, [], ◌∷◌,
  ◌++◌, some, String, str_eq, find?, filter, map, includes, arith, All,
}
use a2a_verification_network.Decimal.{parse_stake, parse_stake-to_string}
use a2a_verification_network.External.{External}
use a2a_verification_network.Store.Entities.{Store, SlashingProposal, Validator, Verdict, proposed}
use a2a_verification_network.Store.Queries.{Queries, IsSql, reference, eq-reference}
use a2a_verification_network.Store.Distinct.{In, In-tail, In-filter}
use a2a_verification_network.Store.Monad.{ok, state_of}
use a2a_verification_network.Validators.Service.{distinct, find_by_ids}
use a2a_verification_network.Reputation.Service.{ReputationObservation, record_for_validators}
use a2a_verification_network.Reputation.Frame.{
  record_for_validators_frame, record_for_validators_ok,
}
use a2a_verification_network.Slashing.Service.{
  OverturnedVerdictContext, slash_amount, propose_each, proposal_for, propose_new,
  propose_for_signers, propose_for_overturned_verdict,
}
use a2a_verification_network.Slashing.Amounts.{slash_amount_bounds}

-- A row of the validators' table whose id is among the signatures.
abbrev pub IsSigner : List Validator → Verdict → Validator → Type 0
IsSigner pool verdict v = In v pool × (includes verdict.signatures v.id ≡ true)

-- What a proposal of the dispute is like, if its validator, of the given table, had none before.
pub record IsNew (x : External) (c : OverturnedVerdictContext) (verdict : Verdict)
    (already : List String) (pool : List Validator) (p : SlashingProposal) : Type 0 where
  pub holder : Validator
  pub signs : IsSigner pool verdict holder
  pub against : p.validator_id ≡ holder.id
  pub staked : parse_stake p.stake_at_proposal ≡ parse_stake holder.stake
  pub of_dispute : p.dispute_id ≡ c.dispute_id
  pub of_verdict : p.verdict_id ≡ verdict.id
  pub waits : p.status ≡ proposed
  pub share :
      parse_stake p.amount ≡ slash_amount (parse_stake holder.stake) x.config.slashing_fraction_bps
  pub positive : 0 < parse_stake p.amount
  pub bounded : parse_stake p.amount ≤ parse_stake holder.stake
  pub fresh : includes already p.validator_id ≡ false

module _ (x : External) (c : OverturnedVerdictContext) (verdict : Verdict) (already : List String)
    (pool : List Validator) where
  proposal_for-IsNew :
      (v : Validator) (n : ℕ)
      → IsSigner pool verdict v
      → includes already v.id ≡ false
      → 0 < slash_amount (parse_stake v.stake) x.config.slashing_fraction_bps
      → IsNew x c verdict already pool (proposal_for reference x c verdict v n)
  proposal_for-IsNew v n signs fresh positive =
      let stake = parse_stake-to_string (parse_stake v.stake) in
      let amount =
        parse_stake-to_string (slash_amount (parse_stake v.stake) x.config.slashing_fraction_bps) in
      record {
        holder = v;
        signs = signs;
        against = refl;
        staked = stake;
        of_dispute = refl;
        of_verdict = refl;
        waits = refl;
        share = cc;
        positive = ground (arith, amount);
        bounded = ground (
          arith,
          stake,
          amount,
          slash_amount_bounds (parse_stake v.stake) x.config.slashing_fraction_bps,
        );
        fresh = fresh;
      }

  -- What the loop over the signers leaves.
  pub record IsRaised (s t : Store) (ps : List SlashingProposal) : Type 0 where
    pub stored : t.proposals ≡ s.proposals ++ ps
    pub new : All (IsNew x c verdict already pool) ps
    pub same_validators : t.validators ≡ s.validators

  abbrev rest_of : List SlashingProposal → List SlashingProposal
  rest_of [] = []
  rest_of (p ∷ ps) = ps

  -- The database after one proposal was added.
  abbrev with_proposal : Validator → Store → Store
  with_proposal v s = record s {
    proposals = s.proposals ++ proposal_for reference x c verdict v s.sequence ∷ [];
    sequence = suc s.sequence;
  }

  -- A round of the loop passes its signer over, or adds a proposal and goes on.
  propose_each-cons :
      (v : Validator) (vs : List Validator) (s : Store) (ps : List SlashingProposal) (t : Store)
      → propose_each reference x c verdict already (v ∷ vs) s ≡ ok ps t
      → (propose_each reference x c verdict already vs s ≡ ok ps t)
        ⊎ ((includes already v.id ≡ false)
            × (0 < slash_amount (parse_stake v.stake) x.config.slashing_fraction_bps)
            × (propose_each reference x c verdict already vs (with_proposal v s)
                ≡ ok (rest_of ps) t)
            × (ps ≡ proposal_for reference x c verdict v s.sequence ∷ rest_of ps))
  unfolding propose_each
  propose_each-cons v vs s ps t e = ground arith

  with_proposal-IsRaised :
      (v : Validator) (s t : Store) (ps : List SlashingProposal)
      → IsNew x c verdict already pool (proposal_for reference x c verdict v s.sequence)
      → IsRaised (with_proposal v s) t ps
      → IsRaised s t (proposal_for reference x c verdict v s.sequence ∷ ps)
  with_proposal-IsRaised v s t ps new r = record {
    stored =
        r.stored
        ∙ append_assoc s.proposals (proposal_for reference x c verdict v s.sequence ∷ []) ps;
    new = (new, r.new);
    same_validators = r.same_validators;
  }

  propose_each-IsRaised :
      (vs : List Validator) (s : Store) (ps : List SlashingProposal) (t : Store)
      → All (IsSigner pool verdict) vs
      → propose_each reference x c verdict already vs s ≡ ok ps t
      → IsRaised s t ps
  unfolding propose_each
  propose_each-IsRaised [] s ps t signs e =
      let empty : ps ≡ [] = ground arith in
      let same : t ≡ s = ground arith in
      subst (λ l. IsRaised s t l) (sym empty)
        (subst (λ u. IsRaised s u []) (sym same)
          (record { stored = sym (append-nil s.proposals); new = tt; same_validators = refl }))
  propose_each-IsRaised (v ∷ vs) s ps t signs e = elim (propose_each-cons v vs s ps t e) [
    | inl passed ↦ propose_each-IsRaised vs s ps t signs.1 passed
    | inr (fresh, positive, later, split) ↦
        subst (λ l. IsRaised s t l) (sym split)
          (with_proposal-IsRaised v s t (rest_of ps)
            (proposal_for-IsNew v s.sequence signs.0 fresh positive)
            (propose_each-IsRaised vs (with_proposal v s) (rest_of ps) t signs.1 later))
  ]

-- The validators that the dispute has a proposal for.
abbrev pub proposed_for : OverturnedVerdictContext → Store → List String
proposed_for c s =
    map (λ p. p.validator_id) (filter (λ p. str_eq p.dispute_id c.dispute_id) s.proposals)

-- The registered validators among the signers.
abbrev pub registered_signers : External → Verdict → Store → List Validator
registered_signers x verdict s = elim (distinct [] (filter x.is_uuid verdict.signatures)) [
  | [] ↦ []
  | i ∷ is ↦ filter (λ v. includes (i ∷ is) v.id) s.validators
]

All-rows : {T : Type 0} {P : T → Type 0} (rows : List T) → ((r : T) → In r rows → P r) → All P rows
All-rows [] f = tt
All-rows (r ∷ rows) f = (f r (inl refl), All-rows rows (λ e i. f e (inr i)))

includes-distinct :
    (seen ids : List String) (id : String)
    → includes (distinct seen ids) id ≡ true
    → includes ids id ≡ true
unfolding includes distinct
includes-distinct seen [] id h = h
includes-distinct seen (i ∷ ids) id h =
    ground (arith, includes-distinct seen ids id, includes-distinct (i ∷ seen) ids id)

includes-filter :
    (p : String → Bool) (ids : List String) (id : String)
    → includes (filter p ids) id ≡ true
    → includes ids id ≡ true
unfolding includes
includes-filter p [] id h = h
includes-filter p (i ∷ ids) id h = ground (arith, includes-filter p ids id)

listed-IsSigner :
    (pool : List Validator) (verdict : Verdict) (ids : List String)
    → ((id : String) → includes ids id ≡ true → includes verdict.signatures id ≡ true)
    → All
        (IsSigner pool verdict)
        (elim ids [ [] ↦ [] | i ∷ is ↦ filter (λ v. includes (i ∷ is) v.id) pool ])
listed-IsSigner pool verdict [] signs = tt
listed-IsSigner pool verdict (i ∷ is) signs =
    let listed = λ (v : Validator). includes (i ∷ is) v.id in
    All-rows (filter listed pool)
      (λ v here. (In-tail listed v pool here, signs v.id (In-filter listed v pool here)))

registered_signers-IsSigner :
    (x : External) (verdict : Verdict) (s : Store)
    → All (IsSigner s.validators verdict) (registered_signers x verdict s)
registered_signers-IsSigner x verdict s =
    listed-IsSigner s.validators verdict (distinct [] (filter x.is_uuid verdict.signatures))
      (λ id h.
        includes-filter x.is_uuid verdict.signatures id
          (includes-distinct [] (filter x.is_uuid verdict.signatures) id h))

module _ (x : External) (c : OverturnedVerdictContext) (verdict : Verdict) (s : Store) where
  pub find_signers :
      find_by_ids reference x verdict.signatures s ≡ ok (registered_signers x verdict s) s
  unfolding find_by_ids
  find_signers = ground arith

  abbrev pub lost : ReputationObservation
  lost = record { accurate = false; dispute_lost = true }

  -- The database once the lost dispute is on the record.
  abbrev pub recorded : Store
  recorded = state_of (
      record_for_validators x reference (map (λ v. v.id) (registered_signers x verdict s)) lost
        x.clock s)

  recorded_proposals : recorded.proposals ≡ s.proposals
  recorded_proposals =
      ap (λ (u : Store). u.proposals)
        (record_for_validators_frame x lost x.clock
          (map (λ (v : Validator). v.id) (registered_signers x verdict s)) s)

  recorded_validators : recorded.validators ≡ s.validators
  recorded_validators =
      ap (λ (u : Store). u.validators)
        (record_for_validators_frame x lost x.clock
          (map (λ (v : Validator). v.id) (registered_signers x verdict s)) s)

  -- What the loop leaves after the records, against the database before them.
  recorded-IsRaised :
      (ps : List SlashingProposal) (t : Store)
      → IsRaised x c verdict (proposed_for c recorded) s.validators recorded t ps
      → IsRaised x c verdict (proposed_for c s) s.validators s t ps
  recorded-IsRaised ps t r =
      let same : proposed_for c recorded ≡ proposed_for c s =
        ap
          (λ (l : List SlashingProposal).
            map (λ p. p.validator_id) (filter (λ p. str_eq p.dispute_id c.dispute_id) l))
          recorded_proposals in
      record {
        stored = r.stored ∙ ap (λ (l : List SlashingProposal). l ++ ps) recorded_proposals;
        new = subst (λ l. All (IsNew x c verdict l s.validators) ps) same r.new;
        same_validators = r.same_validators ∙ recorded_validators;
      }

  propose_for_signers-cases :
      (ps : List SlashingProposal) (t : Store)
      → propose_for_signers reference x c (some verdict) s ≡ ok ps t
      → ((ps ≡ []) × (t ≡ recorded))
        ⊎ (propose_each reference x c verdict
              (proposed_for c recorded)
              (registered_signers x verdict s)
              recorded
            ≡ ok ps t)
  unfolding propose_for_signers propose_new
  propose_for_signers-cases ps t e =
      let run =
        record_for_validators_ok x lost x.clock
          (map (λ (v : Validator). v.id) (registered_signers x verdict s)) s in
      ground (arith, find_signers, run)

  propose_for_signers-IsRaised :
      (ps : List SlashingProposal) (t : Store)
      → propose_for_signers reference x c (some verdict) s ≡ ok ps t
      → IsRaised x c verdict (proposed_for c s) s.validators s t ps
  unfolding propose_each
  propose_for_signers-IsRaised ps t e = elim (propose_for_signers-cases ps t e) [
    | inl (none_new, same) ↦ recorded-IsRaised ps t (
        propose_each-IsRaised x c verdict (proposed_for c recorded) s.validators [] recorded ps t tt
          (ground arith))
    | inr ran ↦ recorded-IsRaised ps t (
        propose_each-IsRaised x c verdict (proposed_for c recorded) s.validators
          (registered_signers x verdict s) recorded ps t (registered_signers-IsSigner x verdict s)
          ran)
  ]

  propose_for_overturned_verdict-IsRaised_at_reference :
      (ps : List SlashingProposal) (t : Store)
      → find? (λ v. str_eq v.session_id c.session_id) s.verdicts ≡ some verdict
      → propose_for_overturned_verdict reference x c s ≡ ok ps t
      → IsRaised x c verdict (proposed_for c s) s.validators s t ps
  unfolding propose_for_overturned_verdict
  propose_for_overturned_verdict-IsRaised_at_reference ps t found e =
      propose_for_signers-IsRaised ps t (ground arith)

module _ (q : Queries) (sql : IsSql q) (x : External) (c : OverturnedVerdictContext)
    (verdict : Verdict) (s : Store) where
  -- The proposals that an overturned verdict raises are added at the end of the table. Each is against a
  -- registered validator that signed the verdict and that the dispute had no proposal for; it is for the
  -- dispute and the verdict, waits for a decision, holds the validator's stake and takes the configured
  -- share of it, which is more than nothing and no more than the stake. No validator's row changes.
  pub propose_for_overturned_verdict-IsRaised :
      (ps : List SlashingProposal) (t : Store)
      → find? (λ v. str_eq v.session_id c.session_id) s.verdicts ≡ some verdict
      → propose_for_overturned_verdict q x c s ≡ ok ps t
      → IsRaised x c verdict (proposed_for c s) s.validators s t ps
  propose_for_overturned_verdict-IsRaised =
      rw (eq-reference q sql) (propose_for_overturned_verdict-IsRaised_at_reference x c verdict s)
