-- ===== src/System/Evolution.antt =====
-- How the commitments of an earlier database stand in a later one.
use a2a_verification_network.Prelude.{
  ℕ, ◌≡◌, refl, sym, subst, ◌∙◌, ap, inl, inr, Bool, true, false, Bool-cases, List, [], ◌∷◌, ◌++◌,
  All, is_some,
}
use a2a_verification_network.External.{External}
use a2a_verification_network.Store.Entities.{Store, VerdictCommitment}
use a2a_verification_network.Store.Queries.{reference, replace_row}
use a2a_verification_network.Store.Distinct.{In}
use a2a_verification_network.CommitReveal.Service.{RevealVerdictDto, opened}
use a2a_verification_network.System.Changes.{Change, kept, sealed, voted}
use a2a_verification_network.System.Votes.{Matches, IsSound, same_id, only_row}

-- A commitment and the same one later: it is as it was, or it was sealed and is opened since, by a vote
-- that has its hash.
pub data Succeeds (x : External) (c c' : VerdictCommitment) : Type 0 where
  unchanged : c' ≡ c → Succeeds x c c'
  opened_since :
      (dto : RevealVerdictDto) (now : ℕ)
      → is_some c.revealed_at ≡ false
      → Matches x c dto.outcome dto.salt
      → c' ≡ opened reference x dto now c
      → Succeeds x c c'

-- Every commitment is still at its place; others may follow.
abbrev pub Evolves : External → List VerdictCommitment → List VerdictCommitment → Type 0
Evolves x [] later = Unit
Evolves x (c ∷ rows) [] = ⊥
Evolves x (c ∷ rows) (c' ∷ later) = Succeeds x c c' × Evolves x rows later

module _ (x : External) where
  Succeeds-trans : {a b c : VerdictCommitment} → Succeeds x a b → Succeeds x b c → Succeeds x a c
  Succeeds-trans {a} {b} {c} (unchanged e) k = subst (λ r. Succeeds x r c) e k
  Succeeds-trans {a} {b} {c} (opened_since dto now u m e) (unchanged e') =
      opened_since dto now u m (e' ∙ e)
  Succeeds-trans {a} {b} {c} (opened_since dto now u m e) (opened_since dto' now' u' m' e') =
      absurd (cc (sym u' ∙ ap (λ (r : VerdictCommitment). is_some r.revealed_at) e))

  pub Evolves-refl : (rows : List VerdictCommitment) → Evolves x rows rows
  Evolves-refl [] = tt
  Evolves-refl (c ∷ rows) = (unchanged refl, Evolves-refl rows)

  pub Evolves-trans :
      (a b c : List VerdictCommitment) → Evolves x a b → Evolves x b c → Evolves x a c
  Evolves-trans [] b c h k = tt
  Evolves-trans (r ∷ a) [] c h k = absurd h
  Evolves-trans (r ∷ a) (r' ∷ b) [] h k = absurd k
  Evolves-trans (r ∷ a) (r' ∷ b) (r'' ∷ c) h k =
      (Succeeds-trans h.0 k.0, Evolves-trans a b c h.1 k.1)

  Evolves-append : (rows new : List VerdictCommitment) → Evolves x rows (rows ++ new)
  Evolves-append [] new = tt
  Evolves-append (c ∷ rows) new = (unchanged refl, Evolves-append rows new)

  Evolves-replace_row :
      (same : VerdictCommitment → Bool) (c e : VerdictCommitment) (rows : List VerdictCommitment)
      → All (λ r. same r ≡ true → r ≡ c) rows
      → Succeeds x c e
      → Evolves x rows (replace_row same e rows)
  Evolves-replace_row same c e [] only h = tt
  Evolves-replace_row same c e (r ∷ rows) only h =
      let rest = Evolves-replace_row same c e rows only.1 h in
      elim (Bool-cases (same r)) [
        | inl k ↦ rw (k, replace_row) (subst (λ a. Succeeds x a e) (sym (only.0 k)) h, rest)
        | inr k ↦ rw (k, replace_row) (unchanged refl, rest)
      ]

  pub change-Evolves :
      {s t : Store} → Change x s t → IsSound x s → Evolves x s.commitments t.commitments
  change-Evolves {s} (kept k) h = rw k.commitments (Evolves-refl s.commitments)
  change-Evolves {s} (sealed c i free e) h = rw e (Evolves-append s.commitments (c ∷ []))
  change-Evolves {s} (voted dto now c m k) h = rw k.commitments (
      Evolves-replace_row (λ r. same_id r c) c (opened reference x dto now c) s.commitments
        (only_row x s c h m.present) (opened_since dto now m.unopened m.binding refl))

  -- A commitment that evolves stays in the table.
  pub Evolves-In :
      (c : VerdictCommitment) (a b : List VerdictCommitment)
      → Evolves x a b
      → In c a
      → (c' : VerdictCommitment) × In c' b × Succeeds x c c'
  Evolves-In c [] b h i = absurd i
  Evolves-In c (r ∷ a) [] h i = absurd h
  Evolves-In c (r ∷ a) (r' ∷ b) h (inl e) = (r', inl refl, subst (λ p. Succeeds x p r') e h.0)
  Evolves-In c (r ∷ a) (r' ∷ b) h (inr later) =
      let (c', present, next) = Evolves-In c a b h.1 later in (c', inr present, next)
