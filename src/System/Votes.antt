-- ===== src/System/Votes.antt =====
-- What every database that the node reaches has of the votes, and what no request takes from them.
use a2a_verification_network.Prelude.{
  ℕ, suc, ◌≡◌, ◌<◌, refl, sym, subst, ◌∙◌, ◌⊎◌, inl, inr, Bool, true, false, Bool-cases, List, [],
  ◌∷◌, none, some, String, any, All, All-append, str_eq, str_eq_iff, to_lower, arith,
}
use a2a_verification_network.External.{External}
use a2a_verification_network.Store.Entities.{
  Store, VerdictOutcome, VerdictCommitment, same_commitment,
}
use a2a_verification_network.Store.Queries.{reference}
use a2a_verification_network.Store.Distinct.{IsDistinct, IsDistinct-insert, In}
use a2a_verification_network.Store.Replaced.{
  All-mono, only_one, All-replace_row, IsDistinct-replace_row,
}
use a2a_verification_network.CommitReveal.Service.{RevealVerdictDto, opened}
use a2a_verification_network.CommitReveal.Tally.{compute_commit_hash}
use a2a_verification_network.System.Quiet.{IsKept}
use a2a_verification_network.System.Changes.{
  Change, kept, sealed, voted, IsSealed, MayOpen, with_vote, with_sealed,
}

abbrev pub same_id : VerdictCommitment → VerdictCommitment → Bool
same_id a b = str_eq a.id b.id

pub str_eq_flip : (s t : String) → str_eq s t ≡ str_eq t s
str_eq_flip s t = elim (Bool-cases (str_eq s t)) [
  | inl h ↦ h ∙ sym ((str_eq_iff t s).1 (sym ((str_eq_iff s t).0 h)))
  | inr h ↦ elim (Bool-cases (str_eq t s)) [
    | inl k ↦ absurd (cc (h, (str_eq_iff s t).1 (sym ((str_eq_iff t s).0 k))))
    | inr k ↦ h ∙ sym k
  ]
]

-- The hash of a vote is the committed one, case ignored.
abbrev pub Matches : External → VerdictCommitment → VerdictOutcome → String → Type 0
Matches x c outcome salt =
    str_eq (to_lower (compute_commit_hash x c.job_id c.validator_id outcome salt))
      (to_lower c.commit_hash)
    ≡ true

-- A vote with the salt that opens the commitment; the row holds the salt in lower case.
pub record IsOpened (x : External) (c : VerdictCommitment) : Type 0 where
  pub outcome : VerdictOutcome
  pub salt : String
  pub at : ℕ
  pub stored_outcome : c.outcome ≡ some outcome
  pub stored_salt : c.salt ≡ some (to_lower salt)
  pub stored_at : c.revealed_at ≡ some at
  pub matches : Matches x c outcome salt

-- A commitment is sealed, and tells nothing of its vote, or is opened by a vote that has its hash.
abbrev pub IsVote : External → VerdictCommitment → Type 0
IsVote x c = ((c.outcome ≡ none) × (c.salt ≡ none) × (c.revealed_at ≡ none)) ⊎ IsOpened x c

abbrev pub HasId : External → ℕ → VerdictCommitment → Type 0
HasId x n c = (k : ℕ) × (k < n) × (c.id ≡ x.generate k)

-- The well-formed databases, as far as the votes are concerned: the ids are generated ones and differ,
-- a validator has at most one commitment in a round, and each commitment is sealed or opened.
pub record IsSound (x : External) (s : Store) : Type 0 where
  pub generated : All (HasId x s.sequence) s.commitments
  pub distinct_ids : IsDistinct same_id s.commitments
  pub one_each : IsDistinct same_commitment s.commitments
  pub votes : All (IsVote x) s.commitments

module _ (x : External) where
  fresh_id :
      (fresh : (m n : ℕ) → x.generate m ≡ x.generate n → m ≡ n) (n : ℕ) (c : VerdictCommitment)
      (rows : List VerdictCommitment)
      → c.id ≡ x.generate n
      → All (HasId x n) rows
      → any (same_id c) rows ≡ false
  fresh_id fresh n c [] e h = refl
  fresh_id fresh n c (r ∷ rows) e h = elim (Bool-cases (same_id c r)) [
    | inl k ↦
        absurd
          (omega (arith, fresh n (h.0).0 (sym e ∙ (str_eq_iff c.id r.id).0 k ∙ (h.0).2), (h.0).1))
    | inr k ↦ rw (k, any) (fresh_id fresh n c rows e h.1)
  ]

  kept-IsSound : {s t : Store} → IsKept s t → IsSound x s → IsSound x t
  kept-IsSound {s} {t} k h = record {
    generated =
        rw k.commitments
          (All-mono s.commitments (λ c i. (i.0, omega (arith, i.1, k.sequence), i.2)) h.generated);
    distinct_ids = rw k.commitments h.distinct_ids;
    one_each = rw k.commitments h.one_each;
    votes = rw k.commitments h.votes;
  }

  sealed-IsSound :
      (fresh : (m n : ℕ) → x.generate m ≡ x.generate n → m ≡ n) (s : Store) (c : VerdictCommitment)
      → IsSealed x s.sequence c
      → any (same_commitment c) s.commitments ≡ false
      → IsSound x s
      → IsSound x (with_sealed c s)
  sealed-IsSound fresh s c i free h = record {
    generated =
        All-append (HasId x (suc s.sequence)) s.commitments (c ∷ [])
          (All-mono s.commitments (λ r k. (k.0, omega (arith, k.1), k.2)) h.generated)
          ((s.sequence, omega arith, i.id), tt);
    distinct_ids =
        IsDistinct-insert same_id c s.commitments
          (fresh_id fresh s.sequence c s.commitments i.id h.generated) h.distinct_ids;
    one_each = IsDistinct-insert same_commitment c s.commitments free h.one_each;
    votes =
        All-append (IsVote x) s.commitments (c ∷ []) h.votes
          (inl (i.outcome, i.salt, i.unopened), tt);
  }

  pub only_row :
      (s : Store) (c : VerdictCommitment)
      → IsSound x s
      → In c s.commitments
      → All (λ r. same_id r c ≡ true → r ≡ c) s.commitments
  only_row s c h i =
      only_one same_id c s.commitments (λ a b. str_eq_flip a.id b.id) h.distinct_ids i

  voted-IsSound :
      (dto : RevealVerdictDto) (now : ℕ) (s : Store) (c : VerdictCommitment)
      → MayOpen x dto c s.commitments
      → IsSound x s
      → IsSound x (with_vote x dto now c s)
  voted-IsSound dto now s c m h =
      let only = only_row s c h m.present in
      let same = λ (r : VerdictCommitment). same_id r c in
      let e = opened reference x dto now c in
      record {
        generated =
            All-replace_row same c e (HasId x s.sequence) s.commitments only (λ k. k) h.generated;
        distinct_ids =
            IsDistinct-replace_row same c e same_id s.commitments (λ a. refl) (λ a. refl) only
              h.distinct_ids;
        one_each =
            IsDistinct-replace_row same c e same_commitment s.commitments (λ a. refl) (λ a. refl)
              only h.one_each;
        votes =
            All-replace_row same c e (IsVote x) s.commitments only
              (λ k. inr (record {
                outcome = dto.outcome;
                salt = dto.salt;
                at = now;
                stored_outcome = refl;
                stored_salt = refl;
                stored_at = refl;
                matches = m.binding;
              }))
              h.votes;
      }

  -- The votes stay well-formed whatever a request asks for, if the database never generates an id twice.
  pub change-IsSound :
      (fresh : (m n : ℕ) → x.generate m ≡ x.generate n → m ≡ n) {s t : Store}
      → Change x s t
      → IsSound x s
      → IsSound x t
  change-IsSound fresh (kept k) h = kept-IsSound k h
  change-IsSound fresh {s} (sealed c i free e) h =
      subst (IsSound x) (sym e) (sealed-IsSound fresh s c i free h)
  change-IsSound fresh {s} (voted dto now c m k) h = kept-IsSound k (voted-IsSound dto now s c m h)
