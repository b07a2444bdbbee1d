-- ===== src/System/Quiet/Tables.antt =====
-- Calls of the database as quiet steps, and the rules for all of them.
use a2a_verification_network.Prelude.{
  ℕ, suc, ◌≡◌, refl, ◌⊎◌, Bool, true, false, Bool-cases, inl, inr, List, [], ◌∷◌, ◌++◌, any, arith,
}
use a2a_verification_network.Store.Entities.{Store, Verdict}
use a2a_verification_network.Store.Queries.{reference}
use a2a_verification_network.Store.Distinct.{Extends-refl, IsDistinct-insert}
use a2a_verification_network.Store.Monad.{
  state_of, find_by, find_one_by, insert, save, update, Table, verdicts, jobs, validators,
  proposals, disputes, appeals, votes, evidence, scores, policies,
}
use a2a_verification_network.Verdicts.{same_session}
use a2a_verification_network.System.Quiet.{
  IsKept, IsKept-refl, IsKept-trans, same-IsKept, IsQuiet, bind-IsQuiet, return-IsQuiet,
  or_throw-IsQuiet, throw_if-IsQuiet, when-IsQuiet, if-IsQuiet, catch-IsQuiet, on_error-IsQuiet,
}

-- The table is neither that of the commitments nor that of the verdicts.
pub record IsOther {T : Type 0} (t : Table T) : Type 0 where
  pub put_kept : (r : List T) (s : Store) → IsKept s (t.put r s)

pub next-IsKept : (s : Store) → IsKept s (record s { sequence = suc s.sequence })
next-IsKept s = record {
  commitments = refl;
  sequence = omega arith;
  extends = Extends-refl s.verdicts;
  distinct = λ h. h;
}

module _ {T : Type 0} (t : Table T) where
  pub find_by-IsQuiet : (p : T → Bool) → IsQuiet (find_by reference t p)
  find_by-IsQuiet p = record { kept = IsKept-refl }

  pub find_one_by-IsQuiet : (p : T → Bool) → IsQuiet (find_one_by reference t p)
  find_one_by-IsQuiet p = record { kept = IsKept-refl }

module _ {T : Type 0} {t : Table T} (other : IsOther t) where
  pub insert-IsQuiet : (clash : T → T → Bool) (new : ℕ → T) → IsQuiet (insert reference t clash new)
  insert-IsQuiet clash new = record {
    kept = λ s. go s (Bool-cases (any (clash (new s.sequence)) (t.rows s)));
  }
    where
      go :
          (s : Store)
          → (any (clash (new s.sequence)) (t.rows s) ≡ true)
            ⊎ (any (clash (new s.sequence)) (t.rows s) ≡ false)
          → IsKept s (state_of (insert reference t clash new s))
      go s (inl h) = rw (h, state_of) (next-IsKept s)
      go s (inr h) = rw (h, state_of) (IsKept-trans (next-IsKept s) (other.put_kept _ _))

  pub save-IsQuiet : (same : T → Bool) (e : T) → IsQuiet (save reference t same e)
  save-IsQuiet same e = record { kept = λ s. other.put_kept _ s }

  pub update-IsQuiet : (p : T → Bool) (f : T → T) → IsQuiet (update reference t p f)
  update-IsQuiet p f = record { kept = λ s. other.put_kept _ s }

-- A verdict is refused where its session has one.
publish-IsKept :
    (v : Verdict) (s : Store)
    → any (same_session v) s.verdicts ≡ false
    → IsKept s (record s { verdicts = s.verdicts ++ v ∷ []; sequence = suc s.sequence })
publish-IsKept v s h = record {
  commitments = refl;
  sequence = omega arith;
  extends = (v ∷ [], refl);
  distinct = IsDistinct-insert same_session v s.verdicts h;
}

pub publish-IsQuiet : (new : ℕ → Verdict) → IsQuiet (insert reference verdicts same_session new)
publish-IsQuiet new = record {
  kept = λ s. go s (Bool-cases (any (same_session (new s.sequence)) s.verdicts));
}
  where
    go :
        (s : Store)
        → (any (same_session (new s.sequence)) s.verdicts ≡ true)
          ⊎ (any (same_session (new s.sequence)) s.verdicts ≡ false)
        → IsKept s (state_of (insert reference verdicts same_session new s))
    go s (inl h) = rw h (next-IsKept s)
    go s (inr h) = rw h (publish-IsKept (new s.sequence) s h)

-- Other tables than those of the commitments and the verdicts.
pub jobs-IsOther : IsOther jobs
jobs-IsOther = record { put_kept = λ r s. same-IsKept s _ refl refl refl }

pub validators-IsOther : IsOther validators
validators-IsOther = record { put_kept = λ r s. same-IsKept s _ refl refl refl }

pub proposals-IsOther : IsOther proposals
proposals-IsOther = record { put_kept = λ r s. same-IsKept s _ refl refl refl }

pub disputes-IsOther : IsOther disputes
disputes-IsOther = record { put_kept = λ r s. same-IsKept s _ refl refl refl }

pub appeals-IsOther : IsOther appeals
appeals-IsOther = record { put_kept = λ r s. same-IsKept s _ refl refl refl }

pub votes-IsOther : IsOther votes
votes-IsOther = record { put_kept = λ r s. same-IsKept s _ refl refl refl }

pub evidence-IsOther : IsOther evidence
evidence-IsOther = record { put_kept = λ r s. same-IsKept s _ refl refl refl }

pub scores-IsOther : IsOther scores
scores-IsOther = record { put_kept = λ r s. same-IsKept s _ refl refl refl }

pub policies-IsOther : IsOther policies
policies-IsOther = record { put_kept = λ r s. same-IsKept s _ refl refl refl }

pub ruleset quiet_rules = (
  bind-IsQuiet, return-IsQuiet, or_throw-IsQuiet, throw_if-IsQuiet, when-IsQuiet, if-IsQuiet,
  find_by-IsQuiet, find_one_by-IsQuiet, insert-IsQuiet, save-IsQuiet, update-IsQuiet,
  publish-IsQuiet, catch-IsQuiet, on_error-IsQuiet, jobs-IsOther, validators-IsOther,
  proposals-IsOther, disputes-IsOther, appeals-IsOther, votes-IsOther, evidence-IsOther,
  scores-IsOther, policies-IsOther,
)
