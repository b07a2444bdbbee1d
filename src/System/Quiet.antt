-- ===== src/System/Quiet.antt =====
-- Steps that leave the commitments alone and only add verdicts, put together as the methods are.
pub mod Tables
pub mod Jobs
pub mod Disputes
pub mod Rounds
pub mod Reads
use a2a_verification_network.Prelude.{
  ℕ, suc, ◌≡◌, ◌≤◌, refl, sym, ◌∙◌, ◌⊎◌, Bool, true, false, Bool-cases, inl, inr, List, [], ◌∷◌,
  ◌++◌, any, Option, none, some, arith, if◌then◌else◌,
}
use a2a_verification_network.Store.Entities.{Store, Verdict}
use a2a_verification_network.Store.Queries.{reference}
use a2a_verification_network.Store.Distinct.{
  IsDistinct, Extends, Extends-refl, Extends-trans, IsDistinct-insert,
}
use a2a_verification_network.Store.Monad.{
  M, Error, query_failed, Result, ok, throw, state_of, ◌>>=◌, ◌>>◌, return, throw_if, or_throw,
  when, find_by, find_one_by, insert, save, update, catch, Table, verdicts, jobs, validators,
  proposals, disputes, appeals, votes, evidence, scores, policies,
}
use a2a_verification_network.Slashing.Service.{on_error}
use a2a_verification_network.Verdicts.{same_session}

-- From one database to a later one, no commitment changes, verdicts are only added, one for a session,
-- and no generated id is taken back.
pub record IsKept (s t : Store) : Type 0 where
  pub commitments : t.commitments ≡ s.commitments
  pub sequence : s.sequence ≤ t.sequence
  pub extends : Extends s.verdicts t.verdicts
  pub distinct : IsDistinct same_session s.verdicts → IsDistinct same_session t.verdicts

pub same-IsKept :
    (s t : Store)
    → t.commitments ≡ s.commitments
    → t.sequence ≡ s.sequence
    → t.verdicts ≡ s.verdicts
    → IsKept s t
same-IsKept s t c n v = record {
  commitments = c;
  sequence = omega (arith, n);
  extends = rw v (Extends-refl s.verdicts);
  distinct = λ d. rw v d;
}

pub IsKept-refl : (s : Store) → IsKept s s
IsKept-refl s = record {
  commitments = refl;
  sequence = omega arith;
  extends = Extends-refl s.verdicts;
  distinct = λ h. h;
}

pub IsKept-trans : {s t u : Store} → IsKept s t → IsKept t u → IsKept s u
IsKept-trans {s} {t} {u} h k = record {
  commitments = k.commitments ∙ h.commitments;
  sequence = omega (arith, h.sequence, k.sequence);
  extends = Extends-trans s.verdicts t.verdicts u.verdicts h.extends k.extends;
  distinct = λ d. k.distinct (h.distinct d);
}

pub record IsQuiet {A : Type 0} (m : M A) : Type 0 where
  pub kept : (s : Store) → IsKept s (state_of (m s))

module _ {A B : Type 0} where
  bind-IsKept :
      {f : A → M B} (r : Result A) {s : Store}
      → IsKept s (state_of r)
      → ((a : A) → IsQuiet (f a))
      → IsKept s (state_of (elim r [ ok a t ↦ f a t | throw e t ↦ throw e t ]))
  bind-IsKept (ok a t) h k = IsKept-trans h ((k a).kept t)
  bind-IsKept (throw e t) h k = h

  pub bind-IsQuiet :
      {m : M A} {f : A → M B} → IsQuiet m → ((a : A) → IsQuiet (f a)) → IsQuiet (m >>= f)
  bind-IsQuiet {m} {f} h k = record { kept = λ s. bind-IsKept (m s) (h.kept s) k }

  pub then-IsQuiet : {m : M A} {k : M B} → IsQuiet m → IsQuiet k → IsQuiet (m >> k)
  then-IsQuiet h k = bind-IsQuiet h (λ a. k)

module _ {A : Type 0} where
  pub return-IsQuiet : (a : A) → IsQuiet (return a)
  return-IsQuiet a = record { kept = IsKept-refl }

  pub throw-IsQuiet : (e : Error) → IsQuiet {A = A} (throw e)
  throw-IsQuiet e = record { kept = IsKept-refl }

  pub or_throw-IsQuiet : (e : Error) (o : Option A) → IsQuiet (or_throw e o)
  or_throw-IsQuiet e none = throw-IsQuiet e
  or_throw-IsQuiet e (some a) = return-IsQuiet a

  catch-IsKept :
      {h : M A} (r : Result A) {s : Store}
      → IsKept s (state_of r)
      → IsQuiet h
      → IsKept s (state_of (elim r [ ok a t ↦ ok a t | throw e t ↦ h t ]))
  catch-IsKept (ok a t) k h = k
  catch-IsKept (throw e t) k h = IsKept-trans k (h.kept t)

  pub catch-IsQuiet : {m h : M A} → IsQuiet m → IsQuiet h → IsQuiet (catch m h)
  catch-IsQuiet {m} k h = record { kept = λ s. catch-IsKept (m s) (k.kept s) h }

  on_error-IsKept :
      {undo : M ℕ} (r : Result A) {s : Store}
      → IsKept s (state_of r)
      → IsQuiet undo
      → IsKept s (state_of (elim r [ ok a t ↦ ok a t | throw e t ↦ throw e (state_of (undo t)) ]))
  on_error-IsKept (ok a t) k h = k
  on_error-IsKept (throw e t) k h = IsKept-trans k (h.kept t)

  pub on_error-IsQuiet :
      {m : M A} {undo : M ℕ} → IsQuiet m → IsQuiet undo → IsQuiet (on_error m undo)
  on_error-IsQuiet {m} k h = record { kept = λ s. on_error-IsKept (m s) (k.kept s) h }

pub throw_if-IsQuiet : (b : Bool) (e : Error) → IsQuiet (throw_if b e)
throw_if-IsQuiet true e = record { kept = IsKept-refl }
throw_if-IsQuiet false e = record { kept = IsKept-refl }

pub when-IsQuiet : (b : Bool) {m : M (Unit {0})} → IsQuiet m → IsQuiet (when b m)
when-IsQuiet true h = h
when-IsQuiet false h = record { kept = IsKept-refl }

pub if-IsQuiet :
    {A : Type 0} (b : Bool) {m n : M A} → IsQuiet m → IsQuiet n → IsQuiet (if b then m else n)
if-IsQuiet true h k = h
if-IsQuiet false h k = k
