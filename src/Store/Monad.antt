-- ===== src/Store/Monad.antt =====
-- Service methods: a step on the database that returns a value or throws. What was saved before an
-- exception stays saved, since no method opens a transaction.
use a2a_verification_network.Prelude.{ℕ, suc, Bool, true, false, List, Option, none, some}
use a2a_verification_network.Store.Entities.{
  Store, VerificationJob, Verdict, VerdictCommitment, Validator, SlashingProposal, Dispute,
  DisputeAppeal, DisputeAppealVote, DisputeEvidence, ReputationScore, VerificationPolicy,
}
use a2a_verification_network.Store.Queries.{Queries}

-- The classes of exception, without their messages. `query_failed` is TypeORM's, for a row that
-- breaks a unique constraint.
pub data Error : Type 0 where
  bad_request unauthorized forbidden not_found conflict unprocessable query_failed : Error

-- How a method ends: with a value or an exception, and with the database.
pub data Result (A : Type 0) : Type 0 where
  ok : A → Store → Result A
  throw : Error → Store → Result A

abbrev pub is_ok : {A : Type 0} → Result A → Bool
is_ok (ok a s) = true
is_ok (throw e s) = false

abbrev pub state_of : {A : Type 0} → Result A → Store
state_of (ok a s) = s
state_of (throw e s) = s

abbrev pub M : Type 0 → Type 0
M A = Store → Result A

infixl 5 ◌>>=◌ ◌>>◌
abbrev pub ◌>>=◌ : {A B : Type 0} → M A → (A → M B) → M B
◌>>=◌ m f s = elim (m s) [ ok a t ↦ f a t | throw e t ↦ throw e t ]

abbrev pub ◌>>◌ : {A B : Type 0} → M A → M B → M B
m >> k = m >>= λ _. k

abbrev pub return : {A : Type 0} → A → M A
return a s = ok a s

-- `if (test) throw e;`
abbrev pub throw_if : Bool → Error → M (Unit {0})
throw_if b e s = elim b [ true ↦ throw e s | false ↦ ok tt s ]

abbrev pub when : Bool → M (Unit {0}) → M (Unit {0})
when b m s = elim b [ true ↦ m s | false ↦ ok tt s ]

-- `if (!found) throw e;`
abbrev pub or_throw : {A : Type 0} → Error → Option A → M A
or_throw e o s = elim o [ some a ↦ ok a s | none ↦ throw e s ]

-- `try { m } catch { h }`
abbrev pub catch : {A : Type 0} → M A → M A → M A
catch m h s = elim (m s) [ ok a t ↦ ok a t | throw e t ↦ h t ]

-- A table of the database: its rows, and the database with other rows in it.
pub record Table (T : Type 0) : Type 0 where
  pub rows : Store → List T
  pub put : List T → Store → Store

abbrev pub jobs : Table VerificationJob
jobs = record { rows = λ s. s.jobs; put = λ r s. record s { jobs = r } }

abbrev pub verdicts : Table Verdict
verdicts = record { rows = λ s. s.verdicts; put = λ r s. record s { verdicts = r } }

abbrev pub commitments : Table VerdictCommitment
commitments = record { rows = λ s. s.commitments; put = λ r s. record s { commitments = r } }

abbrev pub validators : Table Validator
validators = record { rows = λ s. s.validators; put = λ r s. record s { validators = r } }

abbrev pub proposals : Table SlashingProposal
proposals = record { rows = λ s. s.proposals; put = λ r s. record s { proposals = r } }

abbrev pub disputes : Table Dispute
disputes = record { rows = λ s. s.disputes; put = λ r s. record s { disputes = r } }

abbrev pub appeals : Table DisputeAppeal
appeals = record { rows = λ s. s.appeals; put = λ r s. record s { appeals = r } }

abbrev pub votes : Table DisputeAppealVote
votes = record { rows = λ s. s.votes; put = λ r s. record s { votes = r } }

abbrev pub evidence : Table DisputeEvidence
evidence = record { rows = λ s. s.evidence; put = λ r s. record s { evidence = r } }

abbrev pub scores : Table ReputationScore
scores = record { rows = λ s. s.scores; put = λ r s. record s { scores = r } }

abbrev pub policies : Table VerificationPolicy
policies = record { rows = λ s. s.policies; put = λ r s. record s { policies = r } }

-- The repository calls as steps.
module _ {T : Type 0} (q : Queries) (t : Table T) where
  abbrev pub find_by : (T → Bool) → M (List T)
  find_by p s = ok (q.find_by p (t.rows s)) s

  abbrev pub find_one_by : (T → Bool) → M (Option T)
  find_one_by p s = ok (q.find_one_by p (t.rows s)) s

  -- `save(create(…))`: the database generates the id of the new row.
  abbrev pub insert : (T → T → Bool) → (ℕ → T) → M T
  insert clash new s = elim (q.insert clash (new s.sequence) (t.rows s)) [
    | none ↦ throw query_failed (record s { sequence = suc s.sequence })
    | some rows ↦ ok (new s.sequence) (t.put rows (record s { sequence = suc s.sequence }))
  ]

  abbrev pub save : (T → Bool) → T → M T
  save same e s = ok e (t.put (q.save same e (t.rows s)) s)

  abbrev pub update : (T → Bool) → (T → T) → M ℕ
  update p f s = let r = q.update p f (t.rows s) in ok r.1 (t.put r.0 s)
