-- ===== src/Verdicts.antt =====
-- verdicts.service.ts. `tx` is the outcome of the on-chain part of createAndPublish: the hash of the
-- transaction, or `none` where no registry is configured or the attempt failed, which is only logged.
use a2a_verification_network.Prelude.{ℕ, Bool, true, List, Option, String, str_eq}
use a2a_verification_network.External.{External}
use a2a_verification_network.Store.Entities.{Verdict, VerdictOutcome, accept, partial, reject}
use a2a_verification_network.Store.Queries.{Queries}
use a2a_verification_network.Store.Monad.{
  M, ◌>>=◌, return, or_throw, not_found, find_by, find_one_by, insert, verdicts,
}

pub record PublishParams : Type 0 where
  pub session_id : String
  pub job_id : String
  pub outcome : VerdictOutcome
  pub payable_amount : String
  pub meta_hash : String
  pub validator_ids : List String

abbrev pub same_session : Verdict → Verdict → Bool
same_session a b = str_eq a.session_id b.session_id

-- The number of the outcome in the registry contract.
abbrev pub outcome_enum : VerdictOutcome → ℕ
outcome_enum accept = 0
outcome_enum partial = 1
outcome_enum reject = 2

module _ (q : Queries) (x : External) where
  unfoldable pub find_by_session_id : String → M Verdict
  find_by_session_id session = do
    found ← find_one_by q verdicts (λ v. str_eq v.session_id session)
    or_throw not_found found

  unfoldable pub find_optional_by_session_id : String → M (Option Verdict)
  find_optional_by_session_id session = find_one_by q verdicts (λ v. str_eq v.session_id session)

  unfoldable pub find_all : M (List Verdict)
  find_all = find_by q verdicts λ v. true

  unfoldable pub create_and_publish : PublishParams → Option String → M (Verdict × Option String)
  create_and_publish p tx = do
    saved ← insert q verdicts same_session λ n. record {
      id = x.generate n;
      session_id = p.session_id;
      job_id = p.job_id;
      outcome = p.outcome;
      payable_amount = p.payable_amount;
      meta_hash = p.meta_hash;
      signatures = p.validator_ids;
      published_at = x.clock;
    }
    return (saved, tx)
