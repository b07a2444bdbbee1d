-- ===== src/System/Quiet/Rounds.antt =====
-- What a round does besides its commitments.
use a2a_verification_network.Prelude.{ℕ, List, Option, none, some, String}
use a2a_verification_network.External.{External}
use a2a_verification_network.Store.Entities.{VerificationJob, VerdictCommitment, VerdictOutcome}
use a2a_verification_network.Store.Queries.{reference}
use a2a_verification_network.System.Quiet.{IsQuiet}
use a2a_verification_network.System.Quiet.Tables.{quiet_rules}
use a2a_verification_network.System.Quiet.Jobs.{
  find_job-IsQuiet, update_status-IsQuiet, create_and_publish-IsQuiet,
  record_for_validators-IsQuiet,
}
use a2a_verification_network.CommitReveal.Tally.{Tally}
use a2a_verification_network.CommitReveal.Service.{
  load_round, status, publish_majority, settle_tally, settle, check_finalize, finalize,
}

module _ (x : External) where
  load_round-IsQuiet : (id : String) → IsQuiet (load_round reference x id)
  unfolding load_round
  load_round-IsQuiet id = search (quiet_rules, find_job-IsQuiet) depth 16

  pub status-IsQuiet : (id : String) (now : ℕ) → IsQuiet (status reference x id now)
  unfolding status
  status-IsQuiet id now = search (quiet_rules, load_round-IsQuiet)

  publish_majority-IsQuiet :
      (job : VerificationJob) (cs : List VerdictCommitment) (t : Tally) (o : VerdictOutcome)
      (tx : Option String)
      → IsQuiet (publish_majority reference x job cs t o tx)
  unfolding publish_majority
  publish_majority-IsQuiet job cs t o tx =
      search
        (
          quiet_rules, create_and_publish-IsQuiet, update_status-IsQuiet,
          record_for_validators-IsQuiet,
        )
        depth 16 fits 4000

  settle_tally-IsQuiet :
      (job : VerificationJob) (cs : List VerdictCommitment) (t : Tally) (o : Option VerdictOutcome)
      (tx : Option String)
      → IsQuiet (settle_tally reference x job cs t o tx)
  unfolding settle_tally
  settle_tally-IsQuiet job cs t none tx = search (quiet_rules, update_status-IsQuiet)
  settle_tally-IsQuiet job cs t (some o) tx = publish_majority-IsQuiet job cs t o tx

  pub settle-IsQuiet :
      (job : VerificationJob) (cs : List VerdictCommitment) (tx : Option String)
      → IsQuiet (settle reference x job cs tx)
  unfolding settle
  settle-IsQuiet job cs tx = settle_tally-IsQuiet job cs _ _ tx

  pub finalize-IsQuiet :
      (id : String) (now : ℕ) (tx : Option String) → IsQuiet (finalize reference x id now tx)
  unfolding finalize check_finalize
  finalize-IsQuiet id now tx =
      search (quiet_rules, load_round-IsQuiet, settle-IsQuiet, status-IsQuiet) depth 16 fits 4000
