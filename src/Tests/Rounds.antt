-- ===== src/Tests/Rounds.antt =====
-- Runs of commit-reveal rounds at concrete databases.
use a2a_verification_network.Prelude.{
  ◌<◌, ◌*◌, ◌≡◌, ◌≢◌, refl, ◌↔◌, true, false, List, [], ◌∷◌, ◌++◌, none, some, str_eq, includes,
  any, to_lower, arith,
}
use a2a_verification_network.Store.Entities.{
  Store, VerificationJob, commit_reveal, pending, completed, failed, accept, reject, partial,
}
use a2a_verification_network.Store.Queries.{reference, reference-IsSql}
use a2a_verification_network.Store.Monad.{ok, throw, conflict, forbidden, query_failed}
use a2a_verification_network.Jobs.{is_final, with_status, update_status}
use a2a_verification_network.Jobs.Laws.{job_row, put_job}
use a2a_verification_network.CommitReveal.Tally.{
  RevealedVote, compute_commit_hash, tally_reveals, count_votes,
}
use a2a_verification_network.CommitReveal.Majority.{support, tally_majority}
use a2a_verification_network.CommitReveal.Service.{
  CommitVerdictDto, RevealVerdictDto, RoundStatus, phase_of, committing, view, commit, reveal,
  finalize, tally, round_status, status, load_round, check_reveal, check_finalize, settle,
  settle_tally,
}
use a2a_verification_network.CommitReveal.Committing.{
  round_rows, sealed_row, signed_by, validator_row, commit-guards, commit_once,
}
use a2a_verification_network.CommitReveal.Opening.{IsOpened, reveal-IsOpened}
use a2a_verification_network.CommitReveal.Rounds.{
  IsPublished, reveal_too_early, finalize_ends, finalize_majority, finalize_no_majority,
  finalize_second_verdict, finalize_unassigned,
}
use a2a_verification_network.Tests.Data.{world, job, commitment_of, store_of}

abbrev votes : List RevealedVote
votes =
    record { validator_id = "a"; outcome = accept }
    ∷ record { validator_id = "b"; outcome = accept }
    ∷ []

tally_majority_example :
    ((tally_reveals votes 3).outcome ≡ some accept) ↔ (3 < 2 * support accept votes)
tally_majority_example = tally_majority votes 3 accept (omega arith)

abbrev vote_a : CommitVerdictDto
vote_a = record { validator_id = "a"; commit_hash = "HASH"; signature = "A" }

abbrev start : Store
start = store_of job []

abbrev with_a : Store
with_a = record start { commitments = sealed_row world "j" vote_a start ∷ []; sequence = 1 }

accepted :
    commit reference world "j" vote_a 10 start
    ≡ ok (view (sealed_row world "j" vote_a start)) with_a
unfolding commit load_round str_eq phase_of includes to_lower
accepted = refl

found : job_row "j" start ≡ some job
unfolding str_eq to_lower
found = refl

commit-guards_example :
    (job.verdict_mode ≡ commit_reveal)
    × (phase_of job (round_rows "j" start) 10 ≡ committing)
    × (includes job.assigned_validators "a" ≡ true)
    × (any (λ c. str_eq c.validator_id "a") (round_rows "j" start) ≡ false)
    × (signed_by (world.verify_bytes "HASH" "A") (validator_row "a" start) ≡ true)
    × (with_a.commitments ≡ start.commitments ++ sealed_row world "j" vote_a start ∷ [])
    × (view (sealed_row world "j" vote_a start) ≡ view (sealed_row world "j" vote_a start))
commit-guards_example =
    commit-guards reference reference-IsSql world "j" vote_a 10 start job found accepted

abbrev again_a : CommitVerdictDto
again_a = record { validator_id = "a"; commit_hash = "other"; signature = "a" }

commit_once_example :
    commit reference world "j" again_a 20 with_a
    ≢ ok (view (sealed_row world "j" again_a with_a)) with_a
commit_once_example =
    commit_once reference reference-IsSql world "j" vote_a again_a 10 20 start accepted refl

abbrev stranger : CommitVerdictDto
stranger = record { validator_id = "d"; commit_hash = "HASH"; signature = "d" }

refused : commit reference world "j" stranger 10 start ≡ throw forbidden start
unfolding commit load_round str_eq phase_of includes to_lower
refused = refl

abbrev open_a : RevealVerdictDto
open_a = record { validator_id = "a"; outcome = accept; salt = "SALT" }

abbrev one_commitment : Store
one_commitment =
    store_of job
      (commitment_of "a" "JaACCEPTsalt" none ∷ commitment_of "b" "hash" (some accept) ∷ [])

reveal_too_early_example :
    (reveal reference world "j" open_a 10 none one_commitment ≡ throw conflict one_commitment)
    × (finalize reference world "j" 10 none one_commitment ≡ throw conflict one_commitment)
unfolding phase_of str_eq to_lower
reveal_too_early_example =
    reveal_too_early reference reference-IsSql world "j" 10 one_commitment job refl open_a none refl
      refl

-- A round that can be closed: two accept, one rejects.
abbrev won : Store
won = store_of job (
    commitment_of "a" "hash" (some accept)
    ∷ commitment_of "b" "hash" (some accept)
    ∷ commitment_of "c" "hash" (some reject)
    ∷ [])

finalize_majority_example :
    (r : RoundStatus) × (t : Store) × (finalize reference world "j" 150 none won ≡ ok r t)
    × IsPublished "j" won t job accept (tally job (round_rows "j" won)).supporters
    × (job_row "j" t ≡ some (with_status reference world completed job))
unfolding phase_of str_eq tally tally_reveals count_votes to_lower
finalize_majority_example =
    finalize_majority reference reference-IsSql world "j" 150 won job refl accept none
      (record { in_mode = refl; in_phase = refl; due = refl }) refl refl

-- A round in which every outcome has one vote.
abbrev split : Store
split = store_of job (
    commitment_of "a" "hash" (some accept)
    ∷ commitment_of "b" "hash" (some partial)
    ∷ commitment_of "c" "hash" (some reject)
    ∷ [])

finalize_no_majority_example :
    finalize reference world "j" 150 none split
    ≡ ok
        (round_status "j" 150 (with_status reference world failed job) (round_rows "j" split))
        (put_job "j" (with_status reference world failed job) split)
unfolding phase_of str_eq tally tally_reveals count_votes to_lower
finalize_no_majority_example =
    finalize_no_majority reference reference-IsSql world "j" 150 split job refl none
      (record { in_mode = refl; in_phase = refl; due = refl }) refl

split_closed :
    finalize reference world "j" 150 none split
    ≡ ok
        (round_status "j" 150 (with_status reference world failed job) (round_rows "j" split))
        (put_job "j" (with_status reference world failed job) split)
unfolding finalize check_finalize settle settle_tally status load_round phase_of str_eq tally
    tally_reveals count_votes update_status to_lower
split_closed = refl

finalize_ends_example : is_final failed ≡ true
unfolding str_eq to_lower
finalize_ends_example =
    finalize_ends reference reference-IsSql world "j" 150 split job refl none
      (round_status "j" 150 (with_status reference world failed job) (round_rows "j" split))
      (put_job "j" (with_status reference world failed job) split) split_closed

-- The won round, in a session that has a verdict already.
abbrev judged : Store
judged = record won {
  verdicts =
      record {
        id = "v";
        session_id = "s";
        job_id = "earlier";
        outcome = reject;
        payable_amount = "0";
        meta_hash = "meta";
        signatures = [];
        published_at = 0;
      }
      ∷ [];
}

finalize_second_verdict_example :
    finalize reference world "j" 150 none judged
    ≡ throw query_failed (record judged { sequence = 1 })
unfolding phase_of str_eq tally tally_reveals count_votes to_lower
finalize_second_verdict_example =
    finalize_second_verdict reference reference-IsSql world "j" 150 judged job refl accept none
      (record { in_mode = refl; in_phase = refl; due = refl }) refl refl

-- A job that waits for its committee.
abbrev queued : VerificationJob
queued = record job {
  status = pending;
  assigned_validators = [];
  commit_deadline = none;
  reveal_deadline = none;
}

finalize_unassigned_example :
    finalize reference world "j" 5 none (store_of queued [])
    ≡ ok
        (round_status "j" 5
          (with_status reference world failed queued)
          (round_rows "j" (store_of queued [])))
        (put_job "j" (with_status reference world failed queued) (store_of queued []))
unfolding str_eq to_lower
finalize_unassigned_example =
    finalize_unassigned reference reference-IsSql world "j" 5 (store_of queued []) queued refl none
      refl refl refl refl

-- Three commitments that wait for their reveals.
abbrev sealed : Store
sealed = store_of job (
    commitment_of "a" "jaacceptsalt" none
    ∷ commitment_of "b" "hash" none
    ∷ commitment_of "c" "hash" none
    ∷ [])

abbrev unsealed : Store
unsealed = record sealed {
  commitments =
      record (commitment_of "a" "jaacceptsalt" none) {
        outcome = some accept;
        salt = some "salt";
        revealed_at = some 150;
      }
      ∷ commitment_of "b" "hash" none
      ∷ commitment_of "c" "hash" none
      ∷ [];
}

revealed_a :
    reveal reference world "j" open_a 150 none sealed
    ≡ ok (round_status "j" 150 job (round_rows "j" unsealed)) unsealed
unfolding reveal check_reveal status load_round phase_of str_eq to_lower compute_commit_hash tally
revealed_a = refl

reveal-IsOpened_example : IsOpened world "j" open_a 150 sealed unsealed job
unfolding str_eq to_lower
reveal-IsOpened_example =
    reveal-IsOpened reference reference-IsSql world "j" open_a 150 sealed none refl revealed_a
