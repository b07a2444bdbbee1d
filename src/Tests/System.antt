-- ===== src/Tests/System.antt =====
-- Runs of the whole node: a round with a sealed commitment, which is opened while others go on.
use a2a_verification_network.Prelude.{
  ◌≡◌, refl, ap, sym, ◌∙◌, List, [], ◌∷◌, none, some, inl, includes, to_lower, arith, str_eq,
}
use a2a_verification_network.Decimal.{to_string, parse_stake, parse_stake-to_string}
use a2a_verification_network.Store.Entities.{Store, VerdictCommitment, accept}
use a2a_verification_network.Store.Queries.{reference, reference-IsSql}
use a2a_verification_network.CommitReveal.Tally.{compute_commit_hash}
use a2a_verification_network.CommitReveal.Service.{check_reveal, phase_of, status}
use a2a_verification_network.System.Requests.{
  Call, to_rounds, to_validators, commit_verdict, reveal_verdict, exit_validator,
}
use a2a_verification_network.System.Votes.{IsSound}
use a2a_verification_network.System.Evolution.{Evolves}
use a2a_verification_network.System.Runs.{
  run, IsFresh, KeepsVerdicts, run-IsSound, run-Evolves, run-KeepsVerdicts,
}
use a2a_verification_network.System.Board.{Board, Reach}
use a2a_verification_network.System.Refinement.{board, run-Reach}
use a2a_verification_network.Tests.Data.{world, job, store_of}

abbrev sealed_a : VerdictCommitment
sealed_a = record {
  id = "0";
  job_id = "j";
  validator_id = "a";
  commit_hash = "jaacceptsalt";
  outcome = none;
  salt = none;
  committed_at = 50;
  revealed_at = none;
}

abbrev start : Store
start = record (store_of job (sealed_a ∷ [])) { sequence = 1 }

-- `b` commits, `c` leaves the registry, and `a` opens its vote.
abbrev calls : List Call
calls =
    record {
      request = to_rounds (
          commit_verdict "j"
            (record { validator_id = "b"; commit_hash = "HASH"; signature = "b" }));
      now = 60;
      tx = λ id. none;
    }
    ∷ record { request = to_validators (exit_validator "c"); now = 70; tx = λ id. none }
    ∷ record {
      request =
          to_rounds
            (reveal_verdict "j" (record { validator_id = "a"; outcome = accept; salt = "salt" }));
      now = 150;
      tx = λ id. none;
    }
    ∷ []

abbrev opened_a : VerdictCommitment
opened_a = record sealed_a { outcome = some accept; salt = some "salt"; revealed_at = some 150 }

world-IsFresh : IsFresh world
world-IsFresh m n e = sym (parse_stake-to_string m) ∙ ap parse_stake e ∙ parse_stake-to_string n

start-IsSound : IsSound world start
unfolding to_string
start-IsSound = record {
  generated = ((0, omega arith, refl), tt);
  distinct_ids = (tt, tt);
  one_each = (tt, tt);
  votes = (inl (refl, refl, refl), tt);
}

run-IsSound_example : IsSound world (run reference world calls start)
run-IsSound_example =
    run-IsSound reference reference-IsSql world world-IsFresh calls start start-IsSound

abbrev final : Board
final =
    record { job_id = "j"; validator_id = "a"; vote = some accept }
    ∷ record { job_id = "j"; validator_id = "b"; vote = none }
    ∷ []

votes_after : board (run reference world calls start) ≡ final
unfolding run check_reveal str_eq phase_of includes to_lower compute_commit_hash status to_string
votes_after = refl

run-Evolves_example : Evolves world start.commitments (run reference world calls start).commitments
run-Evolves_example =
    run-Evolves reference reference-IsSql world world-IsFresh calls start start-IsSound

run-KeepsVerdicts_example : KeepsVerdicts start (run reference world calls start)
run-KeepsVerdicts_example = run-KeepsVerdicts reference reference-IsSql world calls start

run-Reach_example : Reach (board start) final
unfolding run check_reveal str_eq phase_of includes to_lower compute_commit_hash status to_string
run-Reach_example =
    run-Reach reference reference-IsSql world world-IsFresh calls start start-IsSound
