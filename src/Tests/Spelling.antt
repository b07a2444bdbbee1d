-- ===== src/Tests/Spelling.antt =====
-- A round whose job is requested in upper case: the job is found, its commitments are not.
use a2a_verification_network.Prelude.{◌≡◌, refl, [], ◌∷◌, none, some, str_eq, to_lower}
use a2a_verification_network.Store.Entities.{Store, accept, failed}
use a2a_verification_network.Store.Queries.{reference, reference-IsSql}
use a2a_verification_network.Store.Monad.{ok}
use a2a_verification_network.Jobs.{with_status}
use a2a_verification_network.Jobs.Laws.{put_job}
use a2a_verification_network.CommitReveal.Service.{finalize, phase_of, tally, round_status}
use a2a_verification_network.CommitReveal.Tally.{tally_reveals, count_votes}
use a2a_verification_network.CommitReveal.Rounds.{finalize_no_majority}
use a2a_verification_network.Tests.Data.{world, job, store_of, commitment_of}

abbrev agreed : Store
agreed = store_of job (
    commitment_of "a" "hash" (some accept)
    ∷ commitment_of "b" "hash" (some accept)
    ∷ commitment_of "c" "hash" (some accept)
    ∷ [])

-- Three validators agree, and the job fails.
fails_respelled :
    finalize reference world "J" 150 none agreed
    ≡ ok
        (round_status "J" 150 (with_status reference world failed job) [])
        (put_job "J" (with_status reference world failed job) agreed)
unfolding phase_of str_eq to_lower tally tally_reveals count_votes
fails_respelled =
    finalize_no_majority reference reference-IsSql world "J" 150 agreed job refl none
      (record { in_mode = refl; in_phase = refl; due = refl }) refl
