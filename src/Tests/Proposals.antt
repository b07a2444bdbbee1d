-- ===== src/Tests/Proposals.antt =====
-- Runs of slashing decisions at concrete databases.
use a2a_verification_network.Prelude.{◌+◌, ◌*◌, ◌<◌, ◌≤◌, ◌≡◌, refl, [], ◌∷◌, some, str_eq}
use a2a_verification_network.Store.Entities.{Store, SlashingProposal}
use a2a_verification_network.Store.Queries.{reference, reference-IsSql}
use a2a_verification_network.Store.Monad.{ok}
use a2a_verification_network.Validators.Tiers.{pos}
use a2a_verification_network.Slashing.Service.{DecideSlashingDto, slash_amount, clamp_bps, approve}
use a2a_verification_network.Slashing.Amounts.{slash_amount_bounds}
use a2a_verification_network.Slashing.Approval.{IsExecuted, approve-IsExecuted}
use a2a_verification_network.Tests.Data.{world, job, member, store_of, proposal_of}

slash_amount_bounds_example :
    (slash_amount 1234 (pos 1000) ≤ 1234)
    × (slash_amount 1234 (pos 1000) * 10000 ≤ 1234 * clamp_bps (pos 1000))
    × (1234 * clamp_bps (pos 1000) < slash_amount 1234 (pos 1000) * 10000 + 10000)
slash_amount_bounds_example = slash_amount_bounds 1234 (pos 1000)

abbrev arbiter : DecideSlashingDto
arbiter = record { decided_by = "arbiter"; note = some "agreed" }

abbrev accused : Store
accused = record (store_of job []) { proposals = proposal_of "x" "a" ∷ proposal_of "y" "gone" ∷ [] }

approve-IsExecuted_example :
    (r : SlashingProposal) × (t : Store) × (approve reference world "x" arbiter accused ≡ ok r t)
    × IsExecuted reference world "x" arbiter (proposal_of "x" "a") (member "a") r t
unfolding str_eq
approve-IsExecuted_example =
    approve-IsExecuted reference reference-IsSql world "x" arbiter accused (proposal_of "x" "a")
      (member "a") refl refl refl
