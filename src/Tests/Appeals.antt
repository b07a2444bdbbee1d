-- ===== src/Tests/Appeals.antt =====
-- Runs of disputes and appeals at concrete databases.
use a2a_verification_network.Prelude.{
  ◌+◌, ◌*◌, ◌%◌, ◌<◌, ◌≡◌, refl, List, [], ◌∷◌, ◌++◌, none, some, str_eq, to_lower, includes,
  replicate, arith,
}
use a2a_verification_network.Store.Entities.{
  Store, Dispute, open_dispute, appealed, upheld, overturned, DisputeAppeal, stands, reversed,
  open_appeal, AppealVoteChoice, uphold, overturn,
}
use a2a_verification_network.Store.Queries.{reference, reference-IsSql}
use a2a_verification_network.Store.Monad.{ok}
use a2a_verification_network.Disputes.Quorum.{
  appeal_panel_size, reversal_quorum, tally_appeal, decision_at_deadline,
}
use a2a_verification_network.Disputes.Decisions.{
  appeal_panel_size_parity, decision_early, undecided_open,
}
use a2a_verification_network.Disputes.Service.{ResolveDisputeDto, resolve, resolution_of}
use a2a_verification_network.Disputes.Resolved.{IsSettled, resolve-IsSettled}
use a2a_verification_network.Disputes.Appeals.{
  CastAppealVoteDto, AppealView, vote, check_vote, view, vote_row,
}
use a2a_verification_network.Disputes.Deciding.{MayVote, vote-guards}
use a2a_verification_network.Tests.Data.{world, job, store_of, proposal_of, dispute_of, appeal_of}

appeal_panel_size_parity_example :
    (2 * 3 < appeal_panel_size 3 3)
    × (appeal_panel_size 3 (2 * 0 + 2) % 2 ≡ 1)
    × (appeal_panel_size (2 * 1 + 1) (2 * 0 + 3) % 2 ≡ 0)
appeal_panel_size_parity_example = appeal_panel_size_parity 3 0 1 3

abbrev three_upholds : List AppealVoteChoice
three_upholds = uphold ∷ uphold ∷ uphold ∷ []

decision_early_example :
    decision_at_deadline (tally_appeal (three_upholds ++ overturn ∷ []) 7) ≡ stands
unfolding tally_appeal reversal_quorum
decision_early_example = decision_early three_upholds (overturn ∷ []) 7 stands (omega arith) refl

undecided_open_example :
    ((tally_appeal (overturn ∷ uphold ∷ replicate 5 overturn) 7).decision ≡ some reversed)
    × ((tally_appeal (overturn ∷ uphold ∷ replicate 5 uphold) 7).decision ≡ some stands)
unfolding tally_appeal reversal_quorum
undecided_open_example = undecided_open (overturn ∷ uphold ∷ []) 7 (omega arith) refl

abbrev closing : ResolveDisputeDto
closing = record { resolution = "settled"; outcome = some upheld }

abbrev with_dispute : Dispute → Store
with_dispute d = record (store_of job []) { disputes = d ∷ [] }

standing :
    resolve reference world "d" closing (with_dispute (dispute_of open_dispute none))
    ≡ ok
        (resolution_of world closing (dispute_of open_dispute none))
        (with_dispute (resolution_of world closing (dispute_of open_dispute none)))
unfolding resolve str_eq
standing = refl

resolve-IsSettled_example :
    IsSettled reference world "d" closing
      (with_dispute (dispute_of open_dispute none))
      (with_dispute (resolution_of world closing (dispute_of open_dispute none)))
      (dispute_of open_dispute none)
      (resolution_of world closing (dispute_of open_dispute none))
unfolding str_eq
resolve-IsSettled_example =
    resolve-IsSettled reference reference-IsSql world "d" closing
      (with_dispute (dispute_of open_dispute none)) (dispute_of open_dispute none)
      (resolution_of world closing (dispute_of open_dispute none))
      (with_dispute (resolution_of world closing (dispute_of open_dispute none))) refl standing

-- A dispute under appeal, with one proposal that waits, before any vote.
abbrev under_appeal : DisputeAppeal → Store
under_appeal a = record (store_of job []) {
  disputes = dispute_of appealed (some overturned) ∷ [];
  appeals = a ∷ [];
  proposals = proposal_of "x" "a" ∷ [];
}

abbrev fresh : DisputeAppeal
fresh = appeal_of open_appeal none

abbrev vote_a : CastAppealVoteDto
vote_a = record { validator_id = "a"; vote = overturn; signature = "A" }

abbrev voted : Store
voted = record (under_appeal fresh) {
  votes = vote_row reference world vote_a fresh 0 ∷ [];
  sequence = 1;
}

abbrev shown : AppealView
shown = record {
  appeal = fresh;
  votes = vote_row reference world vote_a fresh 0 ∷ [];
  tally = tally_appeal (overturn ∷ []) 7;
}

vote_taken : vote reference world "d" vote_a 10 (under_appeal fresh) ≡ ok shown voted
unfolding vote check_vote view str_eq includes to_lower
vote_taken = refl

vote-guards_example : MayVote world "d" vote_a 10 (under_appeal fresh) fresh
unfolding str_eq
vote-guards_example =
    vote-guards reference reference-IsSql world "d" 10 (under_appeal fresh) fresh vote_a shown voted
      refl vote_taken

abbrev disputed : Dispute
disputed = dispute_of appealed (some overturned)
