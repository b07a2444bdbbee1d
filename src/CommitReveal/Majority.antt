-- ===== src/CommitReveal/Majority.antt =====
-- The tally of a round against the plain meaning of a strict majority of the committee.
use a2a_verification_network.Prelude.{
  ℕ, ◌+◌, ◌*◌, ◌≤◌, ◌<◌, ◌≡◌, refl, ◌↔◌, List, [], ◌∷◌, some, length, filter, arith,
}
use a2a_verification_network.Store.Entities.{VerdictOutcome, accept, partial, reject}
use a2a_verification_network.CommitReveal.Tally.{
  RevealedVote, Counts, same_outcome, count_of, count_votes, no_counts, tally_reveals, increment,
}

-- How many of the votes are for the outcome.
abbrev pub support : VerdictOutcome → List RevealedVote → ℕ
support o votes = length (filter (λ v. same_outcome v.outcome o) votes)

count_votes-support :
    (o : VerdictOutcome) (c : Counts) (votes : List RevealedVote)
    → count_of (count_votes c votes) o ≡ count_of c o + support o votes
unfolding count_votes
count_votes-support o c [] = omega arith
count_votes-support o c (v ∷ votes) =
    ground (arith, count_votes-support o (increment c v.outcome) votes)

support_total :
    (votes : List RevealedVote)
    → support accept votes + support partial votes + support reject votes ≡ length votes
support_total [] = refl
support_total (v ∷ votes) = ground (arith, support_total votes)

-- With at most as many votes as the committee has members, the tally names an outcome exactly when
-- more than half of the committee voted for it.
pub tally_majority :
    (votes : List RevealedVote) (n : ℕ) (o : VerdictOutcome)
    → length votes ≤ n
    → ((tally_reveals votes n).outcome ≡ some o) ↔ (n < 2 * support o votes)
unfolding tally_reveals
tally_majority votes n o h = ground (
  arith,
  support_total votes,
  count_votes-support accept no_counts votes,
  count_votes-support partial no_counts votes,
  count_votes-support reject no_counts votes,
)
