-- ===== src/CommitReveal/Tally.antt =====
-- commitment.ts: the hash of a vote, its signer, and the tally of the revealed votes.
use a2a_verification_network.Prelude.{
  ℕ, ◌+◌, ◌/◌, Bool, true, false, List, [], ◌∷◌, Option, none, some, String, leb, filter, map,
  find?,
}
use a2a_verification_network.External.{External}
use a2a_verification_network.Store.Entities.{VerdictOutcome, accept, partial, reject}

-- The texts of the enum's members, which are hashed.
abbrev pub outcome_text : VerdictOutcome → String
outcome_text accept = "accept"
outcome_text partial = "partial"
outcome_text reject = "reject"

unfoldable pub compute_commit_hash : External → String → String → VerdictOutcome → String → String
compute_commit_hash x job_id validator_id outcome salt =
    x.packed_keccak job_id validator_id (outcome_text outcome) salt

unfoldable pub recover_commit_signer : External → String → String → Option String
recover_commit_signer x commit_hash signature = x.verify_bytes commit_hash signature

pub record RevealedVote : Type 0 where
  pub validator_id : String
  pub outcome : VerdictOutcome

-- `Record<VerdictOutcome, number>`
pub record Counts : Type 0 where
  pub accepts : ℕ
  pub partials : ℕ
  pub rejects : ℕ

pub record Tally : Type 0 where
  pub outcome : Option VerdictOutcome
  pub supporters : List String
  pub counts : Counts
  pub quorum : ℕ

abbrev pub same_outcome : VerdictOutcome → VerdictOutcome → Bool
same_outcome accept accept = true
same_outcome partial partial = true
same_outcome reject reject = true
same_outcome _ _ = false

abbrev pub count_of : Counts → VerdictOutcome → ℕ
count_of c accept = c.accepts
count_of c partial = c.partials
count_of c reject = c.rejects

abbrev pub increment : Counts → VerdictOutcome → Counts
increment c accept = record c { accepts = c.accepts + 1 }
increment c partial = record c { partials = c.partials + 1 }
increment c reject = record c { rejects = c.rejects + 1 }

abbrev pub no_counts : Counts
no_counts = record { accepts = 0; partials = 0; rejects = 0 }

-- `for (const vote of votes) counts[vote.outcome]++`
unfoldable pub count_votes : Counts → List RevealedVote → Counts
count_votes c [] = c
count_votes c (v ∷ votes) = count_votes (increment c v.outcome) votes

-- `Object.keys(counts)`, in the order of the literal.
abbrev pub outcomes : List VerdictOutcome
outcomes = accept ∷ partial ∷ reject ∷ []

abbrev pub supporters_of : Option VerdictOutcome → List RevealedVote → List String
supporters_of none votes = []
supporters_of (some o) votes =
    map (λ v. v.validator_id) (filter (λ v. same_outcome v.outcome o) votes)

unfoldable pub tally_reveals : List RevealedVote → ℕ → Tally
unfolding count_votes
tally_reveals votes committee_size =
    let counts = count_votes no_counts votes in
    let quorum = committee_size / 2 + 1 in
    let winner = find? (λ o. leb quorum (count_of counts o)) outcomes in
    record {
      outcome = winner;
      supporters = supporters_of winner votes;
      counts = counts;
      quorum = quorum;
    }
