-- ===== src/Disputes/Quorum.antt =====
-- appeal-quorum.ts: panel sizes, the votes that reverse a resolution, and the tally of an appeal.
use a2a_verification_network.Prelude.{
  ℕ, ◌+◌, ◌-◌, ◌*◌, ◌/◌, max, Bool, true, false, List, Option, none, some, String, ◌<>◌, leb, ltb,
  filter, length, if◌then◌else◌, ◌==◌,
}
use a2a_verification_network.External.{External}
use a2a_verification_network.Store.Entities.{
  AppealVoteChoice, uphold, overturn, AppealDecision, stands, reversed,
}

-- `Math.max(2, Math.trunc(multiplier) || 2)` of a whole multiplier.
unfoldable pub appeal_panel_size : ℕ → ℕ → ℕ
appeal_panel_size original_committee_size multiplier =
    let base = max 1 original_committee_size in
    let factor = max 2 (if multiplier == 0 then 2 else multiplier) in base * factor + 1

-- `Math.ceil((2 * panelSize) / 3)`
unfoldable pub reversal_quorum : ℕ → ℕ
reversal_quorum panel_size = (2 * panel_size + 2) / 3

pub record AppealTally : Type 0 where
  pub uphold_votes : ℕ
  pub overturn_votes : ℕ
  pub panel_size : ℕ
  pub quorum : ℕ
  pub decision : Option AppealDecision

abbrev pub is_overturn : AppealVoteChoice → Bool
is_overturn overturn = true
is_overturn uphold = false

-- A panel has no fewer members than its quorum, so `panelSize - quorum` is not negative.
unfoldable pub tally_appeal : List AppealVoteChoice → ℕ → AppealTally
unfolding reversal_quorum
tally_appeal votes panel_size =
    let overturns = length (filter is_overturn votes) in
    let upholds = length votes - overturns in
    let quorum = reversal_quorum panel_size in
    record {
      uphold_votes = upholds;
      overturn_votes = overturns;
      panel_size = panel_size;
      quorum = quorum;
      decision =
          if leb quorum overturns
          then some reversed
          else if ltb (panel_size - quorum) upholds
          then some stands
          else none;
    }

unfoldable pub decision_at_deadline : AppealTally → AppealDecision
decision_at_deadline t = if leb t.quorum t.overturn_votes then reversed else stands

-- The texts of the enum's members, which are signed.
abbrev pub choice_text : AppealVoteChoice → String
choice_text uphold = "uphold"
choice_text overturn = "overturn"

unfoldable pub appeal_vote_message : String → AppealVoteChoice → String
appeal_vote_message appeal_id vote = "prom-appeal:" <> appeal_id <> ":" <> choice_text vote

unfoldable pub recover_appeal_voter : External → String → AppealVoteChoice → String → Option String
unfolding appeal_vote_message
recover_appeal_voter x appeal_id vote signature =
    x.verify_message (appeal_vote_message appeal_id vote) signature
