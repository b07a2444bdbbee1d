-- ===== src/Disputes/Decisions.antt =====
-- The arithmetic of an appeal: panels, the quorum of a reversal, and decisions that cannot change.
use a2a_verification_network.Prelude.{
  ℕ, zero, suc, ◌+◌, ◌-◌, ◌*◌, ◌%◌, ◌≤◌, ◌<◌, ◌≡◌, refl, ap, max, List, [], ◌∷◌, ◌++◌, none, some,
  length, filter, arith, length-append, length-filter-le, replicate, if◌then◌else◌, ◌==◌,
}
use a2a_verification_network.Store.Entities.{
  AppealVoteChoice, uphold, overturn, AppealDecision, stands, reversed,
}
use a2a_verification_network.Disputes.Quorum.{
  appeal_panel_size, reversal_quorum, tally_appeal, decision_at_deadline, is_overturn,
}

-- The quorum is the least number of votes that is at least two thirds of the panel.
pub reversal_quorum_least :
    (panel_size k : ℕ)
    → (2 * panel_size ≤ 3 * k → reversal_quorum panel_size ≤ k)
      × (2 * panel_size ≤ 3 * reversal_quorum panel_size)
unfolding reversal_quorum
reversal_quorum_least panel_size k = omega arith

panel_even : (a b : ℕ) → appeal_panel_size (2 * a + 1) (2 * b + 3) % 2 ≡ 0
unfolding appeal_panel_size
panel_even a b =
    let factor : max 2 (if (2 * b + 3) == 0 then 2 else 2 * b + 3) ≡ 2 * b + 3 = ground arith in
    let base : max 1 (2 * a + 1) ≡ 2 * a + 1 = omega arith in rw (factor, base) (omega arith)

panel_odd : (c b : ℕ) → appeal_panel_size c (2 * b + 2) % 2 ≡ 1
unfolding appeal_panel_size
panel_odd c b =
    let factor : max 2 (if (2 * b + 2) == 0 then 2 else 2 * b + 2) ≡ 2 * b + 2 = ground arith in
    rw factor (omega arith)

panel_larger : (c m : ℕ) → 2 * c < appeal_panel_size c m
unfolding appeal_panel_size
panel_larger c m =
    let factor : 2 ≤ max 2 (if m == 0 then 2 else m) = omega arith in grind (arith, factor)

-- A panel is more than twice the committee that it reviews. Its size is odd where the multiplier is
-- even and at least 2; for an odd committee and an odd multiplier of at least 3 it is even, and a tie
-- is possible.
pub appeal_panel_size_parity :
    (c b a : ℕ) (m : ℕ)
    → (2 * c < appeal_panel_size c m)
      × (appeal_panel_size c (2 * b + 2) % 2 ≡ 1)
      × (appeal_panel_size (2 * a + 1) (2 * b + 3) % 2 ≡ 0)
appeal_panel_size_parity c b a m = (panel_larger c m, panel_odd c b, panel_even a b)

filter-append :
    (xs ys : List AppealVoteChoice)
    → length (filter is_overturn (xs ++ ys))
      ≡ length (filter is_overturn xs) + length (filter is_overturn ys)
filter-append [] ys = omega arith
filter-append (x ∷ xs) ys = ground (arith, filter-append xs ys)

-- Once an appeal is decided, further votes within the panel leave the decision as it is.
decision_stable :
    (votes more : List AppealVoteChoice) (panel_size : ℕ) (d : AppealDecision)
    → length (votes ++ more) ≤ panel_size
    → (tally_appeal votes panel_size).decision ≡ some d
    → (tally_appeal (votes ++ more) panel_size).decision ≡ some d
unfolding tally_appeal reversal_quorum
decision_stable votes more panel_size d fits e = ground (
  arith,
  filter-append votes more,
  length-append votes more,
  length-filter-le is_overturn votes,
  length-filter-le is_overturn more,
)

-- With no more votes than panel members, an appeal that is decided early is decided as it would be at
-- the deadline with those votes, and with any further ones.
pub decision_early :
    (votes more : List AppealVoteChoice) (panel_size : ℕ) (d : AppealDecision)
    → length (votes ++ more) ≤ panel_size
    → (tally_appeal votes panel_size).decision ≡ some d
    → decision_at_deadline (tally_appeal (votes ++ more) panel_size) ≡ d
unfolding tally_appeal reversal_quorum decision_at_deadline
decision_early votes more panel_size d fits e = ground (
  arith,
  filter-append votes more,
  length-append votes more,
  length-filter-le is_overturn votes,
  length-filter-le is_overturn more,
)

filter-overturns : (n : ℕ) → length (filter is_overturn (replicate n overturn)) ≡ n
filter-overturns zero = refl
filter-overturns (suc n) = ap suc (filter-overturns n)

filter-upholds : (n : ℕ) → length (filter is_overturn (replicate n uphold)) ≡ 0
filter-upholds zero = refl
filter-upholds (suc n) = filter-upholds n

length-replicate : (n : ℕ) (v : AppealVoteChoice) → length (replicate n v) ≡ n
length-replicate zero v = refl
length-replicate (suc n) v = ap suc (length-replicate n v)

-- While an appeal is undecided, the members that have not voted can still bring about either result.
pub undecided_open :
    (votes : List AppealVoteChoice) (panel_size : ℕ)
    → length votes ≤ panel_size
    → (tally_appeal votes panel_size).decision ≡ none
    → let rest = panel_size - length votes in
      ((tally_appeal (votes ++ replicate rest overturn) panel_size).decision ≡ some reversed)
      × ((tally_appeal (votes ++ replicate rest uphold) panel_size).decision ≡ some stands)
unfolding tally_appeal reversal_quorum
undecided_open votes panel_size fits e =
    let rest = panel_size - length votes in
    ground (
      arith,
      filter-append votes (replicate rest overturn),
      filter-append votes (replicate rest uphold),
      length-append votes (replicate rest overturn),
      length-append votes (replicate rest uphold),
      filter-overturns rest,
      filter-upholds rest,
      length-replicate rest overturn,
      length-replicate rest uphold,
      length-filter-le is_overturn votes,
    )
