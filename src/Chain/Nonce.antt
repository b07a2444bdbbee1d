-- ===== src/Chain/Nonce.antt =====
-- nonce-manager.ts. The node is a list of what it answers, one reply to each attempt: the pending nonce
-- that it reports if it is asked, and what becomes of the transaction.
use a2a_verification_network.Prelude.{
  ℕ, zero, suc, ◌+◌, ◌≤◌, ◌≡◌, refl, max, List, [], ◌∷◌, Option, none, some, arith, All,
}

-- A rejection is a nonce error or any other.
pub data Sent : Type 0 where
  accepted nonce_error other_error : Sent

-- The pending nonce depends on what the node has accepted: `pending low`, where `low` is the first
-- number above every nonce that it accepted from this manager.
pub record Reply : Type 0 where
  pub pending : ℕ → ℕ
  pub sent : Sent

-- How a submission ends: with the nonce that its transaction took, with an error, or still waiting
-- where the replies end.
pub data Outcome : Type 0 where
  took : ℕ → Outcome
  rejected waiting : Outcome

-- The outcome, the field `next`, the replies that are left, and the node's `low`.
pub record Run : Type 0 where
  pub outcome : Outcome
  pub next : Option ℕ
  pub rest : List Reply
  pub low : ℕ

unfoldable pub reserve : Option ℕ → ℕ → ℕ
reserve none pending = pending
reserve (some n) pending = n

-- One round of the loop in `attempt`: `again` is what the next round would give.
unfoldable pub round_end : Sent → ℕ → List Reply → ℕ → Run → Run
round_end accepted nonce rs low again = record {
  outcome = took nonce;
  next = some (nonce + 1);
  rest = rs;
  low = max low (nonce + 1);
}
round_end other_error nonce rs low again = record {
  outcome = rejected;
  next = none;
  rest = rs;
  low = low;
}
round_end nonce_error nonce rs low again = again

-- The loop; `retries` is how many more rounds a nonce error may start.
unfoldable pub attempt : List Reply → ℕ → Option ℕ → ℕ → Run
unfolding reserve round_end
attempt [] retries next low = record { outcome = waiting; next = next; rest = []; low = low }
attempt (r ∷ rs) zero next low =
    round_end r.sent (reserve next (r.pending low)) rs low
      (record { outcome = rejected; next = none; rest = rs; low = low })
attempt (r ∷ rs) (suc k) next low =
    let again = attempt rs k none low in
    round_end r.sent (reserve next (r.pending low)) rs low again

-- The queue runs the submissions one after the other, also after a rejection.
unfoldable pub submit_all : List ℕ → List Reply → Option ℕ → ℕ → List Outcome
submit_all [] rs next low = []
submit_all (retries ∷ more) rs next low =
    let run = attempt rs retries next low in run.outcome ∷ submit_all more run.rest run.next run.low

-- The nonces that were taken, in the order of the submissions.
abbrev pub nonce_of : Outcome → List ℕ → List ℕ
nonce_of (took n) rest = n ∷ rest
nonce_of rejected rest = rest
nonce_of waiting rest = rest

abbrev pub nonces : List Outcome → List ℕ
nonces [] = []
nonces (o ∷ os) = nonce_of o (nonces os)

-- Every number is at least the bound, and each is larger than the one before.
abbrev pub Ascending : ℕ → List ℕ → Type 0
Ascending low [] = Unit {0}
Ascending low (n ∷ ns) = (low ≤ n) × Ascending (n + 1) ns

-- `getNonce('pending')` counts the transactions in the mempool.
abbrev pub CountsMempool : Reply → Type 0
CountsMempool r = (n : ℕ) → n ≤ r.pending n

-- The local counter is not behind the node.
abbrev IsAhead : Option ℕ → ℕ → Type 0
IsAhead none low = Unit {0}
IsAhead (some n) low = low ≤ n

-- After a submission: the counter is not behind, and a nonce that was taken is new.
record IsFresh (low : ℕ) (run : Run) : Type 0 where
  ahead : IsAhead run.next run.low
  counted : All CountsMempool run.rest
  grown : low ≤ run.low
  taken : (n : ℕ) → run.outcome ≡ took n → (low ≤ n) × (n + 1 ≤ run.low)

round_end-IsFresh :
    (sent : Sent) (nonce : ℕ) (rs : List Reply) (low : ℕ) (again : Run)
    → All CountsMempool rs
    → low ≤ nonce
    → IsFresh low again
    → IsFresh low (round_end sent nonce rs low again)
unfolding round_end
round_end-IsFresh accepted nonce rs low again c h f = record {
  ahead = omega arith;
  counted = c;
  grown = omega arith;
  taken = λ n e. ground arith;
}
round_end-IsFresh other_error nonce rs low again c h f = record {
  ahead = tt;
  counted = c;
  grown = omega arith;
  taken = λ n e. cc;
}
round_end-IsFresh nonce_error nonce rs low again c h f = f

reserve-le :
    (r : Reply) (next : Option ℕ) (low : ℕ)
    → CountsMempool r
    → IsAhead next low
    → low ≤ reserve next (r.pending low)
unfolding reserve
reserve-le r none low c h = c low
reserve-le r (some n) low c h = h

attempt-IsFresh :
    (rs : List Reply) (retries : ℕ) (next : Option ℕ) (low : ℕ)
    → All CountsMempool rs
    → IsAhead next low
    → IsFresh low (attempt rs retries next low)
unfolding attempt
attempt-IsFresh [] retries next low c h = record {
  ahead = h;
  counted = tt;
  grown = omega arith;
  taken = λ n e. cc;
}
attempt-IsFresh (r ∷ rs) zero next low c h =
    round_end-IsFresh r.sent _ rs low _ c.1 (reserve-le r next low c.0 h)
      (record { ahead = tt; counted = c.1; grown = omega arith; taken = λ n e. cc })
attempt-IsFresh (r ∷ rs) (suc k) next low c h =
    round_end-IsFresh r.sent _ rs low _ c.1 (reserve-le r next low c.0 h)
      (attempt-IsFresh rs k none low c.1 tt)

Ascending-mono : (low high : ℕ) (ns : List ℕ) → low ≤ high → Ascending high ns → Ascending low ns
Ascending-mono low high [] h a = tt
Ascending-mono low high (n ∷ ns) h a = (omega arith, a.1)

nonce_of-Ascending :
    (o : Outcome) (low high : ℕ) (ns : List ℕ)
    → low ≤ high
    → ((n : ℕ) → o ≡ took n → (low ≤ n) × (n + 1 ≤ high))
    → Ascending high ns
    → Ascending low (nonce_of o ns)
nonce_of-Ascending (took n) low high ns h t a =
    ((t n refl).0, Ascending-mono (n + 1) high ns (t n refl).1 a)
nonce_of-Ascending rejected low high ns h t a = Ascending-mono low high ns h a
nonce_of-Ascending waiting low high ns h t a = Ascending-mono low high ns h a

submit_all-Ascending_from :
    (submissions : List ℕ) (rs : List Reply) (next : Option ℕ) (low : ℕ)
    → All CountsMempool rs
    → IsAhead next low
    → Ascending low (nonces (submit_all submissions rs next low))
unfolding submit_all
submit_all-Ascending_from [] rs next low c h = tt
submit_all-Ascending_from (k ∷ more) rs next low c h =
    let f = attempt-IsFresh rs k next low c h in
    let run = attempt rs k next low in
    nonce_of-Ascending run.outcome low run.low (nonces (submit_all more run.rest run.next run.low))
      f.grown f.taken (submit_all-Ascending_from more run.rest run.next run.low f.counted f.ahead)

-- A fresh manager, in front of a node whose pending nonce counts the transactions in its mempool, never
-- has two transactions accepted under one nonce: whatever is rejected and retried in between, each
-- accepted nonce is larger than those before.
pub submit_all-Ascending :
    (submissions : List ℕ) (rs : List Reply)
    → All CountsMempool rs
    → Ascending 0 (nonces (submit_all submissions rs none 0))
submit_all-Ascending submissions rs c = submit_all-Ascending_from submissions rs none 0 c tt
