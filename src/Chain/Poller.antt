-- ===== src/Chain/Poller.antt =====
-- receipt-poller.ts. The node is the list of what it answers, one look to each round of the loop.
use a2a_verification_network.Prelude.{
  ℕ, ◌*◌, ◌≤◌, ◌<◌, ◌≡◌, ◌≢◌, refl, ap, ◌⊎◌, inl, inr, min, Bool, true, List, [], ◌∷◌, ◌++◌, Option,
  none, some, ltb, ◌==◌, arith, All, if◌then◌else◌,
}
use a2a_verification_network.Chain.Finality.{Receipt}

-- The time since the start at the loop's test, the receipt that the node has, and, where it has none,
-- whether it still knows the transaction.
pub record Look : Type 0 where
  pub elapsed : ℕ
  pub receipt : Option Receipt
  pub known : Bool

pub record PollOptions : Type 0 where
  pub timeout_ms : ℕ
  pub initial_delay_ms : ℕ
  pub max_delay_ms : ℕ

-- `unanswered` where the answers end.
pub data Fate : Type 0 where
  mined : Receipt → Fate
  reverted_on_chain dropped receipt_timeout unanswered : Fate

-- How the call ends, and the delays before jitter.
pub record Polled : Type 0 where
  pub fate : Fate
  pub delays : List ℕ

abbrev pub on_receipt : Receipt → Fate
on_receipt r = if r.status == 0 then reverted_on_chain else mined r

unfoldable pub poll_from : PollOptions → List Look → ℕ → Polled
poll_from o [] delay = record { fate = unanswered; delays = [] }
poll_from o (l ∷ ls) delay =
    let later = poll_from o ls (min (delay * 2) o.max_delay_ms) in
    let wait : Polled = record { fate = later.fate; delays = delay ∷ later.delays } in
    let missing : Polled = if l.known then wait else record { fate = dropped; delays = [] } in
    if ltb l.elapsed o.timeout_ms
    then elim l.receipt [ none ↦ missing | some r ↦ record { fate = on_receipt r; delays = [] } ]
    else record { fate = receipt_timeout; delays = [] }

unfoldable pub poll_for_receipt : PollOptions → List Look → Polled
unfolding poll_from
poll_for_receipt o ls = poll_from o ls o.initial_delay_ms

-- A look at which the node had no receipt and still knew the transaction.
abbrev pub StillPending : Look → Type 0
StillPending l = (l.receipt ≡ none) × (l.known ≡ true)

-- The look that ends the wait with a receipt: in time, and all those before found the transaction
-- pending.
pub record IsMined (o : PollOptions) (r : Receipt) (ls : List Look) : Type 0 where
  pub before : List Look
  pub last : Look
  pub rest : List Look
  pub looks : ls ≡ before ++ last ∷ rest
  pub waited : All StillPending before
  pub in_time : last.elapsed < o.timeout_ms
  pub receipt : last.receipt ≡ some r
  pub succeeded : r.status ≢ 0

later-IsMined :
    (o : PollOptions) (r : Receipt) (l : Look) (ls : List Look)
    → StillPending l
    → IsMined o r ls
    → IsMined o r (l ∷ ls)
later-IsMined o r l ls p m = record {
  before = l ∷ m.before;
  last = m.last;
  rest = m.rest;
  looks = ap (λ k. l ∷ k) m.looks;
  waited = (p, m.waited);
  in_time = m.in_time;
  receipt = m.receipt;
  succeeded = m.succeeded;
}

poll_from-cons :
    (o : PollOptions) (l : Look) (ls : List Look) (delay : ℕ) (r : Receipt)
    → (poll_from o (l ∷ ls) delay).fate ≡ mined r
    → ((l.elapsed < o.timeout_ms) × (l.receipt ≡ some r) × (r.status ≢ 0))
      ⊎ (StillPending l × ((poll_from o ls (min (delay * 2) o.max_delay_ms)).fate ≡ mined r))
unfolding poll_from
poll_from-cons o l ls delay r e = ground arith

poll_from-IsMined :
    (o : PollOptions) (ls : List Look) (delay : ℕ) (r : Receipt)
    → (poll_from o ls delay).fate ≡ mined r
    → IsMined o r ls
unfolding poll_from
poll_from-IsMined o [] delay r e = absurd (ground arith)
poll_from-IsMined o (l ∷ ls) delay r e = elim (poll_from-cons o l ls delay r e) [
  | inl (early, receipt, good) ↦ record {
    before = [];
    last = l;
    rest = ls;
    looks = refl;
    waited = tt;
    in_time = early;
    receipt = receipt;
    succeeded = good;
  }
  | inr (p, e') ↦
      later-IsMined o r l ls p (poll_from-IsMined o ls (min (delay * 2) o.max_delay_ms) r e')
]

poll_from_delays :
    (o : PollOptions) (ls : List Look) (delay : ℕ)
    → delay ≤ o.max_delay_ms
    → All (λ d. d ≤ o.max_delay_ms) (poll_from o ls delay).delays
unfolding poll_from
poll_from_delays o [] delay h = tt
poll_from_delays o (l ∷ ls) delay h =
    ground (arith, poll_from_delays o ls (min (delay * 2) o.max_delay_ms))

-- A receipt that the poller returns was seen before the timeout and has not reverted; at every look
-- before, the node had no receipt and still knew the transaction. No delay before jitter is longer than
-- `maxDelayMs`, if the first one is not.
pub poll_for_receipt-IsMined :
    (o : PollOptions) (ls : List Look) (r : Receipt)
    → o.initial_delay_ms ≤ o.max_delay_ms
    → (poll_for_receipt o ls).fate ≡ mined r
    → IsMined o r ls × All (λ d. d ≤ o.max_delay_ms) (poll_for_receipt o ls).delays
unfolding poll_for_receipt
poll_for_receipt-IsMined o ls r h e =
    (poll_from-IsMined o ls o.initial_delay_ms r e, poll_from_delays o ls o.initial_delay_ms h)
