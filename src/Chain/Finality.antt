-- ===== src/Chain/Finality.antt =====
-- confirmation-policy.ts. The node is the list of what it answers: to each wait for the transaction,
-- and to each poll, with the clock at the time. The deadline is the one of the first call: a re-wait
-- hands on the time that is left.
use mathlib.Core.List.{Memᴰ}
use a2a_verification_network.Prelude.{
  ℕ, ◌+◌, ◌≤◌, ◌<◌, ◌≡◌, ◌≢◌, refl, ◌⊎◌, inl, inr, Bool, not, ◌||◌, List, [], ◌∷◌, Option, none,
  some, String, str_eq, str_eq_iff, ltb, leb, ◌==◌, arith, if◌then◌else◌, Bool-cases, ap, sym,
  subst, ◌∙◌, ltb→lt, leb→le,
}

pub record Receipt : Type 0 where
  pub block_hash : String
  pub block_number : ℕ
  pub status : ℕ

-- `waitForTransaction` ends with a receipt, or with `none` on its timeout. A poll is the clock at the
-- loop's test, the receipt that the node has, and the number of its newest block.
pub data Answer : Type 0 where
  waited : Option Receipt → Answer
  polled : ℕ → Option Receipt → ℕ → Answer

-- How the call ends; `unanswered` where the answers end or do not fit the questions.
pub data Finality : Type 0 where
  final : Receipt → Finality
  timed_out reverted reorged unanswered : Finality

-- What the call does next: it waits for the transaction, or polls with the observed block hash.
pub data Mode : Type 0 where
  waiting : Mode
  polling : String → Mode

unfoldable pub wait_for_finality : ℕ → ℕ → Mode → List Answer → Finality
wait_for_finality confirmations deadline mode [] = unanswered
wait_for_finality confirmations deadline waiting (waited none ∷ answers) = timed_out
wait_for_finality confirmations deadline waiting (waited (some initial) ∷ answers) =
    let poll = wait_for_finality confirmations deadline (polling initial.block_hash) answers in
    if initial.status == 0 then reverted else poll
wait_for_finality confirmations deadline waiting (polled now r head ∷ answers) = unanswered
wait_for_finality confirmations deadline (polling hash) (waited r ∷ answers) = unanswered
wait_for_finality confirmations deadline (polling hash) (polled now none head ∷ answers) =
    if ltb now deadline then reorged else timed_out
wait_for_finality confirmations deadline (polling hash) (polled now (some current) head ∷ answers) =
    let again = wait_for_finality confirmations deadline waiting answers in
    let poll = wait_for_finality confirmations deadline (polling hash) answers in
    if not (ltb now deadline)
    then timed_out
    else if not (str_eq current.block_hash hash)
    then again
    else if leb (current.block_number + confirmations) head
    then final current
    else poll

-- `confirmationsForChain`; an unset or zero setting falls back to the chain's default.
abbrev pub is_local : ℕ → Bool
is_local chain_id = chain_id == 31337 || chain_id == 1337

unfoldable pub confirmations_for_chain : ℕ → Option ℕ → ℕ
confirmations_for_chain chain_id none = if is_local chain_id then 1 else 6
confirmations_for_chain chain_id (some configured) =
    if configured == 0 then (if is_local chain_id then 1 else 6) else configured

-- A poll before the deadline that shows the receipt under enough blocks.
pub record IsBuried (confirmations deadline : ℕ) (r : Receipt) (answers : List Answer)
    : Type 0 where
  pub time : ℕ
  pub head : ℕ
  pub seen : Memᴰ (polled time (some r) head) answers
  pub in_time : time < deadline
  pub deep : r.block_number + confirmations ≤ head

-- A wait that ended with a successful receipt from the block, or the block that is observed already.
pub record IsObserved (hash : String) (answers : List Answer) : Type 0 where
  pub receipt : Receipt
  pub seen : Memᴰ (waited (some receipt)) answers
  pub same_block : receipt.block_hash ≡ hash
  pub succeeded : receipt.status ≢ 0

abbrev Observed : Mode → String → List Answer → Type 0
Observed waiting hash answers = IsObserved hash answers
Observed (polling observed) hash answers = (observed ≡ hash) ⊎ IsObserved hash answers

later-IsBuried :
    {c d : ℕ} {r : Receipt} (a : Answer) {answers : List Answer}
    → IsBuried c d r answers
    → IsBuried c d r (a ∷ answers)
later-IsBuried a b = record {
  time = b.time;
  head = b.head;
  seen = Memᴰ.tail b.seen;
  in_time = b.in_time;
  deep = b.deep;
}

later-IsObserved :
    {hash : String} (a : Answer) {answers : List Answer}
    → IsObserved hash answers
    → IsObserved hash (a ∷ answers)
later-IsObserved a o = record {
  receipt = o.receipt;
  seen = Memᴰ.tail o.seen;
  same_block = o.same_block;
  succeeded = o.succeeded;
}

-- What is wanted of a result, in a mode.
abbrev Sound : ℕ → ℕ → Mode → List Answer → Receipt → Type 0
Sound c d mode answers r = IsBuried c d r answers × Observed mode r.block_hash answers

waited-Sound :
    (c d : ℕ) (i r : Receipt) (answers : List Answer)
    → i.status ≢ 0
    → Sound c d (polling i.block_hash) answers r
    → Sound c d waiting (waited (some i) ∷ answers) r
waited-Sound c d i r answers good (b, o) = (
  later-IsBuried (waited (some i)) b,
  elim o [
    | inl same ↦ record { receipt = i; seen = Memᴰ.head refl; same_block = same; succeeded = good }
    | inr o' ↦ later-IsObserved (waited (some i)) o'
  ],
)

polled-Sound :
    (c d now head : ℕ) (hash : String) (q r : Receipt) (answers : List Answer)
    → (Sound c d waiting answers r ⊎ Sound c d (polling hash) answers r)
      ⊎ ((now < d) × (q.block_hash ≡ hash) × (q.block_number + c ≤ head) × (q ≡ r))
    → Sound c d (polling hash) (polled now (some q) head ∷ answers) r
polled-Sound c d now head hash q r answers (inl (inl (b, o))) = (
  later-IsBuried (polled now (some q) head) b,
  inr (later-IsObserved (polled now (some q) head) o),
)
polled-Sound c d now head hash q r answers (inl (inr (b, o))) = (
  later-IsBuried (polled now (some q) head) b,
  elim o [ inl same ↦ inl same | inr o' ↦ inr (later-IsObserved (polled now (some q) head) o') ],
)
polled-Sound c d now head hash q r answers (inr (early, same, deep, e)) = (
  record {
    time = now;
    head = head;
    seen = Memᴰ.head (ap (λ (k : Receipt). polled now (some k) head) (sym e));
    in_time = early;
    deep = subst (λ (k : Receipt). k.block_number + c ≤ head) e deep;
  },
  inl (sym same ∙ ap (λ (k : Receipt). k.block_hash) e),
)

final-Sound :
    (c d : ℕ) (mode : Mode) (answers : List Answer) (r : Receipt)
    → wait_for_finality c d mode answers ≡ final r
    → Sound c d mode answers r
unfolding wait_for_finality
final-Sound c d mode [] r e = cc
final-Sound c d waiting (waited none ∷ answers) r e = cc
final-Sound c d waiting (waited (some i) ∷ answers) r e = elim (Bool-cases (i.status == 0)) [
  | inl bad ↦ absurd (ground arith)
  | inr good ↦
      waited-Sound c d i r answers (ground arith)
        (final-Sound c d (polling i.block_hash) answers r (ground arith))
]
final-Sound c d waiting (polled now q head ∷ answers) r e = cc
final-Sound c d (polling hash) (waited q ∷ answers) r e = cc
final-Sound c d (polling hash) (polled now none head ∷ answers) r e = absurd (ground arith)
final-Sound c d (polling hash) (polled now (some q) head ∷ answers) r e =
    elim (Bool-cases (ltb now d)) [
      | inr late ↦ absurd (ground arith)
      | inl early ↦ elim (Bool-cases (str_eq q.block_hash hash)) [
        | inr moved ↦
            polled-Sound c d now head hash q r answers
              (inl (inl (final-Sound c d waiting answers r (ground arith))))
        | inl same ↦ elim (Bool-cases (leb (q.block_number + c) head)) [
          | inr shallow ↦
              polled-Sound c d now head hash q r answers
                (inl (inr (final-Sound c d (polling hash) answers r (ground arith))))
          | inl deep ↦ polled-Sound c d now head hash q r answers (
              inr (
                ltb→lt now d early,
                (str_eq_iff q.block_hash hash).0 same,
                leb→le (q.block_number + c) head deep,
                ground arith,
              ))
        ]
      ]
    ]

-- A receipt that is called final was polled before the deadline with the required number of blocks on
-- top of its block, and an earlier wait had ended with a receipt of that block that had not reverted.
pub final-IsBuried :
    (confirmations deadline : ℕ) (answers : List Answer) (r : Receipt)
    → wait_for_finality confirmations deadline waiting answers ≡ final r
    → IsBuried confirmations deadline r answers × IsObserved r.block_hash answers
final-IsBuried confirmations deadline answers r e =
    final-Sound confirmations deadline waiting answers r e
