-- ===== src/Tests/Node.antt =====
-- Runs of the submission, retry and finality loops against concrete nodes.
use a2a_verification_network.Prelude.{
  ◌≤◌, refl, true, List, [], ◌∷◌, none, some, max, All, str_eq, ◌+◌, arith,
}
use a2a_verification_network.Chain.Nonce.{
  Reply, accepted, nonce_error, submit_all, nonces, Ascending, submit_all-Ascending,
}
use a2a_verification_network.Chain.Retry.{RetryOptions}
use a2a_verification_network.Chain.Finality.{
  Receipt, Answer, waited, polled, wait_for_finality, IsBuried, IsObserved, final-IsBuried,
}
use a2a_verification_network.Chain.Poller.{
  PollOptions, Look, IsMined, poll_for_receipt, poll_for_receipt-IsMined,
}

-- A node that has seen three foreign transactions, and refuses the second submission's first nonce.
abbrev replies : List Reply
replies =
    record { pending = λ n. max 3 n; sent = accepted }
    ∷ record { pending = λ n. max 3 n; sent = nonce_error }
    ∷ record { pending = λ n. n + 2; sent = accepted }
    ∷ []

submit_all-Ascending_example : Ascending 0 (nonces (submit_all (2 ∷ 2 ∷ []) replies none 0))
submit_all-Ascending_example =
    submit_all-Ascending (2 ∷ 2 ∷ []) replies
      ((λ n. omega arith), ((λ n. omega arith), ((λ n. omega arith), tt)))

abbrev options : RetryOptions
options = record { max_attempts = 3; initial_delay_ms = 500; max_delay_ms = 5000; factor = 2 }

abbrev receipt : Receipt
receipt = record { block_hash = "0xb"; block_number = 10; status = 1 }

abbrev answers : List Answer
answers = waited (some receipt) ∷ polled 5 (some receipt) 12 ∷ polled 6 (some receipt) 16 ∷ []

final-IsBuried_example : IsBuried 6 100 receipt answers × IsObserved "0xb" answers
unfolding wait_for_finality str_eq
final-IsBuried_example = final-IsBuried 6 100 answers receipt refl

abbrev poll_options : PollOptions
poll_options = record { timeout_ms = 100; initial_delay_ms = 10; max_delay_ms = 50 }

abbrev looks : List Look
looks =
    record { elapsed = 0; receipt = none; known = true }
    ∷ record { elapsed = 9; receipt = some receipt; known = true }
    ∷ []

poll_for_receipt-IsMined_example :
    IsMined poll_options receipt looks
    × All (λ d. d ≤ 50) (poll_for_receipt poll_options looks).delays
unfolding poll_for_receipt
poll_for_receipt-IsMined_example =
    poll_for_receipt-IsMined poll_options looks receipt (omega arith) refl
