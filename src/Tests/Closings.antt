-- ===== src/Tests/Closings.antt =====
-- An appeal without votes that is closed after its deadline.
use a2a_verification_network.Prelude.{◌≡◌, refl, [], ◌∷◌, none, some, str_eq}
use a2a_verification_network.Store.Entities.{
  Store, DisputeAppeal, appealed, overturned, stands, open_appeal,
}
use a2a_verification_network.Store.Queries.{reference, reference-IsSql}
use a2a_verification_network.Store.Monad.{ok}
use a2a_verification_network.Disputes.Quorum.{tally_appeal, reversal_quorum, decision_at_deadline}
use a2a_verification_network.Disputes.Appeals.{
  AppealView, close, close_open, decide, view, decided_appeal, decided_dispute,
}
use a2a_verification_network.Disputes.Closing.{IsClosed, close-IsClosed}
use a2a_verification_network.Tests.Data.{world, job, store_of, dispute_of, appeal_of}

abbrev fresh : DisputeAppeal
fresh = appeal_of open_appeal none

abbrev before : Store
before = record (store_of job []) {
  disputes = dispute_of appealed (some overturned) ∷ [];
  appeals = fresh ∷ [];
}

abbrev after : Store
after = record before {
  disputes = decided_dispute fresh stands (dispute_of appealed (some overturned)) ∷ [];
  appeals = decided_appeal stands 600 fresh ∷ [];
}

abbrev shown : AppealView
shown = record { appeal = decided_appeal stands 600 fresh; votes = []; tally = tally_appeal [] 7 }

runs : close reference world "d" 600 before ≡ ok shown after
unfolding close close_open decide view str_eq tally_appeal reversal_quorum decision_at_deadline
runs = refl

close-IsClosed_example : IsClosed reference world "d" 600 before after fresh shown
unfolding str_eq
close-IsClosed_example =
    close-IsClosed reference reference-IsSql world "d" 600 before fresh shown after refl refl runs
