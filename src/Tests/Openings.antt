-- ===== src/Tests/Openings.antt =====
-- An appeal that is opened, at a concrete database of five staked validators.
use a2a_verification_network.Prelude.{◌≡◌, refl, [], ◌∷◌, none, some, str_eq}
use a2a_verification_network.Store.Entities.{
  Store, Dispute, DisputeAppeal, resolved, appealed, overturned, open_appeal,
}
use a2a_verification_network.Store.Queries.{reference, reference-IsSql}
use a2a_verification_network.Store.Monad.{ok}
use a2a_verification_network.Validators.Service.{find_eligible, distinct, tier_of}
use a2a_verification_network.Coordinator.Draw.{select_weighted}
use a2a_verification_network.Disputes.Quorum.{tally_appeal, appeal_panel_size}
use a2a_verification_network.Disputes.Appeals.{OpenAppealDto, AppealView, open_appeal_of}
use a2a_verification_network.Disputes.Opening.{IsOpened, open_appeal_of-IsOpened}
use a2a_verification_network.Tests.Data.{world, job, member, store_of, dispute_of}

abbrev settled : Dispute
settled = dispute_of resolved (some overturned)

abbrev before : Store
before = record (store_of job []) {
  disputes = settled ∷ [];
  validators = member "a" ∷ member "b" ∷ member "c" ∷ member "m" ∷ member "n" ∷ [];
}

abbrev request : OpenAppealDto
request = record { appellant = "agent"; reason = "unfair" }

abbrev opened : DisputeAppeal
opened = record {
  id = world.generate 0;
  dispute_id = "d";
  appellant = "agent";
  reason = "unfair";
  original_outcome = overturned;
  panel = "a" ∷ "b" ∷ "c" ∷ "m" ∷ "n" ∷ [];
  quorum = 4;
  status = open_appeal;
  decision = none;
  opened_at = 1000;
  voting_deadline = 86400010;
  decided_at = none;
}

abbrev shown : AppealView
shown = record { appeal = opened; votes = []; tally = tally_appeal [] 5 }

abbrev after : Store
after = record before {
  disputes = record settled { status = appealed } ∷ [];
  appeals = opened ∷ [];
  sequence = 1;
}

runs : open_appeal_of reference world "d" request 10 before ≡ ok shown after
unfolding open_appeal_of str_eq find_eligible select_weighted appeal_panel_size distinct tier_of
runs = refl

open_appeal_of-IsOpened_example : IsOpened world "d" 10 before after settled opened
unfolding str_eq
open_appeal_of-IsOpened_example =
    open_appeal_of-IsOpened reference reference-IsSql world "d" request 10 before settled shown
      after refl runs
