-- ===== src/Tests/Attachments.antt =====
-- Evidence with its content, attached to an open dispute.
use a2a_verification_network.Prelude.{◌≡◌, refl, true, [], ◌∷◌, none, some, str_eq}
use a2a_verification_network.Store.Entities.{Store, Dispute, DisputeEvidence, open_dispute}
use a2a_verification_network.Store.Queries.{reference, reference-IsSql}
use a2a_verification_network.Store.Monad.{ok}
use a2a_verification_network.Disputes.Evidence.{AttachEvidenceDto, attach}
use a2a_verification_network.Disputes.Attaching.{IsAttached, attach-IsAttached}
use a2a_verification_network.Tests.Data.{world, job, store_of, dispute_of}

abbrev disputed : Dispute
disputed = dispute_of open_dispute none

abbrev before : Store
before = record (store_of job []) { disputes = disputed ∷ [] }

abbrev request : AttachEvidenceDto
request = record {
  submitter = "client";
  uri = "ipfs://evidence";
  content_hash = none;
  content = some "QUJD";
  mime_type = none;
  size_bytes = none;
  description = none;
}

abbrev attached : DisputeEvidence
attached = record {
  id = world.generate 0;
  dispute_id = "d";
  submitter = "client";
  uri = "ipfs://evidence";
  content_hash = "0xQUJD";
  mime_type = none;
  size_bytes = some 3;
  description = none;
  hash_verified = true;
  created_at = 1000;
}

abbrev after : Store
after = record before { evidence = attached ∷ []; sequence = 1 }

runs : attach world reference "d" request before ≡ ok attached after
unfolding attach str_eq
runs = refl

attach-IsAttached_example : IsAttached world "d" request before after disputed attached
unfolding str_eq
attach-IsAttached_example =
    attach-IsAttached reference reference-IsSql world "d" before disputed attached after request
      refl runs
