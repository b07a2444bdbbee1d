-- ===== src/Disputes/Attaching.antt =====
-- What evidence needs to be attached, and what the mark of verification on it is worth.
use a2a_verification_network.Prelude.{
  ◌<◌, ◌≡◌, ◌≢◌, Option-cases, true, false, List, [], ◌∷◌, ◌++◌, none, some, String, str_eq, filter,
  any, length, arith, ◌⊎◌, inl, inr,
}
use a2a_verification_network.External.{External}
use a2a_verification_network.Store.Entities.{Store, Dispute, DisputeEvidence}
use a2a_verification_network.Store.Queries.{Queries, IsSql, reference, eq-reference}
use a2a_verification_network.Store.Monad.{ok}
use a2a_verification_network.Disputes.Service
use a2a_verification_network.Disputes.Service.{is_resolved}
use a2a_verification_network.Disputes.Evidence.{
  AttachEvidenceDto, attach, claim, decode, decode_base64_strict, content_sha256, declared_hash,
}
use a2a_verification_network.Disputes.Resolving.{dispute_row}

-- The evidence of the dispute.
abbrev pub evidence_rows : String → Store → List DisputeEvidence
evidence_rows id s = filter (λ e. str_eq e.dispute_id id) s.evidence

-- Where the hash of the evidence is from: the content was sent along, decodes strictly, has an allowed
-- size and this hash, and the evidence is marked as verified; or there was no content, the hash is the
-- declared one, and the evidence is not marked.
abbrev pub HashedHere : External → AttachEvidenceDto → DisputeEvidence → Type 0
HashedHere x dto e =
    (text : String) × (content : x.Buffer) × (dto.content ≡ some text)
    × (decode_base64_strict x text ≡ some content)
    × (e.content_hash ≡ content_sha256 x content)
    × (e.size_bytes ≡ some (x.byte_length content))
    × (e.hash_verified ≡ true)

abbrev pub OnlyDeclared : AttachEvidenceDto → DisputeEvidence → Type 0
OnlyDeclared dto e =
    (dto.content ≡ none)
    × (declared_hash dto.content_hash ≡ some e.content_hash)
    × (e.hash_verified ≡ false)

pub record IsAttached (x : External) (id : String) (dto : AttachEvidenceDto) (s t : Store)
    (d : Dispute) (e : DisputeEvidence) : Type 0 where
  pub still_disputed : is_resolved d.status ≡ false
  pub new_hash : any (λ r. str_eq r.content_hash e.content_hash) (evidence_rows id s) ≡ false
  pub room : length (evidence_rows id s) < x.config.dispute_max_evidence
  pub stored : t.evidence ≡ s.evidence ++ e ∷ []
  pub hashed : HashedHere x dto e ⊎ OnlyDeclared dto e

module _ (x : External) (id : String) (s : Store) (d : Dispute) (e : DisputeEvidence)
    (t : Store) where
  attach_facts :
      (dto : AttachEvidenceDto)
      → dispute_row id s ≡ some d
      → attach x reference id dto s ≡ ok e t
      → (is_resolved d.status ≡ false)
        × (any (λ r. str_eq r.content_hash e.content_hash) (evidence_rows id s) ≡ false)
        × (length (evidence_rows id s) < x.config.dispute_max_evidence)
        × (t.evidence ≡ s.evidence ++ e ∷ [])
  unfolding attach claim Service.find_one
  attach_facts dto found h = ground arith

  attach_declared :
      (dto : AttachEvidenceDto)
      → dispute_row id s ≡ some d
      → attach x reference id dto s ≡ ok e t
      → dto.content ≡ none
      → OnlyDeclared dto e
  unfolding attach claim Service.find_one
  attach_declared dto found h absent = ground arith

  attach_hashed :
      (dto : AttachEvidenceDto) (text : String) (content : x.Buffer)
      → dispute_row id s ≡ some d
      → attach x reference id dto s ≡ ok e t
      → dto.content ≡ some text
      → decode_base64_strict x text ≡ some content
      → (e.content_hash ≡ content_sha256 x content)
        × (e.size_bytes ≡ some (x.byte_length content))
        × (e.hash_verified ≡ true)
  unfolding attach claim decode Service.find_one
  attach_hashed dto text content found h sent decoded = ground arith

  attach_undecodable :
      (dto : AttachEvidenceDto) (text : String)
      → dispute_row id s ≡ some d
      → dto.content ≡ some text
      → decode_base64_strict x text ≡ none
      → attach x reference id dto s ≢ ok e t
  unfolding attach claim decode Service.find_one
  attach_undecodable dto text found sent broken h = ground arith

  attach_origin :
      (dto : AttachEvidenceDto)
      → dispute_row id s ≡ some d
      → attach x reference id dto s ≡ ok e t
      → HashedHere x dto e ⊎ OnlyDeclared dto e
  attach_origin dto found h = elim (Option-cases dto.content) [
    | inl absent ↦ inr (attach_declared dto found h absent)
    | inr (text, sent) ↦ elim (Option-cases (decode_base64_strict x text)) [
      | inl broken ↦ absurd (attach_undecodable dto text found sent broken h)
      | inr (content, decoded) ↦
          let (hash, size, mark) = attach_hashed dto text content found h sent decoded in
          inl (text, content, sent, decoded, hash, size, mark)
    ]
  ]

  attach-IsAttached_at_reference :
      (dto : AttachEvidenceDto)
      → dispute_row id s ≡ some d
      → attach x reference id dto s ≡ ok e t
      → IsAttached x id dto s t d e
  attach-IsAttached_at_reference dto found h =
      let (still, new, room, stored) = attach_facts dto found h in
      record {
        still_disputed = still;
        new_hash = new;
        room = room;
        stored = stored;
        hashed = attach_origin dto found h;
      }

module _ (q : Queries) (sql : IsSql q) (x : External) (id : String) (s : Store) (d : Dispute) where
  -- Evidence that is attached is for a dispute that is not resolved, has a hash that no other evidence of
  -- the dispute has, finds room below the maximum, and is the new last row of its table. It is marked as
  -- verified exactly where its content was sent along: then the hash and the size are those of the
  -- strictly decoded content; otherwise the hash is the declared one.
  pub attach-IsAttached :
      (e : DisputeEvidence) (t : Store) (dto : AttachEvidenceDto)
      → dispute_row id s ≡ some d
      → attach x q id dto s ≡ ok e t
      → IsAttached x id dto s t d e
  attach-IsAttached = rw (eq-reference q sql) (attach-IsAttached_at_reference x id s d)
