-- ===== src/Disputes/Evidence.antt =====
-- dispute-evidence.service.ts and content-hash.ts: evidence, its hash, and its verification.
use a2a_verification_network.Prelude.{
  ℕ, ◌*◌, ◌%◌, ◌==◌, Bool, true, false, not, ◌&&◌, ◌||◌, List, Option, none, some, String, ◌<>◌,
  str_eq, is_empty, trim, to_lower, length, any, leb, ltb, if◌then◌else◌,
}
use a2a_verification_network.External.{External}
use a2a_verification_network.Store.Entities.{DisputeEvidence, same_evidence}
use a2a_verification_network.Store.Queries.{Queries}
use a2a_verification_network.Store.Monad.{
  M, ◌>>=◌, ◌>>◌, return, throw_if, when, or_throw, find_by, find_one_by, insert, save, evidence,
  not_found, conflict, bad_request, unprocessable,
}
use a2a_verification_network.Disputes.Service
use a2a_verification_network.Disputes.Service.{is_resolved}

abbrev pub max_inline_evidence_bytes : ℕ
max_inline_evidence_bytes = 64 * 1024

pub record AttachEvidenceDto : Type 0 where
  pub submitter : String
  pub uri : String
  pub content_hash : Option String
  pub content : Option String
  pub mime_type : Option String
  pub size_bytes : Option ℕ
  pub description : Option String

pub record EvidenceVerification : Type 0 where
  pub evidence_id : String
  pub content_hash : String
  pub computed_hash : String
  pub matches : Bool

-- The variables of `attach`: the hash, the size, and whether the content was hashed here.
pub record Claimed : Type 0 where
  pub content_hash : Option String
  pub size_bytes : Option ℕ
  pub hash_verified : Bool

unfoldable pub normalize_hash : String → String
normalize_hash hash = to_lower (trim hash)

-- `dto.contentHash ? normalizeHash(dto.contentHash) : undefined`
unfoldable pub declared_hash : Option String → Option String
unfolding normalize_hash
declared_hash none = none
declared_hash (some hash) = if is_empty hash then none else some (normalize_hash hash)

-- `contentHash && contentHash !== computed`
abbrev pub contradicts : Option String → String → Bool
contradicts none computed = false
contradicts (some hash) computed = not (is_empty hash) && not (str_eq hash computed)

-- The hash, unless it is missing or empty.
abbrev pub given : Option String → Option String
given none = none
given (some hash) = if is_empty hash then none else some hash

module _ (x : External) where
  open x use {Buffer, byte_length, from_base64, to_base64, is_base64, units, sha256_hex}

  unfoldable pub content_sha256 : Buffer → String
  content_sha256 content = "0x" <> sha256_hex content

  unfoldable pub decode_base64_strict : String → Option Buffer
  decode_base64_strict text =
      let decoded = from_base64 text in
      if units text == 0 || not (units text % 4 == 0) || not (is_base64 text)
      then none
      else if str_eq (to_base64 decoded) text
      then some decoded
      else none

  unfoldable pub decode : String → M Buffer
  unfolding decode_base64_strict
  decode content = do
    decoded ← or_throw bad_request (decode_base64_strict content)
    throw_if (ltb max_inline_evidence_bytes (byte_length decoded)) bad_request
    return decoded

  -- What `attach` knows of the content: the declared hash, or that of the content itself.
  unfoldable pub claim : AttachEvidenceDto → Option String → M Claimed
  unfolding declared_hash content_sha256 decode
  claim dto none = return (record {
    content_hash = declared_hash dto.content_hash;
    size_bytes = dto.size_bytes;
    hash_verified = false;
  })
  claim dto (some text) = do
    content ← decode text
    throw_if (contradicts (declared_hash dto.content_hash) (content_sha256 content)) bad_request
    return (record {
      content_hash = some (content_sha256 content);
      size_bytes = some (byte_length content);
      hash_verified = true;
    })

  module _ (q : Queries) where
    unfoldable pub attach : String → AttachEvidenceDto → M DisputeEvidence
    unfolding claim Service.find_one
    attach dispute_id dto = do
      d ← Service.find_one q x dispute_id
      throw_if (is_resolved d.status) conflict
      claimed ← claim dto dto.content
      hash ← or_throw bad_request (given claimed.content_hash)
      existing ← find_by q evidence (λ e. str_eq e.dispute_id dispute_id)
      throw_if (any (λ e. str_eq e.content_hash hash) existing) conflict
      throw_if (leb x.config.dispute_max_evidence (length existing)) unprocessable
      insert q evidence same_evidence λ n. record {
        id = x.generate n;
        dispute_id = dispute_id;
        submitter = dto.submitter;
        uri = dto.uri;
        content_hash = hash;
        mime_type = dto.mime_type;
        size_bytes = claimed.size_bytes;
        description = dto.description;
        hash_verified = claimed.hash_verified;
        created_at = x.clock;
      }

    unfoldable pub list_evidence : String → M (List DisputeEvidence)
    unfolding Service.find_one
    list_evidence dispute_id = do
      Service.find_one q x dispute_id
      find_by q evidence (λ e. str_eq e.dispute_id dispute_id)

    unfoldable pub verify : String → String → String → M EvidenceVerification
    unfolding content_sha256 decode
    verify dispute_id evidence_id content = do
      found ←
          find_one_by q evidence (λ e. str_eq e.id evidence_id && str_eq e.dispute_id dispute_id)
      e ← or_throw not_found found
      decoded ← decode content
      let computed = content_sha256 decoded
      let matches = str_eq computed e.content_hash
      when (matches && not e.hash_verified) (do
        save q evidence (λ r. str_eq r.id e.id) (record e { hash_verified = true })
        return tt)
      return (record {
        evidence_id = evidence_id;
        content_hash = e.content_hash;
        computed_hash = computed;
        matches = matches;
      })
