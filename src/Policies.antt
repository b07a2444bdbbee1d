-- ===== src/Policies.antt =====
-- policies.service.ts.
use a2a_verification_network.Prelude.{ℕ, true, false, Option, List, String, str_eq}
use a2a_verification_network.External.{External}
use a2a_verification_network.Store.Entities.{VerificationPolicy, VerificationClass}
use a2a_verification_network.Store.Queries.{Queries}
use a2a_verification_network.Store.Monad.{
  M, ◌>>=◌, or_throw, find_by, find_one_by, insert, policies, not_found,
}
use a2a_verification_network.Jobs.{or_default}

pub record CreatePolicyDto : Type 0 where
  pub name : String
  pub verification_class : VerificationClass
  pub selection_rule : String
  pub verification_method : String
  pub quorum_threshold : ℕ
  pub price : String
  pub dispute_escalation : Option String
  pub evidence_requirements : Option String
  pub metadata_uri : Option String
  pub metadata_hash : Option String

module _ (q : Queries) (x : External) where
  unfoldable pub create : CreatePolicyDto → M VerificationPolicy
  create dto =
      insert q policies (λ a b. false)
        λ n. record {
          id = x.generate n;
          name = dto.name;
          verification_class = dto.verification_class;
          selection_rule = dto.selection_rule;
          verification_method = dto.verification_method;
          quorum_threshold = dto.quorum_threshold;
          price = dto.price;
          dispute_escalation = or_default "{}" dto.dispute_escalation;
          evidence_requirements = or_default "{}" dto.evidence_requirements;
          metadata_uri = dto.metadata_uri;
          metadata_hash = dto.metadata_hash;
          version = 1;
          created_at = x.clock;
        }

  unfoldable pub find_all : M (List VerificationPolicy)
  find_all = find_by q policies λ p. true

  unfoldable pub find_one : String → M VerificationPolicy
  find_one id = do found ← find_one_by q policies (λ p. str_eq p.id id); or_throw not_found found
