-- ===== src/System/Served.antt =====
-- Every request changes the commitments in one of the ways of `Change`.
use a2a_verification_network.Prelude.{arith, ℕ, ◌≡◌, sym, subst, Option, String}
use a2a_verification_network.External.{External}
use a2a_verification_network.Store.Entities.{Store}
use a2a_verification_network.Store.Queries.{reference}
use a2a_verification_network.Store.Monad.{M, state_of}
use a2a_verification_network.Jobs.{SubmitJobDto, or_default}
use a2a_verification_network.System.Quiet.{IsKept-refl, IsQuiet, return-IsQuiet, then-IsQuiet}
use a2a_verification_network.System.Quiet.Tables.{quiet_rules}
use a2a_verification_network.System.Quiet.Jobs.{
  find_job-IsQuiet, find_validator-IsQuiet, submit-IsQuiet, process_job-IsQuiet, drain-IsQuiet,
  create_policy-IsQuiet, register-IsQuiet, update_stake-IsQuiet, exit-IsQuiet,
}
use a2a_verification_network.System.Quiet.Disputes.{
  approve-IsQuiet, reject-IsQuiet, open_dispute-IsQuiet, resolve-IsQuiet, open_appeal-IsQuiet,
  vote-IsQuiet, close-IsQuiet, attach-IsQuiet, verify-IsQuiet,
}
use a2a_verification_network.System.Quiet.Rounds.{finalize-IsQuiet, status-IsQuiet}
use a2a_verification_network.System.Quiet.Reads.{
  list_queue-IsQuiet, list_jobs-IsQuiet, list_policies-IsQuiet, find_policy-IsQuiet,
  list_validators-IsQuiet, list_slashing-IsQuiet, find_proposal-IsQuiet, get_dispute-IsQuiet,
  find_by_dispute-IsQuiet, list_evidence-IsQuiet, find_verdict-IsQuiet, list_verdicts-IsQuiet,
  find_score-IsQuiet,
}
use a2a_verification_network.System.Requests.{
  Request, JobsRequest, to_jobs, jobs_controller, PoliciesRequest, to_policies, policies_controller,
  ValidatorsRequest, to_validators, validators_controller, SlashingRequest, to_slashing,
  slashing_controller, DisputesRequest, to_disputes, disputes_controller, AppealsRequest,
  to_appeals, appeals_controller, EvidenceRequest, to_evidence, evidence_controller, RoundsRequest,
  to_rounds, rounds_controller, list_queued, get_job, list_jobs, list_policies, get_policy,
  list_validators, list_tiers, get_validator, list_slashing, get_slashing, get_dispute, get_appeal,
  list_attached, get_round, VerdictsRequest, get_verdict, list_verdicts, ReputationRequest,
  get_reputation, to_verdicts, to_reputation, verdicts_controller, reputation_controller,
  submit_job, drain_queue, create_policy, register_validator, update_stake, exit_validator,
  approve_slashing, reject_slashing, open_dispute, resolve_dispute, open_appeal, cast_appeal_vote,
  close_appeal, attach_evidence, verify_evidence, commit_verdict, reveal_verdict, finalize_round,
  Call, done, submit_and_process, handle, serve,
}
use a2a_verification_network.CommitReveal.Service.{commit, reveal}
use a2a_verification_network.CommitReveal.Tally.{compute_commit_hash}
use a2a_verification_network.System.Changes.{
  Change, kept, sealed, voted, commit_change, reveal_change,
}

done-IsQuiet : {A : Type 0} {m : M A} → IsQuiet m → IsQuiet (done m)
done-IsQuiet h = then-IsQuiet h (return-IsQuiet tt)

done_state : {A : Type 0} (m : M A) (s : Store) → state_of (done m s) ≡ state_of (m s)
done_state m s = ground arith

module _ (x : External) where
  submit_and_process-IsQuiet :
      (dto : SubmitJobDto) (tx : String → Option String)
      → IsQuiet (submit_and_process reference x dto tx)
  unfolding submit_and_process
  submit_and_process-IsQuiet dto tx = search (quiet_rules, submit-IsQuiet, process_job-IsQuiet)

  quiet_change : {m : M (Unit {0})} → IsQuiet m → (s : Store) → Change x s (state_of (m s))
  quiet_change h s = kept (h.kept s)

  jobs_controller_change :
      (r : JobsRequest) (now : ℕ) (tx : String → Option String) (s : Store)
      → Change x s (state_of (jobs_controller reference x r now tx s))
  unfolding jobs_controller
  jobs_controller_change (list_queued limit) now tx s =
      quiet_change (done-IsQuiet (list_queue-IsQuiet x (or_default 50 limit) now)) s
  jobs_controller_change (get_job id) now tx s =
      quiet_change (done-IsQuiet (find_job-IsQuiet x id)) s
  jobs_controller_change (list_jobs status) now tx s =
      quiet_change (done-IsQuiet (list_jobs-IsQuiet x status)) s
  jobs_controller_change (submit_job dto) now tx s =
      quiet_change (submit_and_process-IsQuiet dto tx) s
  jobs_controller_change (drain_queue busy limit) now tx s =
      quiet_change (done-IsQuiet (drain-IsQuiet x busy tx _ now)) s

  policies_controller_change :
      (r : PoliciesRequest) (s : Store)
      → Change x s (state_of (policies_controller reference x r s))
  unfolding policies_controller
  policies_controller_change list_policies s =
      quiet_change (done-IsQuiet (list_policies-IsQuiet x)) s
  policies_controller_change (get_policy id) s =
      quiet_change (done-IsQuiet (find_policy-IsQuiet x id)) s
  policies_controller_change (create_policy dto) s =
      quiet_change (done-IsQuiet (create_policy-IsQuiet x dto)) s

  validators_controller_change :
      (r : ValidatorsRequest) (s : Store)
      → Change x s (state_of (validators_controller reference x r s))
  unfolding validators_controller
  validators_controller_change list_validators s =
      quiet_change (done-IsQuiet (list_validators-IsQuiet x)) s
  validators_controller_change list_tiers s = kept (IsKept-refl s)
  validators_controller_change (get_validator id) s =
      quiet_change (done-IsQuiet (find_validator-IsQuiet x id)) s
  validators_controller_change (register_validator dto) s =
      quiet_change (done-IsQuiet (register-IsQuiet x dto)) s
  validators_controller_change (update_stake id stake) s =
      quiet_change (done-IsQuiet (update_stake-IsQuiet x id stake)) s
  validators_controller_change (exit_validator id) s =
      quiet_change (done-IsQuiet (exit-IsQuiet x id)) s

  slashing_controller_change :
      (r : SlashingRequest) (s : Store)
      → Change x s (state_of (slashing_controller reference x r s))
  unfolding slashing_controller
  slashing_controller_change (list_slashing status validator_id dispute_id) s =
      quiet_change (done-IsQuiet (list_slashing-IsQuiet x status validator_id dispute_id)) s
  slashing_controller_change (get_slashing id) s =
      quiet_change (done-IsQuiet (find_proposal-IsQuiet x id)) s
  slashing_controller_change (approve_slashing id dto) s =
      quiet_change (done-IsQuiet (approve-IsQuiet x id dto)) s
  slashing_controller_change (reject_slashing id dto) s =
      quiet_change (done-IsQuiet (reject-IsQuiet x id dto)) s

  disputes_controller_change :
      (r : DisputesRequest) (s : Store)
      → Change x s (state_of (disputes_controller reference x r s))
  unfolding disputes_controller
  disputes_controller_change (get_dispute id) s =
      quiet_change (done-IsQuiet (get_dispute-IsQuiet x id)) s
  disputes_controller_change (open_dispute dto) s =
      quiet_change (done-IsQuiet (open_dispute-IsQuiet x dto)) s
  disputes_controller_change (resolve_dispute id dto) s =
      quiet_change (done-IsQuiet (resolve-IsQuiet x id dto)) s

  appeals_controller_change :
      (r : AppealsRequest) (now : ℕ) (s : Store)
      → Change x s (state_of (appeals_controller reference x r now s))
  unfolding appeals_controller
  appeals_controller_change (get_appeal id) now s =
      quiet_change (done-IsQuiet (find_by_dispute-IsQuiet x id)) s
  appeals_controller_change (open_appeal id dto) now s =
      quiet_change (done-IsQuiet (open_appeal-IsQuiet x id dto now)) s
  appeals_controller_change (cast_appeal_vote id dto) now s =
      quiet_change (done-IsQuiet (vote-IsQuiet x id dto now)) s
  appeals_controller_change (close_appeal id) now s =
      quiet_change (done-IsQuiet (close-IsQuiet x id now)) s

  evidence_controller_change :
      (r : EvidenceRequest) (s : Store)
      → Change x s (state_of (evidence_controller reference x r s))
  unfolding evidence_controller
  evidence_controller_change (list_attached id) s =
      quiet_change (done-IsQuiet (list_evidence-IsQuiet x id)) s
  evidence_controller_change (attach_evidence id dto) s =
      quiet_change (done-IsQuiet (attach-IsQuiet x id dto)) s
  evidence_controller_change (verify_evidence id evidence_id content) s =
      quiet_change (done-IsQuiet (verify-IsQuiet x id evidence_id content)) s

  rounds_controller_change :
      (r : RoundsRequest) (now : ℕ) (tx : String → Option String) (s : Store)
      → Change x s (state_of (rounds_controller reference x r now tx s))
  unfolding rounds_controller
  rounds_controller_change (get_round job_id) now tx s =
      quiet_change (done-IsQuiet (status-IsQuiet x job_id now)) s
  rounds_controller_change (commit_verdict job_id dto) now tx s =
      subst (Change x s) (sym (done_state (commit reference x job_id dto now) s))
        (commit_change x job_id dto now s)
  rounds_controller_change (reveal_verdict job_id dto) now tx s =
      subst (Change x s) (sym (done_state (reveal reference x job_id dto now (tx job_id)) s))
        (reveal_change x job_id dto now (tx job_id) s)
  rounds_controller_change (finalize_round job_id) now tx s =
      quiet_change (done-IsQuiet (finalize-IsQuiet x job_id now (tx job_id))) s

  verdicts_controller_change :
      (r : VerdictsRequest) (s : Store)
      → Change x s (state_of (verdicts_controller reference x r s))
  unfolding verdicts_controller
  verdicts_controller_change (get_verdict id) s =
      quiet_change (done-IsQuiet (find_verdict-IsQuiet x id)) s
  verdicts_controller_change list_verdicts s =
      quiet_change (done-IsQuiet (list_verdicts-IsQuiet x)) s

  reputation_controller_change :
      (r : ReputationRequest) (now : ℕ) (s : Store)
      → Change x s (state_of (reputation_controller reference x r now s))
  unfolding reputation_controller
  reputation_controller_change (get_reputation id) now s =
      quiet_change (done-IsQuiet (find_score-IsQuiet x id now)) s

  handle_change :
      (r : Request) (now : ℕ) (tx : String → Option String) (s : Store)
      → Change x s (state_of (handle reference x r now tx s))
  unfolding handle
  handle_change (to_verdicts r) now tx s = verdicts_controller_change r s
  handle_change (to_reputation r) now tx s = reputation_controller_change r now s
  handle_change (to_jobs r) now tx s = jobs_controller_change r now tx s
  handle_change (to_policies r) now tx s = policies_controller_change r s
  handle_change (to_validators r) now tx s = validators_controller_change r s
  handle_change (to_slashing r) now tx s = slashing_controller_change r s
  handle_change (to_disputes r) now tx s = disputes_controller_change r s
  handle_change (to_appeals r) now tx s = appeals_controller_change r now s
  handle_change (to_evidence r) now tx s = evidence_controller_change r s
  handle_change (to_rounds r) now tx s = rounds_controller_change r now tx s

-- The clock is not what the change depends on.
any_clock :
    (x : External) (n : ℕ) {s t : Store} → Change (record x { clock = n }) s t → Change x s t
unfolding compute_commit_hash
any_clock x n (kept k) = kept k
any_clock x n (sealed c i free e) =
    sealed c (record { id = i.id; outcome = i.outcome; salt = i.salt; unopened = i.unopened }) free
      e
any_clock x n (voted dto now c m k) =
    voted dto now c
      (record {
        present = m.present;
        validator = m.validator;
        unopened = m.unopened;
        binding = m.binding;
      })
      k

pub serve_change : (x : External) (c : Call) (s : Store) → Change x s (serve reference x c s)
unfolding serve
serve_change x c s =
    any_clock x c.now (handle_change (record x { clock = c.now }) c.request c.now c.tx s)
