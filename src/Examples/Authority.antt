-- ===== src/Examples/Authority.antt =====
-- The theorems on the delegation, the operations and the constraints at toy certificates.
use aic_verifier.Prelude.{
  ℕ, ◌+◌, ◌≡◌, ◌≢◌, ◌≤◌, ◌<◌, refl, sym, ap, ◌∙◌, ◌^◌, true, none, some, [], ◌∷◌, ◌⊎◌, ◌↔◌, arith,
  length, get_elem?, str_eq,
}
use aic_verifier.Merkle.{Bytes}
use aic_verifier.Model.{Cert, Capability}
use aic_verifier.Capability.{match_capability}
use aic_verifier.DelegationAuth.{
  check_signature, check_key_hash, check_tbs, verify_tbs_at, verify_tbs, verify_versions,
  agent_spki_of, verify_delegation_auth_with_agent, check_da_freshness, within_age, max_duration,
}
use aic_verifier.DelegationAuth.Accepted.{
  SignedFor, verify_with_agent_sound, check_da_freshness_iff,
}
use aic_verifier.DelegationChain.{
  ChainVerifier, ok, chain_limit, check_serials, verify_chain_structure, verify_chain, verify_level,
  verify_levels, effective_delegation_capabilities, effective_loop, effective_level,
  capability_subset, filter_covered, capability_covered, verify_delegation_chain_with_caps,
}
use aic_verifier.DelegationChain.Attenuation.{Attenuates, effective_iff}
use aic_verifier.DelegationChain.Attested.{verify_with_caps_sound}
use aic_verifier.DelegationChain.Signed.{SignedChain, verify_chain_sound}
use aic_verifier.Clc.{
  Decision, Verdict, deny, allow, allow_unresolved, authorize_operation, authorize_capabilities,
  authorize_grants, combine_decisions, to_grant_set, to_grant, normalize_params, with_constraints,
  grants_absent,
}
use aic_verifier.Clc.Evaluation.{
  OperationConfig, evaluate_operations, settle, check_decision_context,
}
use aic_verifier.Clc.Operations.{AllSettled, DenyWins, evaluate_operations_sound}
use aic_verifier.Constraints.{ConstraintRegistry, Evaluator}
use aic_verifier.Admission.Sound.{value_eq}
use aic_verifier.Examples.Setup.{
  toy_sha, toy_pki, toy_crypto, toy_semantics, toy_combine, alice, agent, helper, agent_aic,
  alice_grants, cap,
}

verify_with_agent_sound_example :
    (agent_aic.delegation_authorization.signature_value ≢ [])
    × ((spki : Bytes) × (agent_spki_of toy_pki toy_crypto (some agent) ≡ some spki)
        × SignedFor toy_pki toy_crypto agent_aic alice spki)
    × (agent_aic.principal_uid.key_hash ≢ []
        → toy_sha.sum alice.raw_spki ≡ agent_aic.principal_uid.key_hash)
unfolding verify_delegation_auth_with_agent agent_spki_of verify_versions verify_tbs verify_tbs_at
    check_tbs check_signature check_key_hash
verify_with_agent_sound_example =
    verify_with_agent_sound toy_pki toy_crypto agent_aic alice (some agent) refl

check_da_freshness_iff_example : (check_da_freshness (some 100) 150 60 ≡ true) ↔ (
    (ts : ℕ) × (some 100 ≡ some ts)
    × (((150 ≤ ts + 60) × (ts ≤ 150 + 60)) ⊎ (150 + max_duration < ts)))
check_da_freshness_iff_example = check_da_freshness_iff (some 100) 150 60 (omega arith)

-- an authorization from the year 2262 on is fresh in 1970
far_ahead_passes : check_da_freshness (some (2 ^ 63)) 0 60 ≡ true
unfolding check_da_freshness within_age
far_ahead_passes = refl

effective_iff_example :
    (effective_delegation_capabilities toy_pki (agent ∷ helper ∷ []) alice_grants.grants 8
      ≡ ok (cap "read" ∷ []))
    ↔ ((verify_chain_structure (agent ∷ helper ∷ []) 8 ≡ none)
        × Attenuates toy_pki alice_grants.grants (agent ∷ helper ∷ []) (cap "read" ∷ []))
effective_iff_example =
    effective_iff toy_pki (agent ∷ helper ∷ []) alice_grants.grants (cap "read" ∷ []) 8

abbrev two_levels : ChainVerifier
two_levels = record { max_depth = 2; max_chain_length = 0 }

verify_chain_sound_example :
    (length (agent ∷ helper ∷ []) ≤ two_levels.max_depth)
    × (length (agent ∷ helper ∷ []) ≤ chain_limit two_levels)
    × ((i j : ℕ) (a b : Cert)
        → i < j
        → get_elem? (agent ∷ helper ∷ []) i ≡ some a
        → get_elem? (agent ∷ helper ∷ []) j ≡ some b
        → a.serial_number ≢ b.serial_number)
    × SignedChain toy_pki toy_crypto alice (agent ∷ helper ∷ [])
unfolding verify_chain verify_levels verify_level verify_chain_structure check_serials
    verify_delegation_auth_with_agent agent_spki_of verify_versions verify_tbs verify_tbs_at
    check_tbs check_signature check_key_hash
verify_chain_sound_example =
    verify_chain_sound toy_pki toy_crypto two_levels (agent ∷ helper ∷ []) alice refl

verify_with_caps_sound_example :
    SignedChain toy_pki toy_crypto alice (agent ∷ helper ∷ [])
    × (length (agent ∷ helper ∷ []) ≤ 2)
    × (length (agent ∷ helper ∷ []) ≤ 4)
    × Attenuates toy_pki alice_grants.grants (agent ∷ helper ∷ []) (cap "read" ∷ [])
unfolding verify_delegation_chain_with_caps effective_delegation_capabilities effective_loop
    effective_level capability_subset filter_covered capability_covered match_capability
    verify_chain verify_levels verify_level verify_chain_structure check_serials
    verify_delegation_auth_with_agent agent_spki_of verify_versions verify_tbs verify_tbs_at
    check_tbs check_signature check_key_hash
verify_with_caps_sound_example =
    verify_with_caps_sound toy_pki toy_crypto (agent ∷ helper ∷ []) alice alice_grants.grants
      (cap "read" ∷ []) 2 4 refl

abbrev operations : OperationConfig
operations = record {
  operations = record { id = "read"; params = [] } ∷ [];
  unresolved_evaluator = none;
  discharge_obligations = true;
  obligations_understood = [];
  require_fresh_decision_context = true;
  decision_context = some [];
}

evaluate_operations_sound_example :
    AllSettled toy_pki toy_semantics operations 5
      (some agent_aic)
      (some alice_grants)
      []
      operations.operations
      (evaluate_operations toy_pki toy_semantics operations 5
        (some agent_aic)
        (some alice_grants)
        []
        operations.operations).decisions
unfolding evaluate_operations settle check_decision_context authorize_operation
    authorize_capabilities authorize_grants combine_decisions to_grant_set to_grant normalize_params
    with_constraints grants_absent
evaluate_operations_sound_example =
    evaluate_operations_sound toy_pki toy_semantics operations 5 (some agent_aic)
      (some alice_grants) [] operations.operations refl

abbrev released : Decision
released = record { verdict = allow; reason = ""; unresolved = [] }

toy_combine-deny :
    (a b c : Decision) (x y : Verdict)
    → a.verdict ≡ x
    → b.verdict ≡ y
    → toy_combine a b x y ≡ c
    → (a.verdict ≡ deny) ⊎ (b.verdict ≡ deny)
    → c.verdict ≡ deny
toy_combine-deny a b c deny y ex ey e v = sym (ap (λ (d : Decision). d.verdict) e) ∙ ex
toy_combine-deny a b c allow deny ex ey e v = sym (ap (λ (d : Decision). d.verdict) e) ∙ ey
toy_combine-deny a b c allow_unresolved deny ex ey e v =
    sym (ap (λ (d : Decision). d.verdict) e) ∙ ey
toy_combine-deny a b c allow allow ex ey e v = absurd (ground arith)
toy_combine-deny a b c allow allow_unresolved ex ey e v = absurd (ground arith)
toy_combine-deny a b c allow_unresolved allow ex ey e v = absurd (ground arith)
toy_combine-deny a b c allow_unresolved allow_unresolved ex ey e v = absurd (ground arith)

deny_wins : DenyWins toy_pki toy_semantics
deny_wins a b c h v = toy_combine-deny a b c a.verdict b.verdict refl refl (value_eq h) v

abbrev evening : Evaluator
evening c ip now = str_eq ip "10.0.0.1"

abbrev policy : ConstraintRegistry
policy = ("network:cidr", evening) ∷ []

abbrev cidr : Capability
cidr = record { scheme_id = "constraint"; capability_id = "network:cidr"; parameters = [] }
