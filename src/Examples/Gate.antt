-- ===== src/Examples/Gate.antt =====
-- The theorems on the admission decision at toy certificates.
use aic_verifier.Prelude.{
  ◌≡◌, ◌≢◌, refl, true, false, Option, none, some, [], ◌∷◌, arith, any, str_eq, eq_iff, Memᴰ,
}
use aic_verifier.Merkle.{Bytes}
use aic_verifier.Model.{Cert, Capability, Aic, PrincipalAuthorization, value}
use aic_verifier.Nonce.{check_and_add, load, run_calls}
use aic_verifier.Capability.{aic_capability_matches, effective_capabilities, match_capability}
use aic_verifier.DelegationAuth.{
  agent_spki_of, check_da_freshness, within_age, check_key_hash, check_signature, check_tbs,
  verify_delegation_auth_with_agent, verify_tbs, verify_tbs_at, verify_versions,
}
use aic_verifier.DelegationAuth.Accepted.{SignedFor}
use aic_verifier.Clc.{
  decision_grants, authorize_capabilities, authorize_grants, authorize_operation, combine_decisions,
  constraint_string, constraint_strings, grants_absent, normalize_params, recorder, to_grant,
  to_grant_set, with_constraints,
}
use aic_verifier.Clc.Evaluation.{check_decision_context, evaluate_operations, settle}
use aic_verifier.Clc.Operations.{AllSettled}
use aic_verifier.Constraints.{
  find, is_constraint_scheme, check_constraints_reg, first_unknown_constraint_reg,
}
use aic_verifier.Admission.Effective.{effective_caps_of, intersect}
use aic_verifier.Admission.{AdmissionConfig, World, stage}
use aic_verifier.Admission.Guards.{
  check_fields, validate_cap_size_constraints, check_pa_constraints, refreshed_authorization,
  current_principal_cert, verify_principal_key_hash, check_aic_constraints, check_declarations,
  check_required, check_mode, ou_fallback_principal, unknown_constraints, unknown_types,
}
use aic_verifier.Admission.Delegated.{
  signer, check_delegation, resolved_signer, select_signer, self_signer,
}
use aic_verifier.Admission.Decide.{
  nonce_scope, check_admission, with_aic, with_own, after_parse, after_constraints, after_nonce,
  after_operations, decide_operations, grant_effective, operation_refusal, use_nonce,
}
use aic_verifier.Admission.Passed.{IsAdmitted}
use aic_verifier.Admission.Sound.{admission_delegated, admission_operations}
use aic_verifier.Admission.Granted.{admission_representative}
use aic_verifier.Admission.Replay.{admission_replay}
use aic_verifier.Admission.Contained.{Contained, admission-Contained}
use aic_verifier.Examples.Setup.{
  toy_sha, toy_pki, toy_crypto, toy_semantics, alice, agent, copycat, agent_aic, cap,
}

abbrev gate : AdmissionConfig
gate = record {
  require_aic = true;
  required_protocol = "mcp";
  required_rule_id = "";
  required_capabilities = "read" ∷ [];
  operations = record {
    operations = record { id = "read"; params = [] } ∷ [];
    unresolved_evaluator = none;
    discharge_obligations = true;
    obligations_understood = [];
    require_fresh_decision_context = false;
    decision_context = none;
  };
  disallow_representative = false;
  require_user_permission = true;
  reject_overflow = true;
  skip_delegation_auth_verification = false;
  enforce_cap_size_constraints = true;
  enforce_size32 = true;
  has_nonce_cache = true;
  user_cert = some alice;
  user_cert_resolver = none;
  credential_bundle = none;
  enforce_constraints = true;
  strict_constraints = true;
  constraint_registry = [];
  client_ip = "10.0.0.1";
  has_audit_logger = true;
  check_da_age = true;
  da_age_max = 0;
}

abbrev start : World
start = record { nonces = []; audit = [] }

admitted : IsAdmitted (check_admission toy_pki toy_semantics toy_crypto gate 120 agent start)
unfolding aic_capability_matches effective_capabilities match_capability agent_spki_of
    check_da_freshness within_age check_key_hash check_signature check_tbs
    verify_delegation_auth_with_agent verify_tbs verify_tbs_at verify_versions decision_grants
    authorize_capabilities authorize_grants authorize_operation check_decision_context
    combine_decisions constraint_string constraint_strings evaluate_operations grants_absent
    normalize_params recorder settle to_grant to_grant_set with_constraints find
    is_constraint_scheme check_constraints_reg first_unknown_constraint_reg check_and_add load stage
    check_fields validate_cap_size_constraints check_pa_constraints refreshed_authorization
    current_principal_cert verify_principal_key_hash check_aic_constraints check_declarations
    check_required check_mode ou_fallback_principal unknown_constraints unknown_types
    check_delegation resolved_signer select_signer self_signer effective_caps_of intersect
    check_admission with_aic with_own after_parse after_constraints after_nonce after_operations
    decide_operations grant_effective operation_refusal use_nonce
admitted = refl

admission_delegated_example :
    (c : Cert) × ((select_signer toy_pki gate agent_aic agent ≡ signer c)
      × ((agent_aic.delegation_authorization.signature_value ≢ [])
          × ((spki : Bytes) × (agent_spki_of toy_pki toy_crypto (some agent) ≡ some spki)
              × SignedFor toy_pki toy_crypto agent_aic c spki)
          × (agent_aic.principal_uid.key_hash ≢ []
              → toy_sha.sum c.raw_spki ≡ agent_aic.principal_uid.key_hash)))
admission_delegated_example =
    admission_delegated toy_pki toy_semantics toy_crypto gate 120 agent start agent_aic refl refl
      admitted

admission_operations_example :
    (aic : Option Aic) × (own : Option PrincipalAuthorization) × ((toy_pki.parse_aic agent
        ≡ value aic)
      × ((toy_pki.parse_user_permission agent ≡ value own)
          × AllSettled toy_pki toy_semantics gate.operations 120 aic
              (refreshed_authorization toy_pki gate agent own)
              (decision_grants toy_pki toy_semantics aic
                (refreshed_authorization toy_pki gate agent own))
              gate.operations.operations
              (check_admission toy_pki toy_semantics toy_crypto gate 120 agent
                start).1.operation_decisions))
admission_operations_example =
    admission_operations toy_pki toy_semantics toy_crypto gate 120 agent start admitted

admission_representative_example :
    (gate.disallow_representative ≡ false)
    × ((own : Option PrincipalAuthorization) × (granted : PrincipalAuthorization)
        × ((toy_pki.parse_user_permission agent ≡ value own)
            × ((refreshed_authorization toy_pki gate agent own ≡ some granted)
                × ((granted.allowed_mode ≡ 1)
                    × ((c : Capability)
                        → Memᴰ c
                            (check_admission toy_pki toy_semantics toy_crypto gate 120 agent
                              start).1.effective_caps
                        → Memᴰ c agent_aic.capabilities
                          × (any
                                (aic_capability_matches toy_pki (c ∷ []))
                                (toy_pki.grant_ids granted)
                              ≡ true))))))
admission_representative_example =
    admission_representative toy_pki toy_semantics toy_crypto gate 120 agent start agent_aic refl
      refl admitted

-- the state after the first admission
abbrev after_first : World
after_first = (check_admission toy_pki toy_semantics toy_crypto gate 120 agent start).0

scopes_apart :
    nonce_scope toy_pki toy_semantics toy_crypto gate agent
    ≢ nonce_scope toy_pki toy_semantics toy_crypto gate copycat
scopes_apart e =
    let same : str_eq "CN=ca/7" "CN=ca/8" ≡ true = (eq_iff "CN=ca/7" "CN=ca/8").1 e in
    ground (arith, same)

admission_replay_example :
    ¬ IsAdmitted (check_admission toy_pki toy_semantics toy_crypto gate 125 copycat after_first)
unfolding run_calls
admission_replay_example =
    admission_replay toy_pki toy_semantics toy_crypto gate 120 125 agent copycat start after_first
      agent_aic agent_aic [] refl refl refl refl scopes_apart admitted refl

admission-Contained_example :
    Contained toy_pki toy_semantics toy_crypto gate 125 copycat after_first.nonces
      (check_admission toy_pki toy_semantics toy_crypto gate 125 copycat after_first)
admission-Contained_example =
    admission-Contained toy_pki toy_semantics toy_crypto gate 125 copycat after_first

-- a declaration of everything is handed over whole for one grant
widest_handed_over : effective_capabilities toy_pki (cap "*" ∷ []) ("read" ∷ []) ≡ cap "*" ∷ []
unfolding effective_capabilities aic_capability_matches match_capability
widest_handed_over = refl
