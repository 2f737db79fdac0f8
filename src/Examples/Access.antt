-- ===== src/Examples/Access.antt =====
-- The theorems on the access pipeline and on the layered entry point at a toy gateway.
use aic_verifier.Prelude.{
  ◌≤◌, ◌<◌, ◌-◌, ◌≡◌, ◌↔◌, refl, true, false, none, some, [], ◌∷◌, Memᴰ, find?, str_eq,
}
use aic_verifier.Model.{Cert, Capability, Aic, PrincipalAuthorization, value}
use aic_verifier.Nonce.{check_and_add, load}
use aic_verifier.Capability.{aic_capability_matches, effective_capabilities, match_capability}
use aic_verifier.DelegationAuth.{
  agent_spki_of, check_da_freshness, within_age, check_key_hash, check_signature, check_tbs,
  verify_delegation_auth_with_agent, verify_tbs, verify_tbs_at, verify_versions,
}
use aic_verifier.Clc.{
  decision_grants, authorize_capabilities, authorize_grants, authorize_operation, combine_decisions,
  constraint_string, constraint_strings, grants_absent, normalize_params, recorder, to_grant,
  to_grant_set, with_constraints,
}
use aic_verifier.Clc.Evaluation.{check_decision_context, evaluate_operations, settle}
use aic_verifier.Constraints.{
  find, is_constraint_scheme, check_constraints_reg, first_unknown_constraint_reg,
}
use aic_verifier.Admission.Effective.{effective_caps_of, intersect}
use aic_verifier.Admission.{stage}
use aic_verifier.Admission.Guards.{
  check_fields, validate_cap_size_constraints, check_pa_constraints, refreshed_authorization,
  current_principal_cert, verify_principal_key_hash, check_aic_constraints, check_declarations,
  check_required, check_mode, ou_fallback_principal, unknown_constraints, unknown_types,
}
use aic_verifier.Admission.Delegated.{check_delegation, resolved_signer, select_signer, self_signer}
use aic_verifier.Admission.Decide.{
  check_admission, with_aic, with_own, after_parse, after_constraints, after_nonce,
  after_operations, decide_operations, grant_effective, operation_refusal, use_nonce,
}
use aic_verifier.Admission.Passed.{IsAdmitted}
use aic_verifier.Pipeline.{
  PipelineConfig, PipelineState, PluginRegistry, CapabilityRegistry, Platform, plugin_allow,
  check_full_chain, deny, log_plugin_decision, admission_config,
}
use aic_verifier.Pipeline.Status.{
  check_cert_validity, check_crl, check_ocsp, check_revocation, check_cert, check_chain,
  check_scoped, check_status,
}
use aic_verifier.Pipeline.Identity.{
  check_roles, check_parsed, check_spiffe, check_offline, roles_of, spiffe_required, is_empty,
}
use aic_verifier.Pipeline.Capabilities.{
  aic_agent_id, da_hash_from_aic, record_risk_violation, check_parameters, resolve_plugins,
  check_registered, after_plugin, without_plugin, run_plugin, run_plugins,
}
use aic_verifier.Pipeline.Run.{
  deny_with_admission, granted, then_step, after_admission, with_admission, admit_client,
  check_identity, after_status, run_access_pipeline,
}
use aic_verifier.Pipeline.Granted.{IsGranted, admission_of}
use aic_verifier.Pipeline.Current.{ScopeCurrent}
use aic_verifier.Pipeline.Sound.{Identified, granted_current, granted_admitted, granted_vetted}
use aic_verifier.Pipeline.Vetted.{NotDenied}
use aic_verifier.TrustLayers.{verify_trust_layers}
use aic_verifier.TrustLayers.Plain.{IsPlain}
use aic_verifier.TrustLayers.Agreement.{SameGrant, layers_agree}
use aic_verifier.Revocation.Ocsp.{
  fallback_crl, check, extract_ocsp_url, look_up, take_turn, ask, settle_response, entry_of,
  response_fresh, fallback_err,
}
use aic_verifier.Revocation.Crl.{is_revoked_cert, take}
use aic_verifier.Spiffe.{
  extract_spiffe_id_from_cert, canonical_spiffe_id, parse_spiffe_id, valid_trust_domain_charset,
  has_dot, before_slash, from_slash,
}
use aic_verifier.Roles.{check_role, extract_roles, extract_policy_roles}
use aic_verifier.Parameters.{
  find as find_validator, validate_capability, ParameterValidatorRegistry,
}
use aic_verifier.Clc.Aggregate.{aggregate_clc_decisions, roll_up}
use aic_verifier.Examples.Setup.{toy_pki, toy_crypto, toy_semantics, alice, cap}
use aic_verifier.Examples.Status.{toy_ocsp, toy_crl, strict, with_responder, reply}

abbrev pub gateway_platform : Platform
gateway_platform = record {
  pki = toy_pki;
  semantics = toy_semantics;
  crypto = toy_crypto;
  crl = toy_crl;
  ocsp = toy_ocsp;
  turn = λ c i. reply;
  parse_url = λ t. some (record { scheme = "spiffe"; hostname = "ca.org"; path = "/a" });
  to_lower = λ t. t;
  trim_space = λ t. t;
  equal_fold = str_eq;
  hex = λ b. "ab";
}

abbrev pub simple : PipelineConfig
simple = record {
  crl_cache = none;
  ocsp_cache =
      some (record strict { fallback = fallback_crl; crl_check = some (λ dn n. value false) });
  allow_roles = [];
  check_scope = check_full_chain;
  require_aic = true;
  require_spiffe = false;
  allowed_spiffe_ids = [];
  spiffe_trust_domain = "";
  required_protocol = "mcp";
  required_rule_id = "";
  required_capabilities = "read" ∷ [];
  operations = record {
    operations = record { id = "read"; params = [] } ∷ [];
    unresolved_evaluator = none;
    discharge_obligations = true;
    obligations_understood = [];
    require_fresh_decision_context = false;
    decision_context = none;
  };
  disallow_representative = false;
  require_user_permission = true;
  reject_overflow = true;
  skip_delegation_auth_verification = false;
  enforce_cap_size_constraints = true;
  enforce_size32 = true;
  plugin_registry = none;
  capability_registry = none;
  capability_plugin_resolver = none;
  has_audit_logger = true;
  has_nonce_cache = true;
  client_ip = "10.0.0.1";
  user_cert = some alice;
  user_cert_resolver = none;
  enforce_constraints = true;
  strict_constraints = true;
  authorization_policy = none;
  constraint_registry = [];
  parameter_validators = none;
  policy_server = none;
  credential_bundle = none;
  policy_version = 1;
  has_risk_monitor = true;
  offline_max_cert_lifetime = 0;
  http_facts = none;
}

-- with roles, an offline limit, validators, a registry and plugins
abbrev pub full : PipelineConfig
full = record simple {
  allow_roles = "gateway:read" ∷ [];
  require_spiffe = true;
  allowed_spiffe_ids = "spiffe://ca.org/a" ∷ [];
  spiffe_trust_domain = "ca.org";
  offline_max_cert_lifetime = 900;
  parameter_validators = some (("mcp", λ granted declared. true) ∷ []);
  capability_registry = some (record { enabled = true; validate_capability = λ id. true });
  plugin_registry =
      some (λ scheme. some (λ c ctx. value (record { decision = plugin_allow; reason = "" })));
}

abbrev pub fresh_state : PipelineState
fresh_state = record {
  world = record { nonces = []; audit = [] };
  ocsp = [];
  plugin_log = [];
  risk = record { rules = []; violations = []; actions = [] };
}

abbrev pub client : Cert
client = record with_responder {
  organizational_unit = "gateway:read" ∷ [];
  uris = ("spiffe", "spiffe://ca.org/a") ∷ [];
}

full_granted : IsGranted (run_access_pipeline gateway_platform full 120 fresh_state (client ∷ []))
unfolding aic_capability_matches effective_capabilities match_capability agent_spki_of
    check_da_freshness within_age check_key_hash check_signature check_tbs
    verify_delegation_auth_with_agent verify_tbs verify_tbs_at verify_versions decision_grants
    authorize_capabilities authorize_grants authorize_operation check_decision_context
    combine_decisions constraint_string constraint_strings evaluate_operations grants_absent
    normalize_params recorder settle to_grant to_grant_set with_constraints find
    is_constraint_scheme check_constraints_reg first_unknown_constraint_reg check_and_add load stage
    check_fields validate_cap_size_constraints check_pa_constraints refreshed_authorization
    current_principal_cert verify_principal_key_hash check_aic_constraints check_declarations
    check_required check_mode ou_fallback_principal unknown_constraints unknown_types
    check_delegation resolved_signer select_signer self_signer effective_caps_of intersect
    check_admission with_aic with_own after_parse after_constraints after_nonce after_operations
    decide_operations grant_effective operation_refusal use_nonce deny log_plugin_decision
    admission_config check_cert_validity check_crl check_ocsp check_revocation check_cert
    check_chain check_scoped check_status check_roles check_parsed check_spiffe check_offline
    aic_agent_id da_hash_from_aic record_risk_violation check_parameters resolve_plugins
    check_registered after_plugin without_plugin run_plugin run_plugins deny_with_admission granted
    then_step after_admission with_admission admit_client check_identity after_status
    run_access_pipeline check extract_ocsp_url look_up take_turn ask settle_response entry_of
    response_fresh fallback_err extract_spiffe_id_from_cert canonical_spiffe_id parse_spiffe_id
    valid_trust_domain_charset has_dot before_slash from_slash check_role extract_roles
    extract_policy_roles find_validator validate_capability find? aggregate_clc_decisions roll_up
    is_revoked_cert take
full_granted = refl

granted_current_example :
    ScopeCurrent gateway_platform full 120 check_full_chain fresh_state.ocsp client []
granted_current_example =
    granted_current gateway_platform full 120 fresh_state client [] full_granted

granted_admitted_example :
    ((is_empty full.allow_roles ≡ false
        → check_role (roles_of gateway_platform full client) full.allow_roles ≡ true)
      × (spiffe_required gateway_platform full ≡ true
          → Identified gateway_platform full 120 fresh_state client []
              (extract_spiffe_id_from_cert client))
      × (0 < full.offline_max_cert_lifetime
          → client.not_after - 120 ≤ full.offline_max_cert_lifetime))
    × (IsAdmitted (admission_of gateway_platform full 120 client fresh_state)
        × ((run_access_pipeline gateway_platform full 120 fresh_state (client ∷ [])).0.world
            ≡ (admission_of gateway_platform full 120 client fresh_state).0)
        × ((run_access_pipeline gateway_platform full 120 fresh_state
              (client ∷ [])).1.operation_decisions
            ≡ (admission_of gateway_platform full 120 client fresh_state).1.operation_decisions)
        × ((run_access_pipeline gateway_platform full 120 fresh_state (client ∷ [])).1.principal
            ≡ (admission_of gateway_platform full 120 client fresh_state).1.principal_uid))
granted_admitted_example =
    granted_admitted gateway_platform full 120 fresh_state client [] full_granted

handed_on :
    Memᴰ (cap "read") (admission_of gateway_platform full 120 client fresh_state).1.effective_caps
unfolding aic_capability_matches effective_capabilities match_capability agent_spki_of
    check_da_freshness within_age check_key_hash check_signature check_tbs
    verify_delegation_auth_with_agent verify_tbs verify_tbs_at verify_versions decision_grants
    authorize_capabilities authorize_grants authorize_operation check_decision_context
    combine_decisions constraint_string constraint_strings evaluate_operations grants_absent
    normalize_params recorder settle to_grant to_grant_set with_constraints find
    is_constraint_scheme check_constraints_reg first_unknown_constraint_reg check_and_add load stage
    check_fields validate_cap_size_constraints check_pa_constraints refreshed_authorization
    current_principal_cert verify_principal_key_hash check_aic_constraints check_declarations
    check_required check_mode ou_fallback_principal unknown_constraints unknown_types
    check_delegation resolved_signer select_signer self_signer effective_caps_of intersect
    check_admission with_aic with_own after_parse after_constraints after_nonce after_operations
    decide_operations grant_effective operation_refusal use_nonce deny log_plugin_decision
    admission_config check_cert_validity check_crl check_ocsp check_revocation check_cert
    check_chain check_scoped check_status check_roles check_parsed check_spiffe check_offline
    aic_agent_id da_hash_from_aic record_risk_violation check_parameters resolve_plugins
    check_registered after_plugin without_plugin run_plugin run_plugins deny_with_admission granted
    then_step after_admission with_admission admit_client check_identity after_status
    run_access_pipeline check extract_ocsp_url look_up take_turn ask settle_response entry_of
    response_fresh fallback_err extract_spiffe_id_from_cert canonical_spiffe_id parse_spiffe_id
    valid_trust_domain_charset has_dot before_slash from_slash check_role extract_roles
    extract_policy_roles find_validator validate_capability find? aggregate_clc_decisions roll_up
    is_revoked_cert take
handed_on = Memᴰ.head refl

granted_vetted_example :
    ((reg : ParameterValidatorRegistry) (aic : Aic) (pa : PrincipalAuthorization)
        (bound : Capability)
      → full.parameter_validators ≡ some reg
      → (admission_of gateway_platform full 120 client fresh_state).1.aic ≡ some aic
      → (admission_of gateway_platform full 120 client fresh_state).1.principal_authorization
        ≡ some pa
      → Memᴰ bound pa.grants
      → aic_capability_matches toy_pki (cap "read" ∷ []) bound.capability_id ≡ true
      → validate_capability reg bound (cap "read") ≡ true)
    × ((reg : CapabilityRegistry)
        → full.capability_registry ≡ some reg
        → reg.enabled ≡ true
        → reg.validate_capability (toy_pki.full_id (cap "read")) ≡ true)
    × ((find : PluginRegistry)
        → (resolve_plugins gateway_platform full 120 client
            (admission_of gateway_platform full 120 client fresh_state).1).1
          ≡ some find
        → NotDenied gateway_platform full 120 client
            (admission_of gateway_platform full 120 client fresh_state).1
            (roles_of gateway_platform full client)
            (resolve_plugins gateway_platform full 120 client
              (admission_of gateway_platform full 120 client fresh_state).1).0
            find
            (cap "read"))
granted_vetted_example =
    granted_vetted gateway_platform full 120 fresh_state client [] full_granted (cap "read")
      handed_on

simple-IsPlain : IsPlain gateway_platform simple
simple-IsPlain = record {
  full_chain = refl;
  no_spiffe = refl;
  no_limit = refl;
  no_bundle = refl;
  no_validators = refl;
  no_registry = refl;
  no_plugins = refl;
  no_resolver = refl;
  no_server = refl;
}

layers_agree_example :
    (IsGranted (verify_trust_layers gateway_platform (some simple) 120 fresh_state (client ∷ []))
      ↔ IsGranted (run_access_pipeline gateway_platform simple 120 fresh_state (client ∷ [])))
    × (IsGranted (run_access_pipeline gateway_platform simple 120 fresh_state (client ∷ []))
        → SameGrant
            (verify_trust_layers gateway_platform (some simple) 120 fresh_state (client ∷ []))
            (run_access_pipeline gateway_platform simple 120 fresh_state (client ∷ [])))
layers_agree_example = layers_agree gateway_platform simple 120 simple-IsPlain client fresh_state []
