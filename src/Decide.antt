-- ===== src/Decide.antt =====
-- decide.go and aicverifier.go: `decide`, the decision core that every carrier calls. The verification of
-- a chain against the pool, of a bearer token, the emission of evidence, the evaluation of an evidence
-- requirement and the approval by a person are functions of the configuration. The text of an error is
-- its place in the function; its challenge document, and failures of the supervision store, are left out.
pub mod Credential
pub mod Run
pub mod Trust
pub mod Sound
use aic_verifier.Prelude.{ℕ, String, Bool, true, false, Option, none, some, List, [], ◌∷◌, map}
use aic_verifier.Merkle.{Bytes}
use aic_verifier.Model.{Cert, Capability, Aic, PrincipalAuthorization, Fallible}
use aic_verifier.Clc.{Verdict, OperationDecision}
use aic_verifier.Clc.Evaluation.{OperationConfig}
use aic_verifier.Constraints.{ConstraintRegistry}
use aic_verifier.Parameters.{ParameterValidatorRegistry}
use aic_verifier.Roles.{AuthorizationPolicy}
use aic_verifier.Revocation.Crl.{CrlCache}
use aic_verifier.Revocation.Ocsp.{OcspConfig}
use aic_verifier.Pipeline.{
  PipelineConfig, PipelineState, PipelineResult, DenyReason, PluginRegistry, CapabilityRegistry,
  HttpFacts, check_full_chain,
}

pub record RequestView : Type 0 where
  pub cert_chain : List Cert
  -- "" for none
  pub bearer_token : String
  pub verified_cert : Option Cert
  pub transport_secure : Bool
  pub method : String
  pub path : String
  pub client_ip : String
  pub http_facts : HttpFacts

pub data AuthMode : Type 0 where
  mtls_only bearer_only mtls_or_bearer : AuthMode

pub record AuthContext : Type 0 where
  pub client_cert : Cert
  pub principal : String
  pub agent_id : String
  pub spiffe_id : String
  pub roles : List String
  pub serial : String
  pub bearer : Bool
  pub aic : Option Aic
  pub verdict : Option Verdict
  pub reason : String
  pub unresolved : List String
  pub operation_decisions : List OperationDecision
  pub capabilities : List String
  pub evidence : List String

-- what a person is asked to approve
pub record RiskAssessment : Type 0 where
  pub agent_id : String
  pub principal_uid : String
  pub capabilities : List String
  pub method : String
  pub path : String

pub record SupervisionResult : Type 0 where
  pub decision : String
  pub approver : String
  pub reason : String

pub data SupervisionEventType : Type 0 where
  supervision_approval supervision_denied : SupervisionEventType

pub record SupervisionEvent : Type 0 where
  pub type : SupervisionEventType
  pub agent_id : String
  pub actor : String

-- `Validate`, the facts of the deployment, and `EvaluateRequirement`: whether it is satisfied
pub record EvidenceRequirement : Type 0 where
  pub is_valid : Bool
  pub facts : AuthContext → Fallible Bytes
  pub evaluate : Bytes → ℕ → Fallible Bool

-- the static part of the authenticator
pub record Authenticator : Type 0 where
  pub auth_mode : AuthMode
  -- `leaf.Verify` with the pool as roots and the rest as intermediates, true for nil
  pub tls_cas : Option (Cert → List Cert → Bool)
  -- `VerifyBearer`
  pub verifier : Option (String → ℕ → Fallible Cert)
  pub crl : Option CrlCache
  pub ocsp : Option OcspConfig
  pub require_aic : Bool
  pub required_capabilities : List String
  pub operations : OperationConfig
  pub disallow_representative : Bool
  pub enforce_constraints : Bool
  -- the configured ones, or those of a reloaded bundle
  pub authorization_policy : Option AuthorizationPolicy
  pub constraints : ConstraintRegistry
  pub parameter_validators : Option ParameterValidatorRegistry
  pub plugin_registry : Option PluginRegistry
  pub capability_registry : Option CapabilityRegistry
  pub has_audit_logger : Bool
  pub has_nonce_cache : Bool
  pub user_cert : Option Cert
  pub user_cert_resolver : Option (Bytes → Fallible (Option Cert))
  -- whether evidence is configured as strict
  pub evidence_strict : Bool
  -- `emitEvidence`: the digests of the records, and true for nil
  pub emit_evidence : Cert → PipelineResult → List String × Bool
  pub evidence_requirement : Option EvidenceRequirement
  pub need_approval : AuthContext → Bool
  pub approval_requester : Option (RiskAssessment → Fallible (Option SupervisionResult))
  pub has_supervision_store : Bool

pub data AuthError : Type 0 where
  no_credential chain_invalid no_ca_configured no_verifier bearer_needs_tls invalid_bearer :
      AuthError
  admission_denied : DenyReason → AuthError
  evidence_unavailable : AuthError
  requirement_invalid facts_unavailable requirement_error not_satisfied : AuthError
  approval_required : AuthError

-- an entry of the admission audit, with the digest of the first record of its evidence
pub record AdmissionEntry : Type 0 where
  pub src_ip : String
  pub mapping : String
  pub target : String
  pub client_cn : String
  pub denied : Bool
  pub record_digest : String

pub record ServerState : Type 0 where
  pub pipeline : PipelineState
  pub admissions : List AdmissionEntry
  pub supervision : List SupervisionEvent

pub data Decision : Type 0 where
  refused : AuthError → Decision
  accepted : AuthContext → Decision

-- a synthesized carrier of a bearer token has no signature of its own to verify
unfoldable pub pipeline_config : Authenticator → RequestView → Bool → PipelineConfig
pipeline_config a view bearer = record {
  crl_cache = a.crl;
  ocsp_cache = a.ocsp;
  allow_roles = [];
  check_scope = check_full_chain;
  require_aic = a.require_aic;
  require_spiffe = false;
  allowed_spiffe_ids = [];
  spiffe_trust_domain = "";
  required_protocol = "";
  required_rule_id = "";
  required_capabilities = a.required_capabilities;
  operations = a.operations;
  disallow_representative = a.disallow_representative;
  require_user_permission = false;
  reject_overflow = false;
  skip_delegation_auth_verification = bearer;
  enforce_cap_size_constraints = false;
  enforce_size32 = false;
  plugin_registry = a.plugin_registry;
  capability_registry = a.capability_registry;
  capability_plugin_resolver = none;
  has_audit_logger = a.has_audit_logger;
  has_nonce_cache = a.has_nonce_cache;
  client_ip = view.client_ip;
  user_cert = a.user_cert;
  user_cert_resolver = a.user_cert_resolver;
  enforce_constraints = a.enforce_constraints;
  strict_constraints = true;
  authorization_policy = a.authorization_policy;
  constraint_registry = a.constraints;
  parameter_validators = a.parameter_validators;
  policy_server = none;
  credential_bundle = none;
  policy_version = 0;
  has_risk_monitor = false;
  offline_max_cert_lifetime = 0;
  http_facts = some view.http_facts;
}
