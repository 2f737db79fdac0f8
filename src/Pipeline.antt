-- ===== src/Pipeline.antt =====
-- pipeline.go: the configuration, the state and the result of the access pipeline, and its connection
-- to the plugins of github.com/varwof/types. The clock is read once for a run. A reason is the stage that
-- refused, not its text, and entries of the log are without their reason.
pub mod Status
pub mod Identity
pub mod Capabilities
pub mod Run
pub mod Current
mod Kept
pub mod Vetted
pub mod Granted
pub mod Sound
pub mod Refused
use aic_verifier.Prelude.{
  ℕ, String, Bool, false, Option, none, some, List, [], ◌∷◌, ◌++◌, str_eq, if◌then◌else◌,
}
use aic_verifier.Merkle.{Bytes}
use aic_verifier.Model.{Cert, Capability, Aic, PrincipalAuthorization, Fallible, Pki}
use aic_verifier.DelegationAuth.{Crypto}
use aic_verifier.Clc.{Semantics, Verdict, OperationDecision}
use aic_verifier.Clc.Evaluation.{OperationConfig}
use aic_verifier.Constraints.{ConstraintRegistry}
use aic_verifier.Parameters.{ParameterValidatorRegistry}
use aic_verifier.Roles.{AuthorizationPolicy}
use aic_verifier.Risk.{RiskMonitor}
use aic_verifier.Spiffe.{Url}
use aic_verifier.Revocation.Crl.{CrlCache, CrlLib}
use aic_verifier.Revocation.Ocsp.{OcspConfig, OcspLib, Entries, Turn}
use aic_verifier.Admission.{AdmissionConfig, CredentialBundle, World, Reason}

-- the plugins' types
pub data PluginDecision : Type 0 where
  plugin_allow plugin_deny plugin_bypass : PluginDecision

pub record PluginResult : Type 0 where
  pub decision : PluginDecision
  pub reason : String

pub record HttpFacts : Type 0 where
  pub method : String
  pub path : String
  pub query : List (String × List String)
  pub headers : List (String × String)
  pub body : Bytes

pub record PluginContext : Type 0 where
  pub agent_id : String
  pub client_cn : String
  pub roles : List String
  pub target : String
  pub http : Option HttpFacts

-- `Execute`
abbrev pub Plugin : Type 0
Plugin = Capability → PluginContext → Fallible PluginResult

-- `Find`: none for an error
abbrev pub PluginRegistry : Type 0
PluginRegistry = String → Option Plugin

-- `ValidateCapability` is true for nil
pub record CapabilityRegistry : Type 0 where
  pub enabled : Bool
  pub validate_capability : String → Bool

pub record PolicyServer : Type 0 where
  pub name : String
  -- `CheckOnline`, true for nil
  pub check_online : Cert → Option Aic → Bool

pub data PipelineCheck : Type 0 where
  check_full_chain check_leaf_only : PipelineCheck

pub record PipelineConfig : Type 0 where
  pub crl_cache : Option CrlCache
  pub ocsp_cache : Option OcspConfig
  pub allow_roles : List String
  pub check_scope : PipelineCheck
  pub require_aic : Bool
  pub require_spiffe : Bool
  pub allowed_spiffe_ids : List String
  pub spiffe_trust_domain : String
  pub required_protocol : String
  pub required_rule_id : String
  pub required_capabilities : List String
  pub operations : OperationConfig
  pub disallow_representative : Bool
  pub require_user_permission : Bool
  pub reject_overflow : Bool
  pub skip_delegation_auth_verification : Bool
  pub enforce_cap_size_constraints : Bool
  pub enforce_size32 : Bool
  pub plugin_registry : Option PluginRegistry
  -- the configured registry, or the global one if there is none
  pub capability_registry : Option CapabilityRegistry
  pub capability_plugin_resolver : Option (String → ℕ × Option PluginRegistry)
  pub has_audit_logger : Bool
  pub has_nonce_cache : Bool
  pub client_ip : String
  pub user_cert : Option Cert
  pub user_cert_resolver : Option (Bytes → Fallible (Option Cert))
  pub enforce_constraints : Bool
  pub strict_constraints : Bool
  pub authorization_policy : Option AuthorizationPolicy
  pub constraint_registry : ConstraintRegistry
  pub parameter_validators : Option ParameterValidatorRegistry
  pub policy_server : Option PolicyServer
  pub credential_bundle : Option CredentialBundle
  pub policy_version : ℕ
  pub has_risk_monitor : Bool
  -- 0 for no limit
  pub offline_max_cert_lifetime : ℕ
  pub http_facts : Option HttpFacts

pub data DenyReason : Type 0 where
  nil_config no_certificate not_yet_valid expired crl_error crl_revoked ocsp_error : DenyReason
  insufficient_roles : DenyReason
  spiffe_missing spiffe_invalid spiffe_domain_mismatch spiffe_not_allowed : DenyReason
  offline_lifetime : DenyReason
  admission_refused : Reason → DenyReason
  parameter_boundary not_registered unserved plugin_error plugin_denied : Capability → DenyReason
  policy_server_refused : String → DenyReason

pub record PipelineResult : Type 0 where
  -- none for Granted
  pub denied : Option DenyReason
  pub roles : List String
  pub principal : String
  pub serial : String
  pub agent_id : String
  pub spiffe_id : String
  pub aic : Option Aic
  pub principal_authorization : Option PrincipalAuthorization
  pub clc_verdict : Option Verdict
  pub clc_reason : String
  pub clc_unresolved : List String
  pub operation_decisions : List OperationDecision

unfoldable pub deny : DenyReason → PipelineResult
deny r = record {
  denied = some r;
  roles = [];
  principal = "";
  serial = "";
  agent_id = "";
  spiffe_id = "";
  aic = none;
  principal_authorization = none;
  clc_verdict = none;
  clc_reason = "";
  clc_unresolved = [];
  operation_decisions = [];
}

-- an entry of the audit log, without its reason
pub record PluginAuditEntry : Type 0 where
  pub scheme : String
  pub capability_id : String
  pub decision : String
  pub client_cn : String
  pub principal : String
  pub level : String
  pub da_hash : String
  pub policy_version : ℕ

-- What a run changes: the state of the admission, the responder's answers, the audit log of the plugin
-- decisions, and the risk monitor.
pub record PipelineState : Type 0 where
  pub world : World
  pub ocsp : Entries
  pub plugin_log : List PluginAuditEntry
  pub risk : RiskMonitor

-- the code outside the repository, and the part of the network in a check with a responder
pub record Platform : Type 0 where
  pub pki : Pki
  pub semantics : Semantics
  pub crypto : Crypto
  pub crl : CrlLib
  pub ocsp : OcspLib
  pub turn : Cert → Option Cert → Turn
  pub parse_url : String → Option Url
  -- `strings.ToLower`, `strings.TrimSpace` and `strings.EqualFold`
  pub to_lower : String → String
  pub trim_space : String → String
  pub equal_fold : String → String → Bool
  -- `hex.EncodeToString`
  pub hex : Bytes → String

abbrev pub level_of : PluginAuditEntry → String
level_of e =
    if str_eq e.level "" then (if str_eq e.decision "allow" then "INFO" else "WARN") else e.level

unfoldable pub log_plugin_decision : Bool → PluginAuditEntry → PipelineState → PipelineState
log_plugin_decision has_logger e st =
    if has_logger
    then record st { plugin_log = st.plugin_log ++ record e { level = level_of e } ∷ [] }
    else st

-- the literal of pipeline.go with the fields of `applyCLCAdmissionConfig`
unfoldable pub admission_config : PipelineConfig → AdmissionConfig
admission_config cfg = record {
  require_aic = cfg.require_aic;
  required_protocol = cfg.required_protocol;
  required_rule_id = cfg.required_rule_id;
  required_capabilities = cfg.required_capabilities;
  operations = cfg.operations;
  disallow_representative = cfg.disallow_representative;
  require_user_permission = cfg.require_user_permission;
  reject_overflow = cfg.reject_overflow;
  skip_delegation_auth_verification = cfg.skip_delegation_auth_verification;
  enforce_cap_size_constraints = cfg.enforce_cap_size_constraints;
  enforce_size32 = cfg.enforce_size32;
  has_nonce_cache = cfg.has_nonce_cache;
  user_cert = cfg.user_cert;
  user_cert_resolver = cfg.user_cert_resolver;
  credential_bundle = cfg.credential_bundle;
  enforce_constraints = cfg.enforce_constraints;
  strict_constraints = cfg.strict_constraints;
  constraint_registry = cfg.constraint_registry;
  client_ip = cfg.client_ip;
  has_audit_logger = cfg.has_audit_logger;
  check_da_age = false;
  da_age_max = 0;
}

abbrev pub hour : ℕ
hour = 3600000000000

unfoldable pub offline_lifetime_for : String → ℕ
offline_lifetime_for fallback =
    if str_eq fallback "allow" then hour else if str_eq fallback "crl" then hour else 0
