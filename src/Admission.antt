-- ===== src/Admission.antt =====
-- decision.go: `CheckAdmission`, the admission decision over one certificate, in the stages of the
-- function. The clock is read once for an admission. A refusal's text is the stage and the operation
-- that refused; the source chain that a result carries for evidence is not part of it.
pub mod Guards
pub mod Delegated
pub mod Effective
pub mod Decide
pub mod Passed
pub mod Sound
pub mod Granted
pub mod Replay
pub mod Contained
use aic_verifier.Prelude.{ℕ, String, Bool, true, false, Option, none, some, List, [], ◌∷◌}
use aic_verifier.Merkle.{Bytes}
use aic_verifier.Model.{Cert, Capability, Aic, PrincipalAuthorization, Fallible}
use aic_verifier.Nonce.{NonceCache}
use aic_verifier.DelegationAuth.{DaError}
use aic_verifier.Constraints.{ConstraintRegistry, ConstraintError}
use aic_verifier.Clc.{OperationDecision}
use aic_verifier.Clc.Evaluation.{OperationConfig, OperationRefusal}

-- the chain of the agent and of the principal
pub record CredentialBundle : Type 0 where
  pub agent_chain : List Cert
  pub principal_chain : List Cert

abbrev pub principal_of : CredentialBundle → Option Cert
principal_of b = elim b.principal_chain [ [] ↦ none | c ∷ cs ↦ some c ]

pub record AdmissionConfig : Type 0 where
  pub require_aic : Bool
  pub required_protocol : String
  pub required_rule_id : String
  pub required_capabilities : List String
  pub operations : OperationConfig
  pub disallow_representative : Bool
  pub require_user_permission : Bool
  pub reject_overflow : Bool
  pub skip_delegation_auth_verification : Bool
  pub enforce_cap_size_constraints : Bool
  pub enforce_size32 : Bool
  -- whether a nonce cache is set; the cache is in the state
  pub has_nonce_cache : Bool
  pub user_cert : Option Cert
  pub user_cert_resolver : Option (Bytes → Fallible (Option Cert))
  pub credential_bundle : Option CredentialBundle
  pub enforce_constraints : Bool
  pub strict_constraints : Bool
  pub constraint_registry : ConstraintRegistry
  pub client_ip : String
  pub has_audit_logger : Bool
  pub check_da_age : Bool
  pub da_age_max : ℕ

-- the stages that refuse
pub data Reason : Type 0 where
  aic_parse aic_required aic_validation cap_size nonce_size : Reason
  principal_authorization_parse principal_authorization_required : Reason
  pa_constraint aic_constraint : ConstraintError → Reason
  pa_unknown_constraint aic_unknown_constraint : Capability → Reason
  protocol_missing rule_missing : Reason
  missing_capabilities : List String → Reason
  operation_refused : OperationRefusal → Reason
  representative_disallowed representative_needs_pa representative_not_allowed : Reason
  signature_empty bundle_key_hash resolver_failed unsupported_key_hash : Reason
  authorization_cert_required no_key_hash : Reason
  delegation_auth : DaError → Reason
  da_stale nonce_replay no_intersection capability_overflow : Reason

pub record AdmissionResult : Type 0 where
  -- none for DecisionAllow
  pub refused : Option Reason
  pub aic : Option Aic
  pub principal_authorization : Option PrincipalAuthorization
  pub principal_uid : String
  pub effective_caps : List Capability
  pub operation_decisions : List OperationDecision

-- What an admission changes: the nonce cache, and the unknown constraint types in the audit log.
pub record World : Type 0 where
  pub nonces : NonceCache
  pub audit : List String

abbrev pub refusal : Reason → AdmissionResult
refusal r = record {
  refused = some r;
  aic = none;
  principal_authorization = none;
  principal_uid = "";
  effective_caps = [];
  operation_decisions = [];
}

-- a check of a stage: none to go on
abbrev pub Check : Type 0
Check = Option Reason

infixr 5 ◌>>>◌
abbrev pub ◌>>>◌ : Check → Check → Check
none >>> k = k
some r >>> k = some r

abbrev pub refuse_if : Bool → Reason → Check
refuse_if true r = some r
refuse_if false r = none

abbrev pub Outcome : Type 0
Outcome = World × AdmissionResult

-- go on to the next stage, or refuse with the state as it is
unfoldable pub stage : World → Check → Outcome → Outcome
stage w (some r) next = (w, refusal r)
stage w none next = next
