-- ===== src/Decide/Run.antt =====
-- decide.go: `decide`, with the evidence requirement and the supervision of aicverifier.go.
use aic_verifier.Prelude.{
  ℕ, String, Bool, true, false, not, ◌&&◌, Option, none, some, List, [], ◌∷◌, ◌++◌, map, str_eq,
  if◌then◌else◌,
}
use aic_verifier.Merkle.{Bytes}
use aic_verifier.Model.{Cert, Capability, Aic, PrincipalAuthorization, Fallible, value, error}
use aic_verifier.Pipeline.{PipelineResult, Platform, DenyReason}
use aic_verifier.Pipeline.Run.{Decided, run_access_pipeline}
use aic_verifier.Decide.{
  RequestView, AuthContext, RiskAssessment, SupervisionResult, SupervisionEventType,
  supervision_approval, supervision_denied, EvidenceRequirement, Authenticator, AuthError,
  admission_denied, evidence_unavailable, requirement_invalid, facts_unavailable, requirement_error,
  not_satisfied, approval_required, ServerState, Decision, refused, accepted, pipeline_config,
}
use aic_verifier.Decide.Credential.{
  Credential, Resolution, presents, fails, resolve_credential, client_of, check_chain_trust,
}

abbrev pub Answer : Type 0
Answer = ServerState × Decision

abbrev pub capability_ids : List Capability → List String
capability_ids = map (λ (c : Capability). c.capability_id)

-- those of the AIC, or the grants of a certificate without one
unfoldable pub capabilities_of : Option Aic → Option PrincipalAuthorization → List String
capabilities_of (some aic) pa = capability_ids aic.capabilities
capabilities_of none (some pa) = capability_ids pa.grants
capabilities_of none none = []

-- `SupervisionResult.Approved`
unfoldable pub is_approved : Option SupervisionResult → Bool
is_approved none = false
is_approved (some r) = str_eq r.decision "approved"

abbrev pub approver_of : Option SupervisionResult → String
approver_of none = "aic-verifier"
approver_of (some r) = r.approver

unfoldable pub auth_context : Cert → Bool → PipelineResult → List String → AuthContext
auth_context cert bearer r refs = record {
  client_cert = cert;
  principal = r.principal;
  agent_id = r.agent_id;
  spiffe_id = r.spiffe_id;
  roles = r.roles;
  serial = r.serial;
  bearer = bearer;
  aic = r.aic;
  verdict = r.clc_verdict;
  reason = r.clc_reason;
  unresolved = r.clc_unresolved;
  operation_decisions = r.operation_decisions;
  capabilities = capabilities_of r.aic r.principal_authorization;
  evidence = refs;
}

module _ (a : Authenticator) (now : ℕ) (view : RequestView) where
  abbrev pub satisfaction : Fallible Bool → Option AuthError
  satisfaction error = some requirement_error
  satisfaction (value true) = none
  satisfaction (value false) = some not_satisfied

  abbrev pub with_facts : EvidenceRequirement → Fallible Bytes → Option AuthError
  with_facts req error = some facts_unavailable
  with_facts req (value facts) = satisfaction (req.evaluate facts now)

  -- none for nil; only an explicit "satisfied" passes
  unfoldable pub check_evidence_requirement : AuthContext → Option AuthError
  check_evidence_requirement ac = elim a.evidence_requirement [
    | none ↦ none
    | some req ↦ if req.is_valid then with_facts req (req.facts ac) else some requirement_invalid
  ]

  abbrev pub risk_of : AuthContext → RiskAssessment
  risk_of ac = record {
    agent_id = ac.agent_id;
    principal_uid = ac.principal;
    capabilities = ac.capabilities;
    method = view.method;
    path = view.path;
  }

  -- nil where no requester is configured
  unfoldable pub request_approval : AuthContext → Fallible (Option SupervisionResult)
  request_approval ac = elim a.approval_requester [
    | none ↦ value none
    | some request ↦ request (risk_of ac)
  ]

  -- an event that cannot be recorded changes nothing of the decision
  unfoldable pub note_supervision :
      SupervisionEventType → AuthContext → String → ServerState → ServerState
  note_supervision type ac actor st =
      if a.has_supervision_store
      then record st {
        supervision =
            st.supervision ++ record { type = type; agent_id = ac.agent_id; actor = actor } ∷ [];
      }
      else st

  unfoldable pub after_approval :
      ServerState → AuthContext → Fallible (Option SupervisionResult) → Answer
  after_approval st ac error =
      (note_supervision supervision_denied ac "aic-verifier" st, refused approval_required)
  after_approval st ac (value r) =
      if is_approved r
      then (note_supervision supervision_approval ac (approver_of r) st, accepted ac)
      else (note_supervision supervision_denied ac (approver_of r) st, refused approval_required)

  unfoldable pub supervise : ServerState → AuthContext → Answer
  unfolding after_approval
  supervise st ac =
      if a.need_approval ac then after_approval st ac (request_approval ac) else (st, accepted ac)

  unfoldable pub after_evidence : ServerState → AuthContext → Option AuthError → Answer
  unfolding supervise
  after_evidence st ac (some e) = (st, refused e)
  after_evidence st ac none = supervise st ac

  -- a decision without a record leaves no entry
  unfoldable pub audited : Cert → Bool → List String → ServerState → ServerState
  audited cert denied [] st = st
  audited cert denied (digest ∷ digests) st =
      if a.has_audit_logger
      then record st {
        admissions =
            st.admissions
            ++ record {
              src_ip = view.client_ip;
              mapping = view.method;
              target = view.path;
              client_cn = cert.common_name;
              denied = denied;
              record_digest = digest;
            }
              ∷ [];
      }
      else st

  abbrev pub lacks_evidence : Bool → Bool
  lacks_evidence emitted = not emitted && a.evidence_strict

  -- a refused operation leaves evidence too
  unfoldable pub deny_request : ServerState → Cert → DenyReason → List String × Bool → Answer
  deny_request st cert r (refs, emitted) = (
    audited cert true refs st,
    refused (if lacks_evidence emitted then evidence_unavailable else admission_denied r),
  )

  unfoldable pub admit_request :
      ServerState → Credential → PipelineResult → List String × Bool → Answer
  unfolding after_evidence
  admit_request st c r (refs, emitted) =
      let cert = client_of a now view c in
      let ac = auth_context cert c.bearer r refs in
      let next = after_evidence (audited cert false refs st) ac (check_evidence_requirement ac) in
      if lacks_evidence emitted then (st, refused evidence_unavailable) else next

  unfoldable pub after_pipeline :
      ServerState → Credential → PipelineResult → Option DenyReason → Answer
  after_pipeline st c r (some reason) =
      let cert = client_of a now view c in deny_request st cert reason (a.emit_evidence cert r)
  after_pipeline st c r none =
      let cert = client_of a now view c in admit_request st c r (a.emit_evidence cert r)

  module _ (pl : Platform) where
    abbrev pub piped : ServerState → Credential → Decided
    piped st c =
        run_access_pipeline pl (pipeline_config a view c.bearer) now st.pipeline (c.leaf ∷ c.rest)

    unfoldable pub with_credential : ServerState → Credential → Option AuthError → Answer
    with_credential st c (some e) = (st, refused e)
    with_credential st c none =
        let d = piped st c in after_pipeline (record st { pipeline = d.0 }) c d.1 d.1.denied

    unfoldable pub with_resolution : ServerState → Resolution → Answer
    with_resolution st (fails e) = (st, refused e)
    with_resolution st (presents c) = with_credential st c (check_chain_trust a now view c)

    unfoldable pub decide : ServerState → Answer
    decide st = with_resolution st (resolve_credential a now view)
