-- ===== src/Admission/Decide.antt =====
-- decision.go: `CheckAdmission`, the guards composed in the order of the function, with the operations of
-- clc.go and the nonce cache between them. A nil certificate, which the function refuses at once, is left out.
use Prim.Native.String.{◌++◌ as append}
use aic_verifier.Prelude.{
  ℕ, String, Bool, true, false, not, ◌&&◌, Option, none, some, List, [], ◌++◌, is_some,
  if◌then◌else◌,
}
use aic_verifier.Model.{Cert, Capability, Aic, PrincipalAuthorization, Pki, Fallible, value, error}
use aic_verifier.Nonce.{check_and_add}
use aic_verifier.DelegationAuth.{Crypto, is_empty}
use aic_verifier.Clc.{Semantics, decision_grants}
use aic_verifier.Clc.Evaluation.{OperationRefusal, OperationOutcome, evaluate_operations}
use aic_verifier.Admission.{
  AdmissionConfig, AdmissionResult, World, Outcome, Reason, aic_parse,
  principal_authorization_parse, principal_authorization_required, operation_refused, nonce_replay,
  refusal, stage, refuse_if, ◌>>>◌,
}
use aic_verifier.Admission.Guards.{
  ou_fallback_principal, refreshed_authorization, check_fields, check_pa_constraints,
  check_aic_constraints, unknown_constraints, check_declarations, check_required, check_mode,
}
use aic_verifier.Admission.Delegated.{check_delegation}
use aic_verifier.Admission.Effective.{Effective, effective, not_effective, effective_caps_of}

abbrev pub presents_nonce : AdmissionConfig → Option Aic → Bool
presents_nonce cfg none = false
presents_nonce cfg (some aic) =
    not (is_empty aic.delegation_authorization.nonce) && cfg.has_nonce_cache

abbrev pub admitted_uid : Cert → Option Aic → String
admitted_uid cert none = ou_fallback_principal cert
admitted_uid cert (some aic) = aic.principal_uid.text

module _ (p : Pki) (s : Semantics) (k : Crypto) (cfg : AdmissionConfig) where
  -- the certificate's identity that owns a nonce
  abbrev pub nonce_scope : Cert → String
  nonce_scope cert = append cert.issuer (append "/" (p.serial_decimal cert.serial_number))

  -- the nonce cache's turn: the new state, and whether the certificate may go on
  unfoldable pub use_nonce : World → ℕ → Cert → Option Aic → World × Bool
  use_nonce w now cert none = (w, true)
  use_nonce w now cert (some aic) =
      let added =
        check_and_add w.nonces now (nonce_scope cert) aic.delegation_authorization.nonce in
      if presents_nonce cfg (some aic)
      then (record { nonces = added.0; audit = w.audit }, added.1)
      else (w, true)

  module _ (now : ℕ) (cert : Cert) where
    -- the result while the stages pass
    abbrev pub admitted :
        Option Aic
        → Option PrincipalAuthorization
        → OperationOutcome
        → List Capability
        → AdmissionResult
    admitted aic pa ops caps = record {
      refused = none;
      aic = aic;
      principal_authorization = pa;
      principal_uid = admitted_uid cert aic;
      effective_caps = caps;
      operation_decisions = ops.decisions;
    }

    -- an undecidable operation is refused without a trace of the decisions before it
    unfoldable pub operation_refusal :
        Option Aic → Option PrincipalAuthorization → OperationOutcome → Reason → AdmissionResult
    operation_refusal aic pa ops r = record (admitted aic pa ops []) { refused = some r }

    unfoldable pub grant_effective :
        Option Aic → Option PrincipalAuthorization → OperationOutcome → World → Effective → Outcome
    grant_effective aic pa ops w (not_effective r) = (w, refusal r)
    grant_effective aic pa ops w (effective caps) = (w, admitted aic pa ops caps)

    unfoldable pub after_nonce :
        Option Aic → Option PrincipalAuthorization → OperationOutcome → World × Bool → Outcome
    after_nonce aic pa ops (w, false) = (w, refusal nonce_replay)
    after_nonce aic pa ops (w, true) = grant_effective aic pa ops w (effective_caps_of p cfg aic pa)

    unfoldable pub after_operations :
        World → Option Aic → Option PrincipalAuthorization → OperationOutcome → Outcome
    after_operations w aic pa ops =
        stage w (check_mode p cfg aic pa >>> check_delegation p cfg k now cert aic)
          (after_nonce aic pa ops (use_nonce w now cert aic))

    unfoldable pub decide_operations :
        World → Option Aic → Option PrincipalAuthorization → OperationOutcome → Outcome
    decide_operations w aic pa ops = elim ops.refusal [
      | none ↦ after_operations w aic pa ops
      | some (OperationRefusal.undecidable id) ↦
          (w, refusal (operation_refused (OperationRefusal.undecidable id)))
      | some (OperationRefusal.context_stale id) ↦
          (w, operation_refusal aic pa ops (operation_refused (OperationRefusal.context_stale id)))
      | some (OperationRefusal.denied id) ↦
          (w, operation_refusal aic pa ops (operation_refused (OperationRefusal.denied id)))
      | some (OperationRefusal.obligation_unknown id) ↦ (
        w,
        operation_refusal aic pa ops (operation_refused (OperationRefusal.obligation_unknown id)),
      )
      | some (OperationRefusal.unresolved id) ↦
          (w, operation_refusal aic pa ops (operation_refused (OperationRefusal.unresolved id)))
    ]

    -- the state once the unknown constraint types are logged
    abbrev pub logged : World → Option Aic → World
    logged w aic = record { nonces = w.nonces; audit = w.audit ++ unknown_constraints p cfg aic }

    abbrev pub operations_of : Option Aic → Option PrincipalAuthorization → OperationOutcome
    operations_of aic pa =
        evaluate_operations p s cfg.operations now aic pa (decision_grants p s aic pa)
          cfg.operations.operations

    unfoldable pub after_constraints : World → Option Aic → Option PrincipalAuthorization → Outcome
    after_constraints w aic pa =
        stage w (check_declarations p cfg aic >>> check_required p cfg aic pa)
          (decide_operations w aic pa (operations_of aic pa))

    -- `own` is the authorization that the certificate presents, `pa` the one in force
    unfoldable pub after_parse :
        World → Option Aic → Option PrincipalAuthorization → Option PrincipalAuthorization → Outcome
    after_parse w aic own pa =
        stage w
          (refuse_if (cfg.require_user_permission && not (is_some own))
              principal_authorization_required
            >>> check_pa_constraints p cfg now pa
            >>> check_aic_constraints p cfg now aic)
          (after_constraints (logged w aic) aic pa)

    unfoldable pub with_own :
        World → Option Aic → Fallible (Option PrincipalAuthorization) → Outcome
    with_own w aic error = (w, refusal principal_authorization_parse)
    with_own w aic (value own) = after_parse w aic own (refreshed_authorization p cfg cert own)

    unfoldable pub with_aic : World → Fallible (Option Aic) → Outcome
    with_aic w error = (w, refusal aic_parse)
    with_aic w (value aic) =
        stage w (check_fields p cfg aic) (with_own w aic (p.parse_user_permission cert))

    unfoldable pub check_admission : World → Outcome
    check_admission w = with_aic w (p.parse_aic cert)
