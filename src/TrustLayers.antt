-- ===== src/TrustLayers.antt =====
-- trust_model.go: `VerifyTrustLayers`, the layered entry point beside the access pipeline.
pub mod Plain
pub mod Agreement
use aic_verifier.Prelude.{
  ℕ, String, Bool, true, false, Option, none, some, List, [], ◌∷◌, if◌then◌else◌,
}
use aic_verifier.Model.{Cert, Aic}
use aic_verifier.Admission.{AdmissionConfig, AdmissionResult, Outcome, Reason}
use aic_verifier.Admission.Decide.{check_admission}
use aic_verifier.Revocation.Ocsp.{Entries}
use aic_verifier.Pipeline.{
  PipelineConfig, PipelineState, PipelineResult, Platform, PolicyServer, PipelineCheck,
  check_full_chain, check_leaf_only, DenyReason, nil_config, no_certificate, admission_refused,
  policy_server_refused, deny, admission_config,
}
use aic_verifier.Pipeline.Status.{check_cert_validity, check_revocation, first, or_else}
use aic_verifier.Pipeline.Identity.{roles_of, check_roles}
use aic_verifier.Pipeline.Capabilities.{agent_id_of}
use aic_verifier.Pipeline.Run.{Decided}

abbrev pub or_then : Option DenyReason → Option DenyReason → Option DenyReason
or_then none d = d
or_then (some r) d = some r

unfoldable pub check_validities : ℕ → List Cert → Option DenyReason
check_validities now [] = none
check_validities now (c ∷ cs) = or_then (check_cert_validity now c) (check_validities now cs)

-- the literal of trust_model.go has no credential bundle
unfoldable pub layer2_config : PipelineConfig → AdmissionConfig
unfolding admission_config
layer2_config cfg = record (admission_config cfg) { credential_bundle = none }

module _ (pl : Platform) (cfg : PipelineConfig) (now : ℕ) where
  -- none for Verified
  unfoldable pub verify_layer1 : List Cert → Option DenyReason
  unfolding check_validities
  verify_layer1 [] = some no_certificate
  verify_layer1 (cert ∷ rest) =
      or_then (check_validities now (cert ∷ rest)) (check_roles pl cfg cert)

  unfoldable pub verify_layer2 : PipelineState → Cert → Outcome
  verify_layer2 st cert =
      check_admission pl.pki pl.semantics pl.crypto (layer2_config cfg) now cert st.world

  unfoldable pub check_revocations : Entries → List Cert → Entries × Option DenyReason
  check_revocations es [] = (es, none)
  check_revocations es (cert ∷ rest) =
      let this = check_revocation pl cfg now es cert (first rest) in
      or_else pl cfg now this.1 this.0 (check_revocations this.0 rest)

  unfoldable pub check_online : Cert → Option DenyReason
  check_online leaf = elim cfg.policy_server [
    | none ↦ none
    | some server ↦
        if server.check_online leaf none then none else some (policy_server_refused server.name)
  ]

  abbrev pub then_online : Cert → Entries × Option DenyReason → Entries × Option DenyReason
  then_online leaf (es, none) = (es, check_online leaf)
  then_online leaf (es, some r) = (es, some r)

  unfoldable pub verify_layer3 :
      PipelineCheck → Entries → Cert → List Cert → Entries × Option DenyReason
  unfolding check_revocations check_online
  verify_layer3 check_leaf_only es leaf rest =
      then_online leaf (check_revocation pl cfg now es leaf none)
  verify_layer3 check_full_chain es leaf rest =
      then_online leaf (check_revocations es (leaf ∷ rest))

  -- only these parts of the result are set
  unfoldable pub layered : Cert → AdmissionResult → PipelineResult
  layered cert admit = record {
    denied = none;
    roles = roles_of pl cfg cert;
    principal = admit.principal_uid;
    serial = pl.pki.serial_text cert.serial_number;
    agent_id = agent_id_of admit.aic;
    spiffe_id = "";
    aic = none;
    principal_authorization = none;
    clc_verdict = none;
    clc_reason = "";
    clc_unresolved = [];
    operation_decisions = [];
  }

  unfoldable pub after_layer3 :
      PipelineState → Cert → AdmissionResult → Entries × Option DenyReason → Decided
  after_layer3 st cert admit (es, some r) = (record st { ocsp = es }, deny r)
  after_layer3 st cert admit (es, none) = (record st { ocsp = es }, layered cert admit)

  unfoldable pub after_layer2 :
      PipelineState → Cert → List Cert → AdmissionResult → Option Reason → Decided
  after_layer2 st cert rest admit (some r) = (st, deny (admission_refused r))
  after_layer2 st cert rest admit none =
      after_layer3 st cert admit (verify_layer3 cfg.check_scope st.ocsp cert rest)

  unfoldable pub after_layer1 : PipelineState → Cert → List Cert → Option DenyReason → Decided
  unfolding verify_layer2
  after_layer1 st cert rest (some r) = (st, deny r)
  after_layer1 st cert rest none =
      let o = verify_layer2 st cert in
      after_layer2 (record st { world = o.0 }) cert rest o.1 o.1.refused

unfoldable pub verify_trust_layers :
    Platform → Option PipelineConfig → ℕ → PipelineState → List Cert → Decided
verify_trust_layers pl none now st chain = (st, deny nil_config)
verify_trust_layers pl (some cfg) now st [] = (st, deny no_certificate)
verify_trust_layers pl (some cfg) now st (cert ∷ rest) =
    after_layer1 pl cfg now st cert rest (verify_layer1 pl cfg now (cert ∷ rest))
