-- ===== src/Pipeline/Run.antt =====
-- pipeline.go: `RunAccessPipeline`, its stages in the order of the function.
use aic_verifier.Prelude.{ℕ, Option, none, some, List, [], ◌∷◌}
use aic_verifier.Model.{Cert}
use aic_verifier.Clc.Aggregate.{aggregate_clc_decisions}
use aic_verifier.Admission.{AdmissionResult, Reason}
use aic_verifier.Admission.Decide.{check_admission}
use aic_verifier.Revocation.Ocsp.{Entries}
use aic_verifier.Spiffe.{extract_spiffe_id_from_cert}
use aic_verifier.Pipeline.{
  PipelineConfig, PipelineState, PipelineResult, Platform, PluginRegistry, DenyReason,
  no_certificate, admission_refused, deny, admission_config,
}
use aic_verifier.Pipeline.Status.{check_status}
use aic_verifier.Pipeline.Identity.{roles_of, check_roles, check_spiffe, check_offline}
use aic_verifier.Pipeline.Capabilities.{
  Step, agent_id_of, check_parameters, resolve_plugins, check_registered, run_plugins,
}

abbrev pub Decided : Type 0
Decided = PipelineState × PipelineResult

-- the decisions that were made go into the refusal too
unfoldable pub deny_with_admission : Reason → AdmissionResult → PipelineResult
unfolding deny
deny_with_admission r admit = record (deny (admission_refused r)) {
  principal = admit.principal_uid;
  aic = admit.aic;
  principal_authorization = admit.principal_authorization;
  operation_decisions = admit.operation_decisions;
}

module _ (pl : Platform) (cfg : PipelineConfig) (now : ℕ) (cert : Cert) where
  unfoldable pub granted : AdmissionResult → PipelineResult
  granted admit =
      let (verdict, reason, left) = aggregate_clc_decisions admit.operation_decisions in
      record {
        denied = none;
        roles = roles_of pl cfg cert;
        principal = admit.principal_uid;
        serial = pl.pki.serial_text cert.serial_number;
        agent_id = agent_id_of admit.aic;
        spiffe_id = extract_spiffe_id_from_cert cert;
        aic = admit.aic;
        principal_authorization = admit.principal_authorization;
        clc_verdict = verdict;
        clc_reason = reason;
        clc_unresolved = left;
        operation_decisions = admit.operation_decisions;
      }

  -- go on to the next stage, or refuse with the state as the stage left it
  unfoldable pub then_step : Step → (PipelineState → Decided) → Decided
  then_step (st, some r) next = (st, deny r)
  then_step (st, none) next = next st

  abbrev pub plugins_of : AdmissionResult → Option PluginRegistry → ℕ → PipelineState → Step
  plugins_of admit none version st = (st, none)
  plugins_of admit (some find) version st =
      run_plugins pl cfg now cert admit (roles_of pl cfg cert) version find st admit.effective_caps

  -- the stages after the admission
  unfoldable pub after_admission : AdmissionResult → PipelineState → Decided
  after_admission admit st =
      let (version, plugins) = resolve_plugins pl cfg now cert admit in
      then_step (check_parameters pl cfg now cert admit st) λ st1.
        then_step (check_registered pl cfg now cert admit st1 version)
          λ st2. then_step (plugins_of admit plugins version st2) λ st3. (st3, granted admit)

  unfoldable pub with_admission : PipelineState → AdmissionResult → Option Reason → Decided
  with_admission st admit (some r) = (st, deny_with_admission r admit)
  with_admission st admit none = after_admission admit st

  unfoldable pub admit_client : PipelineState → Decided
  admit_client st =
      let o =
        check_admission pl.pki pl.semantics pl.crypto (admission_config cfg) now cert st.world in
      with_admission (record st { world = o.0 }) o.1 o.1.refused

  abbrev pub both : Option DenyReason → Option DenyReason → Option DenyReason
  both none d = d
  both (some r) d = some r

  unfoldable pub check_identity : Option DenyReason
  check_identity =
      both (check_roles pl cfg cert)
        (both (check_spiffe pl cfg cert) (check_offline pl cfg now cert))

  unfoldable pub after_status : PipelineState → Entries × Option DenyReason → Decided
  after_status st (es, some r) = (record st { ocsp = es }, deny r)
  after_status st (es, none) = then_step (record st { ocsp = es }, check_identity) admit_client

unfoldable pub run_access_pipeline :
    Platform → PipelineConfig → ℕ → PipelineState → List Cert → Decided
run_access_pipeline pl cfg now st [] = (st, deny no_certificate)
run_access_pipeline pl cfg now st (cert ∷ rest) =
    after_status pl cfg now cert st (check_status pl cfg now st.ocsp cert rest)
