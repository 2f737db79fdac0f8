-- ===== src/Pipeline/Kept.antt =====
-- pipeline.go: the stages after the admission leave the state of the admission alone.
use aic_verifier.Prelude.{
  ℕ, ◌≡◌, refl, ◌∙◌, String, Bool, true, false, Option, none, some, List, [], ◌∷◌, arith,
  Bool-cases, inl, inr, if◌then◌else◌,
}
use aic_verifier.Model.{Cert, Capability, Aic, PrincipalAuthorization, Fallible, value, error}
use aic_verifier.Capability.{required_cap_unserved}
use aic_verifier.Parameters.{ParameterValidatorRegistry}
use aic_verifier.Admission.{AdmissionResult}
use aic_verifier.Pipeline.{
  PipelineConfig, PipelineState, Platform, DenyReason, PluginDecision, plugin_allow, plugin_deny,
  plugin_bypass, PluginResult, Plugin, PluginRegistry, CapabilityRegistry, PluginAuditEntry,
  log_plugin_decision,
}
use aic_verifier.Pipeline.Capabilities.{
  Step, record_risk_violation, refused_parameter, first_overflow, check_parameters,
  first_unregistered, refused_unregistered, check_registered, after_plugin, without_plugin,
  run_plugin, run_plugins, go_on,
}

abbrev pub Keeps : PipelineState → PipelineState → Type 0
Keeps st st' = st'.world ≡ st.world

pub log-Keeps :
    (has_logger : Bool) (e : PluginAuditEntry) (st : PipelineState)
    → Keeps st (log_plugin_decision has_logger e st)
unfolding log_plugin_decision
log-Keeps true e st = refl
log-Keeps false e st = refl

module _ (pl : Platform) (cfg : PipelineConfig) (now : ℕ) (cert : Cert) where
  risk-Keeps :
      (signal : String) (st : PipelineState)
      → Keeps st (record_risk_violation pl cfg now cert signal st)
  unfolding record_risk_violation
  risk-Keeps signal st = elim (Bool-cases cfg.has_risk_monitor) [
    | inl on ↦ ground (arith, on)
    | inr off ↦ ground (arith, off)
  ]

  noted_risk-Keeps :
      (signal : String) (e : PluginAuditEntry) (st : PipelineState)
      → Keeps st (
          record_risk_violation pl cfg now cert signal
            (log_plugin_decision cfg.has_audit_logger e st))
  noted_risk-Keeps signal e st =
      risk-Keeps signal (log_plugin_decision cfg.has_audit_logger e st)
      ∙ log-Keeps cfg.has_audit_logger e st

  module _ (admit : AdmissionResult) where
    refused_parameter-Keeps :
        (st : PipelineState) (c : Option Capability)
        → Keeps st (refused_parameter pl cfg now cert admit st c).0
    refused_parameter-Keeps st none = refl
    refused_parameter-Keeps st (some c) = noted_risk-Keeps "parameter_overflow" _ st

    pub check_parameters-Keeps :
        (st : PipelineState) → Keeps st (check_parameters pl cfg now cert admit st).0
    unfolding check_parameters
    check_parameters-Keeps st = go cfg.parameter_validators admit.aic admit.principal_authorization
      where
        go :
            (v : Option ParameterValidatorRegistry) (a : Option Aic)
            (pa : Option PrincipalAuthorization)
            → Keeps st
                (elim v as (λ _. Step) [
                  | none ↦ (st, none)
                  | some reg ↦ elim a [
                    | none ↦ (st, none)
                    | some aic ↦ elim pa [
                      | none ↦ (st, none)
                      | some granted ↦
                          refused_parameter pl cfg now cert admit st
                            (first_overflow pl cfg now cert admit reg granted)
                    ]
                  ]
                ]).0
        go none a pa = refl
        go (some reg) none pa = refl
        go (some reg) (some aic) none = refl
        go (some reg) (some aic) (some granted) =
            refused_parameter-Keeps st (first_overflow pl cfg now cert admit reg granted)

    refused_unregistered-Keeps :
        (st : PipelineState) (version : ℕ) (c : Option Capability)
        → Keeps st (refused_unregistered pl cfg now cert admit st version c).0
    refused_unregistered-Keeps st version none = refl
    refused_unregistered-Keeps st version (some c) = noted_risk-Keeps "unregistered_capability" _ st

    pub check_registered-Keeps :
        (st : PipelineState) (version : ℕ)
        → Keeps st (check_registered pl cfg now cert admit st version).0
    unfolding check_registered
    check_registered-Keeps st version = go cfg.capability_registry
      where
        go :
            (r : Option CapabilityRegistry)
            → Keeps st
                (elim r as (λ _. Step) [
                  | none ↦ (st, none)
                  | some reg ↦
                      if reg.enabled
                      then refused_unregistered pl cfg now cert admit st version
                          (first_unregistered pl cfg now cert admit reg)
                      else (st, none)
                ]).0
        go none = refl
        go (some reg) = elim (Bool-cases reg.enabled) [
          | inr off ↦ ground (arith, off)
          | inl on ↦ ground (
            arith,
            on,
            refused_unregistered-Keeps st version (first_unregistered pl cfg now cert admit reg),
          )
        ]

    module _ (roles : List String) (version : ℕ) where
      after_plugin-Keeps :
          (st : PipelineState) (c : Capability) (r : Fallible PluginResult)
          → Keeps st (after_plugin pl cfg now cert admit roles version st c r).0
      unfolding after_plugin
      after_plugin-Keeps st c error = log-Keeps cfg.has_audit_logger _ st
      after_plugin-Keeps st c (value r) = go r.decision
        where
          go :
              (d : PluginDecision)
              → Keeps st
                  (after_plugin pl cfg now cert admit roles version st c
                    (value (record r { decision = d }))).0
          go plugin_deny = noted_risk-Keeps "plugin_deny" _ st
          go plugin_allow = log-Keeps cfg.has_audit_logger _ st
          go plugin_bypass = log-Keeps cfg.has_audit_logger _ st

      without_plugin-Keeps :
          (st : PipelineState) (c : Capability) (needed : Bool)
          → Keeps st (without_plugin pl cfg now cert admit roles version st c needed).0
      unfolding without_plugin
      without_plugin-Keeps st c true = log-Keeps cfg.has_audit_logger _ st
      without_plugin-Keeps st c false = log-Keeps cfg.has_audit_logger _ st

      run_plugin-Keeps :
          (st : PipelineState) (c : Capability) (q : Option Plugin)
          → Keeps st (run_plugin pl cfg now cert admit roles version st c q).0
      unfolding run_plugin
      run_plugin-Keeps st c none =
          without_plugin-Keeps st c (required_cap_unserved pl.pki cfg.required_capabilities c)
      run_plugin-Keeps st c (some q) = after_plugin-Keeps st c _

      go_on-Keeps :
          (st : PipelineState) (d : Option DenyReason) (st1 : PipelineState) (next : Step)
          → Keeps st st1
          → Keeps st1 next.0
          → Keeps st (go_on pl cfg now cert admit roles version d st1 next).0
      go_on-Keeps st none st1 next h k = k ∙ h
      go_on-Keeps st (some r) st1 next h k = h

      pub run_plugins-Keeps :
          (find : PluginRegistry) (st : PipelineState) (cs : List Capability)
          → Keeps st (run_plugins pl cfg now cert admit roles version find st cs).0
      unfolding run_plugins
      run_plugins-Keeps find st [] = refl
      run_plugins-Keeps find st (c ∷ cs) =
          let this = run_plugin pl cfg now cert admit roles version st c (find c.scheme_id) in
          go_on-Keeps st this.1 this.0 _ (run_plugin-Keeps st c (find c.scheme_id))
            (run_plugins-Keeps find this.0 cs)
