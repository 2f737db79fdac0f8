-- ===== src/Pipeline/Capabilities.antt =====
-- pipeline.go: the capabilities that an admission hands on, against the bounds of their parameters, the
-- registered capabilities and the plugins; the operation layer of the plugins.
use aic_verifier.Prelude.{
  ℕ, ◌/◌, String, Bool, true, false, not, ◌&&◌, Option, none, some, List, [], ◌∷◌, any, find?, ◌==◌,
  str_eq, if◌then◌else◌,
}
use aic_verifier.Model.{Cert, Capability, Aic, PrincipalAuthorization, Fallible, value, error}
use aic_verifier.Capability.{aic_capability_matches, required_cap_unserved}
use aic_verifier.Parameters.{ParameterValidatorRegistry, validate_capability}
use aic_verifier.Risk.{record_violation}
use aic_verifier.Admission.{AdmissionResult}
use aic_verifier.Pipeline.{
  PipelineConfig, PipelineState, Platform, DenyReason, parameter_boundary, not_registered, unserved,
  plugin_error, plugin_denied, plugin_allow, plugin_deny, plugin_bypass, PluginResult,
  PluginContext, Plugin, PluginRegistry, CapabilityRegistry, PluginAuditEntry, log_plugin_decision,
}

-- a step of the run: the state after it, and the reason if it refuses
abbrev pub Step : Type 0
Step = PipelineState × Option DenyReason

-- best effort: the agent's identifier, or the common name
unfoldable pub aic_agent_id : Platform → Cert → String
aic_agent_id pl cert = elim (pl.pki.parse_aic cert) [
  | error ↦ cert.common_name
  | value none ↦ cert.common_name
  | value (some aic) ↦ if str_eq aic.agent_id "" then cert.common_name else aic.agent_id
]

abbrev pub agent_id_of : Option Aic → String
agent_id_of none = ""
agent_id_of (some aic) = aic.agent_id

abbrev pub nanoseconds : ℕ
nanoseconds = 1000000000

module _ (pl : Platform) (cfg : PipelineConfig) (now : ℕ) (cert : Cert) where
  -- "" where there is no signature to hash
  unfoldable pub da_hash_from_aic : Option Aic → String
  da_hash_from_aic none = ""
  da_hash_from_aic (some aic) = elim aic.delegation_authorization.signature_value [
    | [] ↦ ""
    | b ∷ bs ↦ pl.hex (pl.pki.sha.sum (b ∷ bs))
  ]

  -- nothing where no monitor is configured
  unfoldable pub record_risk_violation : String → PipelineState → PipelineState
  unfolding aic_agent_id
  record_risk_violation signal st =
      if cfg.has_risk_monitor
      then record st {
        risk =
            (record_violation pl.equal_fold st.risk (now / nanoseconds)
              (record { agent_id = aic_agent_id pl cert; signal = signal; at_time = 0 })).0;
      }
      else st

  module _ (admit : AdmissionResult) where
    -- an entry for a capability: decision, level, hash of the delegation and version
    abbrev pub entry : Capability → String → String → String → ℕ → PluginAuditEntry
    entry c decision level da_hash version = record {
      scheme = c.scheme_id;
      capability_id = c.capability_id;
      decision = decision;
      client_cn = cert.common_name;
      principal = admit.principal_uid;
      level = level;
      da_hash = da_hash;
      policy_version = version;
    }

    abbrev pub noted : PluginAuditEntry → PipelineState → PipelineState
    noted e st = log_plugin_decision cfg.has_audit_logger e st

    -- a declaration that some grant which it matches does not cover
    abbrev pub overflows : ParameterValidatorRegistry → PrincipalAuthorization → Capability → Bool
    overflows reg pa declared =
        any
          (λ (granted : Capability).
            aic_capability_matches pl.pki (declared ∷ []) granted.capability_id
            && not (validate_capability reg granted declared))
          pa.grants

    abbrev pub first_overflow :
        ParameterValidatorRegistry → PrincipalAuthorization → Option Capability
    first_overflow reg pa = find? (overflows reg pa) admit.effective_caps

    abbrev pub refused_parameter : PipelineState → Option Capability → Step
    refused_parameter st none = (st, none)
    refused_parameter st (some c) = (
      record_risk_violation "parameter_overflow"
          (noted (entry c "deny" "WARN" "" cfg.policy_version) st),
      some (parameter_boundary c),
    )

    -- only where there are validators, an AIC and an authorization
    unfoldable pub check_parameters : PipelineState → Step
    unfolding find?
    check_parameters st = elim cfg.parameter_validators [
      | none ↦ (st, none)
      | some reg ↦ elim admit.aic [
        | none ↦ (st, none)
        | some aic ↦ elim admit.principal_authorization [
          | none ↦ (st, none)
          | some pa ↦ refused_parameter st (first_overflow reg pa)
        ]
      ]
    ]

    abbrev pub Resolved : Type 0
    Resolved = ℕ × Option PluginRegistry

    abbrev pub or_configured : ℕ × Option PluginRegistry → Resolved
    or_configured (v, none) = (cfg.policy_version, cfg.plugin_registry)
    or_configured (v, some reg) = ((if v == 0 then cfg.policy_version else v), some reg)

    -- the version and the registry of the plugins for the agent
    unfoldable pub resolve_plugins : Resolved
    resolve_plugins = elim cfg.capability_plugin_resolver [
      | none ↦ (cfg.policy_version, cfg.plugin_registry)
      | some resolve ↦ or_configured (resolve (agent_id_of admit.aic))
    ]

    abbrev pub is_unregistered : CapabilityRegistry → Capability → Bool
    is_unregistered reg c = not (reg.validate_capability (pl.pki.full_id c))

    abbrev pub first_unregistered : CapabilityRegistry → Option Capability
    first_unregistered reg = find? (is_unregistered reg) admit.effective_caps

    abbrev pub refused_unregistered : PipelineState → ℕ → Option Capability → Step
    refused_unregistered st version none = (st, none)
    refused_unregistered st version (some c) = (
      record_risk_violation "unregistered_capability"
          (noted (entry c "deny" "WARN" (da_hash_from_aic admit.aic) version) st),
      some (not_registered c),
    )

    unfoldable pub check_registered : PipelineState → ℕ → Step
    unfolding find?
    check_registered st version = elim cfg.capability_registry [
      | none ↦ (st, none)
      | some reg ↦
          if reg.enabled
          then refused_unregistered st version (first_unregistered reg)
          else (st, none)
    ]

    module _ (roles : List String) (version : ℕ) where
      abbrev pub plugin_entry : Capability → String → String → PluginAuditEntry
      plugin_entry c decision level = entry c decision level (da_hash_from_aic admit.aic) version

      abbrev pub plugin_context : Capability → PluginContext
      plugin_context c = record {
        agent_id = agent_id_of admit.aic;
        client_cn = cert.common_name;
        roles = roles;
        target = c.capability_id;
        http = cfg.http_facts;
      }

      unfoldable pub after_plugin : PipelineState → Capability → Fallible PluginResult → Step
      after_plugin st c error = (noted (plugin_entry c "error" "WARN") st, some (plugin_error c))
      after_plugin st c (value r) = elim r.decision [
        | plugin_deny ↦ (
          record_risk_violation "plugin_deny" (noted (plugin_entry c "deny" "WARN") st),
          some (plugin_denied c),
        )
        | plugin_allow ↦ (noted (plugin_entry c "allow" "INFO") st, none)
        | plugin_bypass ↦ (noted (plugin_entry c "allow" "INFO") st, none)
      ]

      -- a scheme without a plugin is ignored unless the request requires the capability
      unfoldable pub without_plugin : PipelineState → Capability → Bool → Step
      without_plugin st c true = (noted (plugin_entry c "deny" "WARN") st, some (unserved c))
      without_plugin st c false = (noted (plugin_entry c "ignore" "INFO") st, none)

      -- one turn of the loop
      unfoldable pub run_plugin : PipelineState → Capability → Option Plugin → Step
      unfolding after_plugin without_plugin
      run_plugin st c none =
          without_plugin st c (required_cap_unserved pl.pki cfg.required_capabilities c)
      run_plugin st c (some p) = after_plugin st c (p c (plugin_context c))

      abbrev pub go_on : Option DenyReason → PipelineState → Step → Step
      go_on none st next = next
      go_on (some r) st next = (st, some r)

      unfoldable pub run_plugins : PluginRegistry → PipelineState → List Capability → Step
      unfolding run_plugin
      run_plugins find st [] = (st, none)
      run_plugins find st (c ∷ cs) =
          let this = run_plugin st c (find c.scheme_id) in
          go_on this.1 this.0 (run_plugins find this.0 cs)

-- the operation layer: an error is told apart from a denial, and a scheme without a plugin is denied
unfoldable pub check_operation_capability :
    Option PluginRegistry → Option Capability → PluginContext → Fallible PluginResult
check_operation_capability none c ctx = error
check_operation_capability (some find) none ctx = error
check_operation_capability (some find) (some c) ctx = elim (find c.scheme_id) [
  | none ↦ value (record { decision = plugin_deny; reason = "fail-closed" })
  | some p ↦ p c ctx
]
