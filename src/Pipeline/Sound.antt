-- ===== src/Pipeline/Sound.antt =====
-- pipeline.go: what a grant and a refusal of `RunAccessPipeline` mean.
use aic_verifier.Prelude.{
  ℕ, ◌-◌, ◌<◌, ◌≤◌, ◌≡◌, inl, inr, refl, ap, String, true, false, Option, none, some, List, [], ◌∷◌,
  Memᴰ, arith, str_eq, eq_iff, Bool-cases,
}
use aic_verifier.Model.{Cert, Capability, Aic, PrincipalAuthorization}
use aic_verifier.Capability.{aic_capability_matches}
use aic_verifier.Parameters.{ParameterValidatorRegistry, validate_capability}
use aic_verifier.Roles.{check_role}
use aic_verifier.Spiffe.{SpiffeId, extract_spiffe_id_from_cert, parse_spiffe_id}
use aic_verifier.Admission.Passed.{IsAdmitted}
use aic_verifier.Pipeline.{
  PipelineConfig, PipelineState, PipelineResult, Platform, PluginRegistry, CapabilityRegistry,
}
use aic_verifier.Pipeline.Identity.{
  is_empty, roles_of, check_roles, spiffe_required, is_allowed_id, check_parsed, check_spiffe,
  check_offline,
}
use aic_verifier.Pipeline.Capabilities.{resolve_plugins}
use aic_verifier.Pipeline.Run.{granted, run_access_pipeline}
use aic_verifier.Pipeline.Current.{ScopeCurrent, check_status-ScopeCurrent}
use aic_verifier.Pipeline.Granted.{IsGranted, pipeline-Stages, admission_of}
use aic_verifier.Pipeline.Vetted.{
  parameters_within, all_registered, run_plugins-NotDenied, NotDenied,
}

module _ (pl : Platform) (cfg : PipelineConfig) (now : ℕ) (st : PipelineState) (cert : Cert)
    (rest : List Cert) where
  -- Where access is granted, the certificates that the scope asks for (the client's, or the whole
  -- chain) are within their validity, not on a configured revocation list that is itself in force,
  -- and, where a responder check is configured, the answers that the run holds after the check of the
  -- certificate have the status good for it, in force at the time of the run or at the end of the
  -- check's turn, or the configured fallback accepts it.
  pub granted_current :
      IsGranted (run_access_pipeline pl cfg now st (cert ∷ rest))
      → ScopeCurrent pl cfg now cfg.check_scope st.ocsp cert rest
  granted_current h =
      check_status-ScopeCurrent pl cfg now st.ocsp cert rest
        (pipeline-Stages pl cfg now st cert rest h).status

  roles-allowed :
      check_roles pl cfg cert ≡ none
      → is_empty cfg.allow_roles ≡ false
      → check_role (roles_of pl cfg cert) cfg.allow_roles ≡ true
  unfolding check_roles
  roles-allowed h some_roles = ground (arith, h, some_roles)

  within_limit :
      check_offline pl cfg now cert ≡ none
      → 0 < cfg.offline_max_cert_lifetime
      → cert.not_after - now ≤ cfg.offline_max_cert_lifetime
  unfolding check_offline
  within_limit h on = ground (arith, h, on)

  -- the identity of the certificate, as the configuration demands it
  pub record Identified (id : String) : Type 0 where
    pub sid : SpiffeId
    pub present : str_eq id "" ≡ false
    pub parsed : parse_spiffe_id pl.to_lower pl.parse_url id ≡ some sid
    pub in_domain :
        str_eq cfg.spiffe_trust_domain "" ≡ false
        → sid.trust_domain ≡ pl.to_lower cfg.spiffe_trust_domain
    pub allowed : is_empty cfg.allowed_spiffe_ids ≡ false → is_allowed_id pl cfg id ≡ true

  check_parsed-Identified :
      (id : String) (r : Option SpiffeId)
      → str_eq id "" ≡ false
      → parse_spiffe_id pl.to_lower pl.parse_url id ≡ r
      → check_parsed pl cfg id r ≡ none
      → Identified id
  unfolding check_parsed
  check_parsed-Identified id none present e h = absurd (ground (arith, h))
  check_parsed-Identified id (some sid) present e h = record {
    sid = sid;
    present = present;
    parsed = e;
    in_domain = λ named.
        (eq_iff sid.trust_domain (pl.to_lower cfg.spiffe_trust_domain)).0
          (ground (arith, h, named));
    allowed = λ listed. ground (arith, h, listed);
  }

  spiffe-Identified :
      check_spiffe pl cfg cert ≡ none
      → spiffe_required pl cfg ≡ true
      → Identified (extract_spiffe_id_from_cert cert)
  unfolding check_spiffe
  spiffe-Identified h on =
      let id = extract_spiffe_id_from_cert cert in
      elim (Bool-cases (str_eq id "")) [
        | inl missing ↦ absurd (ground (arith, h, on, missing))
        | inr present ↦
            check_parsed-Identified id (parse_spiffe_id pl.to_lower pl.parse_url id) present refl
              (ground (arith, h, on, present))
      ]

  -- Where access is granted: a configured list of roles has one that the certificate has; where a SPIFFE
  -- identity is demanded the certificate has one that can be parsed, is in the configured trust domain
  -- and on the configured list; a configured offline limit holds; `CheckAdmission` admits the
  -- certificate in the state as it was, and the run leaves the admission's state, decisions and
  -- principal.
  pub granted_admitted :
      IsGranted (run_access_pipeline pl cfg now st (cert ∷ rest))
      → ((is_empty cfg.allow_roles ≡ false
            → check_role (roles_of pl cfg cert) cfg.allow_roles ≡ true)
          × (spiffe_required pl cfg ≡ true → Identified (extract_spiffe_id_from_cert cert))
          × (0 < cfg.offline_max_cert_lifetime
              → cert.not_after - now ≤ cfg.offline_max_cert_lifetime))
        × (IsAdmitted (admission_of pl cfg now cert st)
            × ((run_access_pipeline pl cfg now st (cert ∷ rest)).0.world
                ≡ (admission_of pl cfg now cert st).0)
            × ((run_access_pipeline pl cfg now st (cert ∷ rest)).1.operation_decisions
                ≡ (admission_of pl cfg now cert st).1.operation_decisions)
            × ((run_access_pipeline pl cfg now st (cert ∷ rest)).1.principal
                ≡ (admission_of pl cfg now cert st).1.principal_uid))
  unfolding granted
  granted_admitted h =
      let s = pipeline-Stages pl cfg now st cert rest h in
      (
        (roles-allowed s.allowed_roles, spiffe-Identified s.spiffe, within_limit s.offline),
        (
          s.is_admitted,
          s.kept,
          ap (λ (r : PipelineResult). r.operation_decisions) s.result,
          ap (λ (r : PipelineResult). r.principal) s.result,
        ),
      )

  -- Where access is granted, each capability that the admission hands on is, of an AIC with an
  -- authorization, within the bounds of each grant that it matches where there are validators; is
  -- registered where a registry is enabled; and where there are plugins was allowed or let pass by the
  -- plugin of its scheme, or is of a scheme without a plugin and not required by the configuration: the
  -- gateway ignores such a capability and does not serve it.
  pub granted_vetted :
      IsGranted (run_access_pipeline pl cfg now st (cert ∷ rest))
      → (c : Capability) → Memᴰ c (admission_of pl cfg now cert st).1.effective_caps
      → ((reg : ParameterValidatorRegistry) (aic : Aic) (pa : PrincipalAuthorization)
            (bound : Capability)
          → cfg.parameter_validators ≡ some reg
          → (admission_of pl cfg now cert st).1.aic ≡ some aic
          → (admission_of pl cfg now cert st).1.principal_authorization ≡ some pa
          → Memᴰ bound pa.grants
          → aic_capability_matches pl.pki (c ∷ []) bound.capability_id ≡ true
          → validate_capability reg bound c ≡ true)
        × ((reg : CapabilityRegistry)
            → cfg.capability_registry ≡ some reg
            → reg.enabled ≡ true
            → reg.validate_capability (pl.pki.full_id c) ≡ true)
        × ((find : PluginRegistry)
            → (resolve_plugins pl cfg now cert (admission_of pl cfg now cert st).1).1 ≡ some find
            → NotDenied pl cfg now cert
                (admission_of pl cfg now cert st).1
                (roles_of pl cfg cert)
                (resolve_plugins pl cfg now cert (admission_of pl cfg now cert st).1).0
                find
                c)
  granted_vetted h c m =
      let s = pipeline-Stages pl cfg now st cert rest h in
      let admit = (admission_of pl cfg now cert st).1 in
      (
        (λ reg aic pa bound v a b n matches.
            parameters_within pl cfg now cert admit s.entered reg aic pa c bound s.parameters v a b
              m n matches),
        (λ reg v on.
            all_registered pl cfg now cert admit s.registered.0
              (resolve_plugins pl cfg now cert admit).0 reg c s.registered.1 v on m),
        (λ find e.
            run_plugins-NotDenied pl cfg now cert admit (roles_of pl cfg cert)
              (resolve_plugins pl cfg now cert admit).0 find s.plugins.0 admit.effective_caps c
              (rw e at s.plugins.1) m),
      )
