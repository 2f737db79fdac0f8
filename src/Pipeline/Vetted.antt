-- ===== src/Pipeline/Vetted.antt =====
-- pipeline.go: what holds of each capability that has passed the stages after the admission.
use aic_verifier.Prelude.{
  ℕ, ◌≡◌, ◌≢◌, ◌⊎◌, inl, inr, refl, String, Bool, true, false, not, ◌&&◌, Option, none, some, List,
  [], ◌∷◌, any-false, find?-none, Memᴰ, arith,
}
use aic_verifier.Model.{Cert, Capability, Aic, PrincipalAuthorization, Fallible, value, error}
use aic_verifier.Capability.{aic_capability_matches, required_cap_unserved}
use aic_verifier.Parameters.{ParameterValidatorRegistry, validate_capability}
use aic_verifier.Admission.{AdmissionResult}
use aic_verifier.Pipeline.{
  PipelineConfig, PipelineState, Platform, DenyReason, plugin_deny, PluginResult, Plugin,
  PluginRegistry, CapabilityRegistry,
}
use aic_verifier.Pipeline.Capabilities.{
  Step, refused_parameter, overflows, first_overflow, check_parameters, first_unregistered,
  is_unregistered, refused_unregistered, check_registered, after_plugin, without_plugin, run_plugin,
  run_plugins, go_on, plugin_context,
}

module _ (pl : Platform) (cfg : PipelineConfig) (now : ℕ) (cert : Cert)
    (admit : AdmissionResult) where
  refused_parameter-none :
      (st : PipelineState) (c : Option Capability)
      → (refused_parameter pl cfg now cert admit st c).1 ≡ none
      → c ≡ none
  refused_parameter-none st none h = refl
  refused_parameter-none st (some c) h = absurd (ground (arith, h))

  refused_unregistered-none :
      (st : PipelineState) (version : ℕ) (c : Option Capability)
      → (refused_unregistered pl cfg now cert admit st version c).1 ≡ none
      → c ≡ none
  refused_unregistered-none st version none h = refl
  refused_unregistered-none st version (some c) h = absurd (ground (arith, h))

  -- a declaration is within each grant that it matches
  pub parameters_within :
      (st : PipelineState) (reg : ParameterValidatorRegistry) (aic : Aic)
      (pa : PrincipalAuthorization) (c granted : Capability)
      → (check_parameters pl cfg now cert admit st).1 ≡ none
      → cfg.parameter_validators ≡ some reg
      → admit.aic ≡ some aic
      → admit.principal_authorization ≡ some pa
      → Memᴰ c admit.effective_caps
      → Memᴰ granted pa.grants
      → aic_capability_matches pl.pki (c ∷ []) granted.capability_id ≡ true
      → validate_capability reg granted c ≡ true
  unfolding check_parameters
  parameters_within st reg aic pa c granted h a b d m n matches =
      let found = first_overflow pl cfg now cert admit reg pa in
      let none_found : found ≡ none =
        refused_parameter-none st found (ground (arith, h, a, b, d)) in
      let within =
        find?-none (overflows pl cfg now cert admit reg pa) admit.effective_caps c none_found m in
      let covered =
        any-false
          (λ (g : Capability).
            aic_capability_matches pl.pki (c ∷ []) g.capability_id
            && not (validate_capability reg g c))
          pa.grants granted within n in
      ground (arith, covered, matches)

  pub all_registered :
      (st : PipelineState) (version : ℕ) (reg : CapabilityRegistry) (c : Capability)
      → (check_registered pl cfg now cert admit st version).1 ≡ none
      → cfg.capability_registry ≡ some reg
      → reg.enabled ≡ true
      → Memᴰ c admit.effective_caps
      → reg.validate_capability (pl.pki.full_id c) ≡ true
  unfolding check_registered
  all_registered st version reg c h a on m =
      let found = first_unregistered pl cfg now cert admit reg in
      let none_found : found ≡ none =
        refused_unregistered-none st version found (ground (arith, h, a, on)) in
      let known =
        find?-none (is_unregistered pl cfg now cert admit reg) admit.effective_caps c none_found
          m in
      ground (arith, known)

  module _ (roles : List String) (version : ℕ) (find : PluginRegistry) where
    -- of a scheme without a plugin, which the gateway ignores, and not required; or decided by its plugin,
    -- and not denied
    abbrev pub NotDenied : Capability → Type 0
    NotDenied c =
        ((find c.scheme_id ≡ none)
          × (required_cap_unserved pl.pki cfg.required_capabilities c ≡ false))
        ⊎ ((q : Plugin) × (r : PluginResult) × ((find c.scheme_id ≡ some q)
              × ((q c (plugin_context pl cfg now cert admit roles version c) ≡ value r)
                  × (r.decision ≢ plugin_deny))))

    after_plugin-none :
        (st : PipelineState) (c : Capability) (x : Fallible PluginResult)
        → (after_plugin pl cfg now cert admit roles version st c x).1 ≡ none
        → (r : PluginResult) × ((x ≡ value r) × (r.decision ≢ plugin_deny))
    unfolding after_plugin
    after_plugin-none st c error h = absurd (ground (arith, h))
    after_plugin-none st c (value r) h = (r, (refl, (λ e. ground (arith, h, e))))

    without_plugin-none :
        (st : PipelineState) (c : Capability) (needed : Bool)
        → (without_plugin pl cfg now cert admit roles version st c needed).1 ≡ none
        → needed ≡ false
    unfolding without_plugin
    without_plugin-none st c true h = absurd (ground (arith, h))
    without_plugin-none st c false h = refl

    run_plugin-NotDenied :
        (st : PipelineState) (c : Capability) (found : Option Plugin)
        → find c.scheme_id ≡ found
        → (run_plugin pl cfg now cert admit roles version st c found).1 ≡ none
        → NotDenied c
    unfolding run_plugin
    run_plugin-NotDenied st c none e h = inl (e, without_plugin-none st c _ h)
    run_plugin-NotDenied st c (some q) e h =
        let (r, (answered, allowed)) = after_plugin-none st c _ h in
        inr (q, r, (e, (answered, allowed)))

    go_on-none :
        (d : Option DenyReason) (st : PipelineState) (next : Step)
        → (go_on pl cfg now cert admit roles version d st next).1 ≡ none
        → (d ≡ none) × (next.1 ≡ none)
    go_on-none none st next h = (refl, h)
    go_on-none (some r) st next h = absurd (ground (arith, h))

    pub run_plugins-NotDenied :
        (st : PipelineState) (cs : List Capability) (c : Capability)
        → (run_plugins pl cfg now cert admit roles version find st cs).1 ≡ none
        → Memᴰ c cs
        → NotDenied c
    unfolding run_plugins
    run_plugins-NotDenied st [] c h m = elim m [ ]
    run_plugins-NotDenied st (d ∷ cs) c h m =
        let this = run_plugin pl cfg now cert admit roles version st d (find d.scheme_id) in
        let (one, others) = go_on-none this.1 this.0 _ h in
        elim m [
          | Memᴰ.head same ↦ rw same (run_plugin-NotDenied st d (find d.scheme_id) refl one)
          | Memᴰ.tail n ↦ run_plugins-NotDenied this.0 cs c others n
        ]
