-- ===== src/TrustLayers/Plain.antt =====
-- trust_model.go and pipeline.go: configurations in which nothing stands that only one of the two entry points looks at.
use aic_verifier.Prelude.{
  ℕ, ◌≡◌, refl, ap, ◌∙◌, sym, false, Option, none, some, List, [], ◌∷◌, arith,
}
use aic_verifier.Model.{Cert}
use aic_verifier.Admission.{AdmissionResult}
use aic_verifier.Revocation.Ocsp.{Entries}
use aic_verifier.Pipeline.{
  PipelineConfig, PipelineState, Platform, check_full_chain, DenyReason, admission_config,
}
use aic_verifier.Pipeline.Status.{
  check_cert_validity, check_revocation, check_cert, check_chain, check_scoped, check_status, first,
  or_else,
}
use aic_verifier.Pipeline.Identity.{check_roles, check_spiffe, check_offline, spiffe_required}
use aic_verifier.Pipeline.Capabilities.{check_parameters, resolve_plugins, check_registered}
use aic_verifier.Pipeline.Run.{granted, then_step, after_admission, check_identity}
use aic_verifier.TrustLayers.{or_then, check_validities, layer2_config, check_revocations}

-- nothing is configured that only one of the two looks at
pub record IsPlain (pl : Platform) (cfg : PipelineConfig) : Type 0 where
  pub full_chain : cfg.check_scope ≡ check_full_chain
  pub no_spiffe : spiffe_required pl cfg ≡ false
  pub no_limit : cfg.offline_max_cert_lifetime ≡ 0
  pub no_bundle : cfg.credential_bundle ≡ none
  pub no_validators : cfg.parameter_validators ≡ none
  pub no_registry : cfg.capability_registry ≡ none
  pub no_plugins : cfg.plugin_registry ≡ none
  pub no_resolver : cfg.capability_plugin_resolver ≡ none
  pub no_server : cfg.policy_server ≡ none

pub or_then-none : (a b : Option DenyReason) → or_then a b ≡ none → (a ≡ none) × (b ≡ none)
or_then-none none b h = (refl, h)
or_then-none (some r) b h = absurd (ground (arith, h))

module _ (pl : Platform) (cfg : PipelineConfig) (now : ℕ) where
  pub or_else-none :
      (d : Option DenyReason) (es : Entries) (next : Entries × Option DenyReason)
      → (or_else pl cfg now d es next).1 ≡ none
      → (d ≡ none) × (or_else pl cfg now d es next ≡ next)
  or_else-none none es next h = (refl, refl)
  or_else-none (some r) es next h = absurd (ground (arith, h))

  pub check_chain-revocations :
      (es : Entries) (chain : List Cert)
      → check_validities now chain ≡ none
      → check_chain pl cfg now es chain ≡ check_revocations pl cfg now es chain
  unfolding check_validities check_chain check_revocations check_cert
  check_chain-revocations es [] h = refl
  check_chain-revocations es (c ∷ cs) h =
      let (valid, later) = or_then-none (check_cert_validity now c) (check_validities now cs) h in
      let revocation = check_revocation pl cfg now es c (first cs) in
      let same : check_cert pl cfg now es c (first cs) ≡ revocation =
        ap (λ d. or_else pl cfg now d es revocation) valid in
      rw same (
        ap (λ next. or_else pl cfg now revocation.1 revocation.0 next)
          (check_chain-revocations revocation.0 cs later))

  pub check_chain-valid :
      (es : Entries) (chain : List Cert)
      → (check_chain pl cfg now es chain).1 ≡ none
      → check_validities now chain ≡ none
  unfolding check_validities check_chain check_cert
  check_chain-valid es [] h = refl
  check_chain-valid es (c ∷ cs) h =
      let this = check_cert pl cfg now es c (first cs) in
      let (one, e) = or_else-none this.1 this.0 (check_chain pl cfg now this.0 cs) h in
      let (valid, e') =
        or_else-none (check_cert_validity now c) es (check_revocation pl cfg now es c (first cs))
          one in
      rw valid
        (check_chain-valid this.0 cs (sym (ap (λ (x : Entries × Option DenyReason). x.1) e) ∙ h))

  module _ (plain : IsPlain pl cfg) (cert : Cert) where
    pub same_config : layer2_config cfg ≡ admission_config cfg
    unfolding layer2_config admission_config
    same_config = ground (arith, plain.no_bundle)

    pub same_status :
        (es : Entries) (rest : List Cert)
        → check_status pl cfg now es cert rest ≡ check_chain pl cfg now es (cert ∷ rest)
    unfolding check_status check_scoped
    same_status es rest = ap (λ s. check_scoped pl cfg now s es cert rest) plain.full_chain

    no_spiffe_check : check_spiffe pl cfg cert ≡ none
    unfolding check_spiffe
    no_spiffe_check = ground (arith, plain.no_spiffe)

    no_offline_check : check_offline pl cfg now cert ≡ none
    unfolding check_offline
    no_offline_check = ground (arith, plain.no_limit)

    pub only_roles : check_roles pl cfg cert ≡ none → check_identity pl cfg now cert ≡ none
    unfolding check_identity
    only_roles h = ground (arith, h, no_spiffe_check, no_offline_check)

    pub after_admission-plain :
        (admit : AdmissionResult) (st : PipelineState)
        → after_admission pl cfg now cert admit st ≡ (st, granted pl cfg now cert admit)
    unfolding after_admission check_parameters check_registered resolve_plugins then_step
    after_admission-plain admit st =
        ground (arith, plain.no_validators, plain.no_registry, plain.no_plugins, plain.no_resolver)
