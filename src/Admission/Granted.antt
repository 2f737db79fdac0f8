-- ===== src/Admission/Granted.antt =====
-- decision.go: the capabilities that an admission by `CheckAdmission` hands on, and the required ones.
use aic_verifier.Prelude.{
  ℕ, ◌≡◌, refl, ap, ◌∙◌, sym, true, false, not, ◌&&◌, Option, none, some, List, [], ◌∷◌, arith, all,
  any, filter, ltb, length, String, Bool-cases, inl, inr, all-rejected, Memᴰ-filter, Memᴰ,
}
use aic_verifier.Model.{Cert, Capability, Aic, PrincipalAuthorization, Pki, value}
use aic_verifier.Capability.{aic_capability_matches, effective_capabilities}
use aic_verifier.DelegationAuth.{Crypto}
use aic_verifier.Clc.{Semantics}
use aic_verifier.Admission.{missing_capabilities, AdmissionConfig, World, Outcome, Check}
use aic_verifier.Admission.Guards.{
  refreshed_authorization, check_required, check_mode, declared_source, is_representative,
}
use aic_verifier.Admission.Effective.{effective, intersect, effective_caps_of}
use aic_verifier.Admission.Decide.{check_admission}
use aic_verifier.Admission.Passed.{IsAdmitted, admission-Passed}
use aic_verifier.Admission.Sound.{value_eq}

effective_eq : {a b : List Capability} → effective a ≡ effective b → a ≡ b
effective_eq h = ground (arith, h)

module _ (p : Pki) (cfg : AdmissionConfig) where
  missing_none :
      (aic : Option Aic) (pa : Option PrincipalAuthorization)
      → check_required p cfg aic pa ≡ none
      → all (aic_capability_matches p (declared_source p cfg aic pa)) cfg.required_capabilities
        ≡ true
  unfolding check_required
  missing_none aic pa h =
      let passes = aic_capability_matches p (declared_source p cfg aic pa) in
      all-rejected passes cfg.required_capabilities
        (go (filter (λ req. not (passes req)) cfg.required_capabilities) h)
    where
      go :
          (missing : List String)
          → (elim missing as (λ _. Check) [
            | [] ↦ none
            | r ∷ rs ↦ some (missing_capabilities (r ∷ rs))
          ])
            ≡ none
          → missing ≡ []
      go [] e = refl
      go (r ∷ rs) e = absurd (ground arith)

  intersect-effective :
      (aic : Aic) (pa : PrincipalAuthorization) (caps : List Capability)
      → intersect p cfg aic pa ≡ effective caps
      → caps ≡ effective_capabilities p aic.capabilities (p.grant_ids pa)
  unfolding intersect
  intersect-effective aic pa caps h =
      go aic.capabilities (p.grant_ids pa) (p.intersect_permissions aic pa) refl refl refl
    where
      go :
          (cs : List Capability) (ids is : List String)
          → aic.capabilities ≡ cs
          → p.grant_ids pa ≡ ids
          → p.intersect_permissions aic pa ≡ is
          → caps ≡ effective_capabilities p aic.capabilities (p.grant_ids pa)
      go [] ids is a b c =
          let none_left = rw (a, intersect) at h in
          effective_eq (sym none_left)
          ∙ sym (
              unfold effective_capabilities in
              ap (λ l. filter (λ d. any (aic_capability_matches p (d ∷ [])) (p.grant_ids pa)) l) a)
      go (x ∷ cs) [] is a b c = absurd (ground (arith, a, b))
      go (x ∷ cs) (i ∷ ids) [] a b c = absurd (ground (arith, a, b, c))
      go (x ∷ cs) (i ∷ ids) (j ∷ js) a b c =
          elim (Bool-cases
            (cfg.reject_overflow && ltb (length (j ∷ js)) (length aic.capabilities))) [
              | inl over ↦ absurd (ground (arith, a, b, c, over))
              | inr fits ↦ effective_eq (ground (arith, a, b, c, fits))
            ]

  mode_allows :
      (aic : Aic) (pa : Option PrincipalAuthorization)
      → is_representative aic ≡ true
      → check_mode p cfg (some aic) pa ≡ none
      → (cfg.disallow_representative ≡ false)
        × ((granted : PrincipalAuthorization) × (pa ≡ some granted) × (granted.allowed_mode ≡ 1))
  unfolding check_mode
  mode_allows aic none acting h = elim (Bool-cases cfg.disallow_representative) [
    | inl off ↦ absurd (ground (arith, acting, off))
    | inr on ↦ absurd (ground (arith, acting, on))
  ]
  mode_allows aic (some pa) acting h = elim (Bool-cases cfg.disallow_representative) [
    | inl off ↦ absurd (ground (arith, acting, off))
    | inr on ↦ (on, (pa, refl, ground (arith, acting, on)))
  ]

module _ (p : Pki) (s : Semantics) (k : Crypto) (cfg : AdmissionConfig) (now : ℕ)
    (cert : Cert) where
  -- An agent that represents its principal is admitted only if the configuration allows it and the
  -- authorization in force has the mode; each capability it is handed stands in its AIC and, read as a
  -- pattern, matches the id of one of the principal's grants: it may be wider than that grant.
  pub admission_representative :
      (w : World) (aic : Aic)
      → p.parse_aic cert ≡ value (some aic)
      → is_representative aic ≡ true
      → IsAdmitted (check_admission p s k cfg now cert w)
      → (cfg.disallow_representative ≡ false)
        × ((own : Option PrincipalAuthorization) × (granted : PrincipalAuthorization)
            × ((p.parse_user_permission cert ≡ value own)
                × ((refreshed_authorization p cfg cert own ≡ some granted)
                    × ((granted.allowed_mode ≡ 1)
                        × ((c : Capability)
                            → Memᴰ c (check_admission p s k cfg now cert w).1.effective_caps
                            → Memᴰ c aic.capabilities
                              × (any (aic_capability_matches p (c ∷ [])) (p.grant_ids granted)
                                  ≡ true))))))
  unfolding effective_capabilities effective_caps_of
  admission_representative w aic parsed acting h =
      let passed = admission-Passed p s k cfg now cert w h in
      let own : passed.aic ≡ some aic = value_eq (sym passed.parsed ∙ parsed) in
      let mode = rw own at passed.mode in
      let (on, (granted, in_pa, allowed)) = mode_allows p cfg aic passed.pa acting mode in
      let caps_of = rw in_pa at (rw own at passed.capabilities) in
      let caps =
        intersect-effective p cfg aic granted passed.caps
          (rw (acting, effective_caps_of) at caps_of) in
      let handed = ap (λ (o : Outcome). o.1.effective_caps) passed.outcome ∙ caps in
      (
        on,
        (
          passed.own,
          granted,
          (
            passed.parsed_own,
            (
              sym passed.in_force ∙ in_pa,
              (
                allowed,
                λ c m.
                    Memᴰ-filter (λ d. any (aic_capability_matches p (d ∷ [])) (p.grant_ids granted))
                      c aic.capabilities (rw handed at m),
              ),
            ),
          ),
        ),
      )

  -- Every capability that the configuration requires is declared by an admitted certificate's AIC, or
  -- granted by the authorization in force where it has none.
  pub admission_required :
      (w : World)
      → IsAdmitted (check_admission p s k cfg now cert w)
      → (aic : Option Aic) × (own : Option PrincipalAuthorization) × ((p.parse_aic cert ≡ value aic)
          × ((p.parse_user_permission cert ≡ value own)
              × (all
                    (aic_capability_matches p
                      (declared_source p cfg aic (refreshed_authorization p cfg cert own)))
                    cfg.required_capabilities
                  ≡ true)))
  admission_required w h =
      let passed = admission-Passed p s k cfg now cert w h in
      (
        passed.aic,
        passed.own,
        (
          passed.parsed,
          (
            passed.parsed_own,
            rw passed.in_force at (missing_none p cfg passed.aic passed.pa passed.required),
          ),
        ),
      )
