-- ===== src/Admission/Effective.antt =====
-- decision.go: the capabilities that an admission hands on, at the end of `CheckAdmission`.
use aic_verifier.Prelude.{◌&&◌, Option, none, some, List, [], ◌∷◌, length, ltb, if◌then◌else◌}
use aic_verifier.Admission.{AdmissionConfig, Reason, no_intersection, capability_overflow}
use aic_verifier.Model.{Capability, Aic, PrincipalAuthorization, Pki}
use aic_verifier.Capability.{effective_capabilities}
use aic_verifier.Admission.Guards.{is_representative}

-- the capabilities that the plugins will see, or the refusal
pub data Effective : Type 0 where
  effective : List Capability → Effective
  not_effective : Reason → Effective

module _ (p : Pki) (cfg : AdmissionConfig) where
  unfoldable pub intersect : Aic → PrincipalAuthorization → Effective
  intersect aic pa = elim aic.capabilities [
    | [] ↦ effective []
    | _ ∷ _ ↦ elim (p.grant_ids pa) [
      | [] ↦ not_effective no_intersection
      | _ ∷ _ ↦ elim (p.intersect_permissions aic pa) [
        | [] ↦ not_effective no_intersection
        | i ∷ is ↦
            if cfg.reject_overflow && ltb (length (i ∷ is)) (length aic.capabilities)
            then not_effective capability_overflow
            else effective (effective_capabilities p aic.capabilities (p.grant_ids pa))
      ]
    ]
  ]

  unfoldable pub effective_caps_of : Option Aic → Option PrincipalAuthorization → Effective
  unfolding intersect
  effective_caps_of none none = effective []
  effective_caps_of none (some pa) = effective pa.grants
  effective_caps_of (some aic) none = effective aic.capabilities
  effective_caps_of (some aic) (some pa) =
      if is_representative aic then intersect aic pa else effective aic.capabilities
