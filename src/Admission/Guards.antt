-- ===== src/Admission/Guards.antt =====
-- decision.go: the guards of `CheckAdmission` on the certificate's fields, the constraints, the required
-- capabilities and the delegation mode, with the helpers of decision.go and credential_bundle.go they call.
use Prim.Native.String.{len}
use aic_verifier.Prelude.{
  ℕ, String, Bool, false, not, ◌&&◌, ◌||◌, Option, none, some, List, [], ◌∷◌, length, all, filter,
  ltb, ◌==◌, bytes_equal, str_eq, is_some, if◌then◌else◌,
}
use aic_verifier.Admission.{
  principal_of, AdmissionConfig, aic_required, aic_validation, cap_size, nonce_size, pa_constraint,
  aic_constraint, pa_unknown_constraint, aic_unknown_constraint, protocol_missing, rule_missing,
  missing_capabilities, representative_disallowed, representative_needs_pa,
  representative_not_allowed, Check, ◌>>>◌, refuse_if,
}
use aic_verifier.Model.{
  Cert, Capability, Aic, PrincipalAuthorization, Pki, value, error, delegation_representative,
}
use aic_verifier.Capability.{aic_capability_matches}
use aic_verifier.DelegationAuth.{is_empty}
use aic_verifier.Constraints.{
  ConstraintRegistry, find, check_constraints_reg, first_unknown_constraint_reg,
}

unfoldable pub ou_fallback_principal : Cert → String
ou_fallback_principal cert =
    if not (str_eq cert.common_name "")
    then cert.common_name
    else elim cert.organizational_unit [ [] ↦ "" | ou ∷ _ ↦ ou ]

-- lengths of bytes
unfoldable pub validate_cap_size_constraints : List Capability → Bool
validate_cap_size_constraints = all (λ c.
    not (ltb (len c.scheme_id) 1 || ltb 128 (len c.scheme_id))
    && (not (ltb (len c.capability_id) 1 || ltb 256 (len c.capability_id))
        && not (ltb 4096 (length c.parameters))))

unfoldable pub current_principal_cert : AdmissionConfig → Option Cert
current_principal_cert cfg = elim cfg.user_cert [
  | some c ↦ some c
  | none ↦ elim cfg.credential_bundle [ none ↦ none | some b ↦ principal_of b ]
]

abbrev pub is_representative : Aic → Bool
is_representative aic = aic.delegation_mode == delegation_representative

unfoldable pub unknown_types : ConstraintRegistry → List Capability → List String
unknown_types reg [] = []
unknown_types reg (c ∷ cs) =
    let rest = unknown_types reg cs in
    if is_some (find reg c.capability_id) then rest else c.capability_id ∷ rest

module _ (p : Pki) where
  -- `VerifyPrincipalKeyHash`, true for nil
  unfoldable pub verify_principal_key_hash : Cert → Cert → Bool
  verify_principal_key_hash agent principal = elim (p.parse_aic agent) [
    | error ↦ false
    | value none ↦ false
    | value (some aic) ↦
        not (is_empty aic.principal_uid.key_hash)
        && bytes_equal (p.sha.sum principal.raw_spki) aic.principal_uid.key_hash
  ]

  -- the grants of the current principal certificate take the place of those of the presented one
  unfoldable pub refreshed_authorization :
      AdmissionConfig → Cert → Option PrincipalAuthorization → Option PrincipalAuthorization
  refreshed_authorization cfg cert pa = elim (current_principal_cert cfg) [
    | none ↦ pa
    | some pc ↦ elim (p.parse_user_permission pc) [
      | error ↦ pa
      | value none ↦ pa
      | value (some pa2) ↦ if verify_principal_key_hash cert pc then some pa2 else pa
    ]
  ]

  module _ (cfg : AdmissionConfig) where
    -- the checks of the AIC's fields, up to the size of the nonce
    unfoldable pub check_fields : Option Aic → Check
    check_fields none = refuse_if cfg.require_aic aic_required
    check_fields (some aic) =
        refuse_if (not (p.validate_aic aic)) aic_validation
        >>> refuse_if
            (cfg.enforce_cap_size_constraints
              && not (validate_cap_size_constraints aic.capabilities))
            cap_size
        >>> refuse_if (cfg.enforce_size32 && not (length aic.delegation_authorization.nonce == 32))
            nonce_size

    -- the constraints of the principal: evaluated, then unknown types in strict mode
    unfoldable pub check_pa_constraints : ℕ → Option PrincipalAuthorization → Check
    check_pa_constraints now none = none
    check_pa_constraints now (some pa) =
        if not cfg.enforce_constraints
        then none
        else (elim (check_constraints_reg cfg.constraint_registry pa.authorization_constraints
            cfg.client_ip now) [
              | some e ↦ some (pa_constraint e)
              | none ↦
                  if not cfg.strict_constraints
                  then none
                  else (elim (first_unknown_constraint_reg cfg.constraint_registry
                      pa.authorization_constraints) [
                        | some u ↦ some (pa_unknown_constraint u)
                        | none ↦ none
                      ])
            ])

    -- the constraints of the AIC: unknown types in strict mode first
    unfoldable pub check_aic_constraints : ℕ → Option Aic → Check
    check_aic_constraints now none = none
    check_aic_constraints now (some aic) =
        if not cfg.enforce_constraints
        then none
        else ((if cfg.strict_constraints
              then (elim (first_unknown_constraint_reg cfg.constraint_registry
                  aic.authorization_constraints) [
                    | some u ↦ some (aic_unknown_constraint u)
                    | none ↦ none
                  ])
              else none)
            >>> elim (check_constraints_reg cfg.constraint_registry aic.authorization_constraints
                cfg.client_ip now) [ some e ↦ some (aic_constraint e) | none ↦ none ])

    -- the warnings that are logged once the constraints have passed
    unfoldable pub unknown_constraints : Option Aic → List String
    unknown_constraints none = []
    unknown_constraints (some aic) =
        if cfg.enforce_constraints && cfg.has_audit_logger
        then unknown_types cfg.constraint_registry aic.authorization_constraints
        else []

    unfoldable pub check_declarations : Option Aic → Check
    check_declarations none = none
    check_declarations (some aic) =
        refuse_if
          (not (str_eq cfg.required_protocol "") && not (p.has_protocol aic cfg.required_protocol))
          protocol_missing
        >>> refuse_if
            (not (str_eq cfg.required_rule_id "")
              && not (p.check_permission aic cfg.required_rule_id))
            rule_missing

    abbrev pub declared_source : Option Aic → Option PrincipalAuthorization → List Capability
    declared_source (some aic) pa = aic.capabilities
    declared_source none (some pa) = pa.grants
    declared_source none none = []

    unfoldable pub check_required : Option Aic → Option PrincipalAuthorization → Check
    check_required aic pa =
        elim (filter (λ req. not (aic_capability_matches p (declared_source aic pa) req))
          cfg.required_capabilities) [ [] ↦ none | r ∷ rs ↦ some (missing_capabilities (r ∷ rs)) ]

    unfoldable pub check_mode : Option Aic → Option PrincipalAuthorization → Check
    check_mode none pa = none
    check_mode (some aic) pa =
        if not (is_representative aic)
        then none
        else if cfg.disallow_representative
        then some representative_disallowed
        else (elim pa [
          | none ↦ some representative_needs_pa
          | some pa ↦ refuse_if (not (pa.allowed_mode == 1)) representative_not_allowed
        ])
