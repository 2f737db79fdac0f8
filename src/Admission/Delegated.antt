-- ===== src/Admission/Delegated.antt =====
-- decision.go: the part of `CheckAdmission` that chooses the certificate of the authorizer and verifies
-- the delegation with it.
use aic_verifier.Prelude.{ℕ, not, ◌&&◌, Option, none, some, bytes_equal, if◌then◌else◌}
use aic_verifier.Admission.{
  principal_of, AdmissionConfig, Reason, signature_empty, bundle_key_hash, resolver_failed,
  unsupported_key_hash, authorization_cert_required, no_key_hash, delegation_auth, da_stale, Check,
  refuse_if,
}
use aic_verifier.Model.{Cert, Aic, Pki, value, error}
use aic_verifier.DelegationAuth.{
  Crypto, is_empty, unsupported_hash, verify_delegation_auth_with_agent, check_da_freshness,
}
use aic_verifier.Admission.Guards.{verify_principal_key_hash}

-- the certificate that the delegation is verified with, or the refusal
pub data Signer : Type 0 where
  signer : Cert → Signer
  no_signer : Reason → Signer

module _ (p : Pki) (cfg : AdmissionConfig) where
  -- the connection's own certificate, if its key is the principal's
  unfoldable pub self_signer : Aic → Cert → Signer
  self_signer aic cert =
      if is_empty aic.principal_uid.key_hash
      then no_signer no_key_hash
      else if unsupported_hash aic.principal_uid.hash_algo
      then no_signer unsupported_key_hash
      else if bytes_equal (p.sha.sum cert.raw_spki) aic.principal_uid.key_hash
      then signer cert
      else no_signer authorization_cert_required

  unfoldable pub resolved_signer : Aic → Cert → Signer
  unfolding self_signer
  resolved_signer aic cert = elim cfg.user_cert_resolver [
    | none ↦ self_signer aic cert
    | some resolve ↦
        if is_empty aic.principal_uid.key_hash
        then self_signer aic cert
        else (elim (resolve aic.principal_uid.key_hash) [
          | error ↦ no_signer resolver_failed
          | value none ↦ self_signer aic cert
          | value (some c) ↦ signer c
        ])
  ]

  unfoldable pub select_signer : Aic → Cert → Signer
  unfolding resolved_signer
  select_signer aic cert = elim cfg.user_cert [
    | some c ↦ signer c
    | none ↦ elim cfg.credential_bundle [
      | none ↦ resolved_signer aic cert
      | some b ↦ elim (principal_of b) [
        | none ↦ resolved_signer aic cert
        | some c ↦
            if verify_principal_key_hash p cert c then signer c else no_signer bundle_key_hash
      ]
    ]
  ]

  unfoldable pub check_delegation : Crypto → ℕ → Cert → Option Aic → Check
  check_delegation k now cert none = none
  check_delegation k now cert (some aic) =
      if cfg.skip_delegation_auth_verification
      then none
      else if is_empty aic.delegation_authorization.signature_value
      then some signature_empty
      else (elim (select_signer aic cert) [
        | no_signer r ↦ some r
        | signer c ↦ elim (verify_delegation_auth_with_agent p k (some aic) (some c) (some cert)) [
          | some e ↦ some (delegation_auth e)
          | none ↦
              refuse_if
                (cfg.check_da_age
                  && not (
                      check_da_freshness aic.delegation_authorization.timestamp now cfg.da_age_max))
                da_stale
        ]
      ])
