-- ===== src/Pipeline/Status.antt =====
-- pipeline.go: the validity period and the revocation of the certificates of a chain.
use aic_verifier.Prelude.{
  ℕ, Bool, true, false, Option, none, some, List, [], ◌∷◌, ltb, if◌then◌else◌,
}
use aic_verifier.Model.{Cert, Fallible, value, error}
use aic_verifier.Revocation.Crl.{is_revoked_cert}
use aic_verifier.Revocation.Ocsp.{Entries, check}
use aic_verifier.Pipeline.{
  PipelineConfig, Platform, DenyReason, not_yet_valid, expired, crl_error, crl_revoked, ocsp_error,
  PipelineCheck, check_full_chain, check_leaf_only,
}

-- none for nil
unfoldable pub check_cert_validity : ℕ → Cert → Option DenyReason
check_cert_validity now cert =
    if ltb now cert.not_before
    then some not_yet_valid
    else if ltb cert.not_after now
    then some expired
    else none

abbrev pub first : List Cert → Option Cert
first [] = none
first (c ∷ cs) = some c

module _ (pl : Platform) (cfg : PipelineConfig) (now : ℕ) where
  abbrev pub on_list : Fallible Bool → Option DenyReason
  on_list error = some crl_error
  on_list (value true) = some crl_revoked
  on_list (value false) = none

  unfoldable pub check_crl : Cert → Option DenyReason
  check_crl cert = elim cfg.crl_cache [
    | none ↦ none
    | some cache ↦ on_list (is_revoked_cert pl.pki pl.crl cache now cert)
  ]

  unfoldable pub check_ocsp : Entries → Cert → Option Cert → Entries × Option DenyReason
  check_ocsp es cert issuer = elim cfg.ocsp_cache [
    | none ↦ (es, none)
    | some c ↦
        let (es', ok) = check pl.ocsp pl.pki c es now cert issuer (pl.turn cert issuer) in
        (es', if ok then none else some ocsp_error)
  ]

  -- go on with a check where there is no reason to refuse
  abbrev pub or_else :
      Option DenyReason → Entries → Entries × Option DenyReason → Entries × Option DenyReason
  or_else none es next = next
  or_else (some r) es next = (es, some r)

  unfoldable pub check_revocation : Entries → Cert → Option Cert → Entries × Option DenyReason
  unfolding check_crl check_ocsp
  check_revocation es cert issuer = or_else (check_crl cert) es (check_ocsp es cert issuer)

  unfoldable pub check_cert : Entries → Cert → Option Cert → Entries × Option DenyReason
  unfolding check_revocation
  check_cert es cert issuer =
      or_else (check_cert_validity now cert) es (check_revocation es cert issuer)

  -- each certificate with the next one as its issuer
  unfoldable pub check_chain : Entries → List Cert → Entries × Option DenyReason
  unfolding check_cert
  check_chain es [] = (es, none)
  check_chain es (cert ∷ rest) =
      let this = check_cert es cert (first rest) in or_else this.1 this.0 (check_chain this.0 rest)

  unfoldable pub check_scoped :
      PipelineCheck → Entries → Cert → List Cert → Entries × Option DenyReason
  unfolding check_chain check_cert
  check_scoped check_leaf_only es leaf rest = check_cert es leaf none
  check_scoped check_full_chain es leaf rest = check_chain es (leaf ∷ rest)

  unfoldable pub check_status : Entries → Cert → List Cert → Entries × Option DenyReason
  unfolding check_scoped
  check_status es leaf rest = check_scoped cfg.check_scope es leaf rest
