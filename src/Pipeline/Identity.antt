-- ===== src/Pipeline/Identity.antt =====
-- pipeline.go: the roles, the SPIFFE identity and the remaining lifetime of the client certificate.
use aic_verifier.Prelude.{
  ℕ, ◌-◌, String, Bool, true, false, not, ◌&&◌, ◌||◌, Option, none, some, List, [], ◌∷◌, any, ltb,
  str_eq, if◌then◌else◌,
}
use aic_verifier.Model.{Cert}
use aic_verifier.Roles.{check_role, extract_policy_roles}
use aic_verifier.Spiffe.{
  SpiffeId, canonical_spiffe_id, extract_spiffe_id_from_cert, parse_spiffe_id,
}
use aic_verifier.Pipeline.{
  PipelineConfig, Platform, DenyReason, insufficient_roles, spiffe_missing, spiffe_invalid,
  spiffe_domain_mismatch, spiffe_not_allowed, offline_lifetime,
}

abbrev pub is_empty {ℓ} : {A : Type ℓ} → List A → Bool
is_empty [] = true
is_empty (_ ∷ _) = false

module _ (pl : Platform) (cfg : PipelineConfig) where
  abbrev pub roles_of : Cert → List String
  roles_of cert = extract_policy_roles pl.trim_space cert cfg.authorization_policy

  unfoldable pub check_roles : Cert → Option DenyReason
  check_roles cert =
      if is_empty cfg.allow_roles
      then none
      else if check_role (roles_of cert) cfg.allow_roles
      then none
      else some insufficient_roles

  abbrev pub spiffe_required : Bool
  spiffe_required =
      cfg.require_spiffe
      || (not (is_empty cfg.allowed_spiffe_ids) || not (str_eq cfg.spiffe_trust_domain ""))

  -- an identity of the list in canonical form
  abbrev pub is_allowed_id : String → Bool
  is_allowed_id id =
      any
        (λ allowed.
          str_eq (canonical_spiffe_id pl.to_lower allowed) (canonical_spiffe_id pl.to_lower id))
        cfg.allowed_spiffe_ids

  unfoldable pub check_parsed : String → Option SpiffeId → Option DenyReason
  check_parsed id none = some spiffe_invalid
  check_parsed id (some sid) =
      if not (str_eq cfg.spiffe_trust_domain "")
        && not (str_eq sid.trust_domain (pl.to_lower cfg.spiffe_trust_domain))
      then some spiffe_domain_mismatch
      else if not (is_empty cfg.allowed_spiffe_ids) && not (is_allowed_id id)
      then some spiffe_not_allowed
      else none

  unfoldable pub check_spiffe : Cert → Option DenyReason
  unfolding extract_spiffe_id_from_cert check_parsed
  check_spiffe cert =
      let id = extract_spiffe_id_from_cert cert in
      if not spiffe_required
      then none
      else if str_eq id ""
      then some spiffe_missing
      else check_parsed id (parse_spiffe_id pl.to_lower pl.parse_url id)

  -- a certificate that has expired has less than no time left, and a limit of 0 is none
  unfoldable pub check_offline : ℕ → Cert → Option DenyReason
  check_offline now cert =
      if ltb 0 cfg.offline_max_cert_lifetime
        && ltb cfg.offline_max_cert_lifetime (cert.not_after - now)
      then some offline_lifetime
      else none
