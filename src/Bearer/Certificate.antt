-- ===== src/Bearer/Certificate.antt =====
-- jwt.go: the certificate that is made from a token's claims.
use aic_verifier.Prelude.{
  ℕ, ◌+◌, ◌-◌, ◌*◌, String, Option, none, some, [], ◌∷◌, map, ltb, ◌==◌, str_eq, if◌then◌else◌, ◌⊎◌,
  inl, inr,
}
use aic_verifier.Merkle.{Bytes}
use aic_verifier.Model.{Cert, Capability, Aic, absent, other_sig}
use aic_verifier.Bearer.{
  ClaimCapability, AicClaims, OuterClaims, TokenLib, BearerError, missing_aic, not_marshalled,
  text_or,
}

-- the number of the bytes, the first the most significant
unfoldable pub set_bytes : ℕ → Bytes → ℕ
set_bytes n [] = n
set_bytes n (b ∷ bs) = set_bytes (n * 256 + b) bs

unfoldable pub requested_lifetime_of : OuterClaims → ℕ
requested_lifetime_of outer = if ltb outer.iat outer.exp then outer.exp - outer.iat else 3600

abbrev pub to_capability : ClaimCapability → Capability
to_capability c = record { scheme_id = c.scheme; capability_id = c.id; parameters = c.params }

module _ (lib : TokenLib) where
  unfoldable pub mode_to_int : String → ℕ
  mode_to_int mode = if str_eq mode lib.mode_representative then 1 else 0

  unfoldable pub serial_from_jwt : OuterClaims → AicClaims → ℕ
  serial_from_jwt outer aic =
      let n = set_bytes 0 (lib.sha256_text (text_or aic.principal_id outer.jti)) in
      if n == 0 then 1 else n

  unfoldable pub jwt_to_aic : OuterClaims → AicClaims → Aic
  jwt_to_aic outer aic =
      let key_hash = lib.decode_base64 aic.principal_key_hash in
      record {
        version = 1;
        agent_id = text_or aic.principal_id outer.sub;
        principal_uid = record {
          key_hash = key_hash;
          hash_algo = absent;
          text = lib.uid_text aic.principal_realm aic.principal_id key_hash;
        };
        capabilities = map to_capability aic.capabilities;
        delegation_mode = mode_to_int aic.delegation_mode;
        delegation_authorization = record {
          signature_algorithm = other_sig;
          signature_value = [];
          nonce = lib.sha256_text outer.jti;
          timestamp = none;
        };
        authorization_constraints = map to_capability aic.constraints;
      }

  abbrev pub cert_of : OuterClaims → AicClaims → Option Bytes → BearerError ⊎ Cert
  cert_of outer aic none = inl not_marshalled
  cert_of outer aic (some ext) = inr (record {
    common_name = text_or aic.principal_id outer.sub;
    organizational_unit = [];
    issuer = lib.name_text outer.iss;
    serial_number = serial_from_jwt outer aic;
    not_before = outer.iat * 1_000_000_000;
    not_after = outer.exp * 1_000_000_000;
    uris = [];
    public_key = none;
    raw_spki = [];
    raw_issuer = [];
    raw_subject = [];
    extensions = (lib.oid_aic, ext) ∷ [];
    raw = [];
  })

  abbrev pub cert_from : OuterClaims → Option AicClaims → BearerError ⊎ Cert
  cert_from outer none = inl missing_aic
  cert_from outer (some aic) =
      cert_of outer aic (lib.marshal_aic (jwt_to_aic outer aic) (requested_lifetime_of outer))

  unfoldable pub synthesize_cert_from_jwt : OuterClaims → BearerError ⊎ Cert
  synthesize_cert_from_jwt outer = cert_from outer outer.aic
