-- ===== src/Model.antt =====
-- The data that the admission code passes round: certificates (crypto/x509), and the AIC and
-- PrincipalAuthorization extensions (github.com/varwof/types), with the fields that the code reads.
use aic_verifier.Prelude.{ℕ, String, Bool, Option, List}
use aic_verifier.Merkle.{Bytes, Sha256}

pub data PublicKey : Type 0 where
  ecdsa rsa : Bytes → PublicKey
  other_key : PublicKey

-- times are nanoseconds since the Unix epoch
pub record Cert : Type 0 where
  pub common_name : String
  pub organizational_unit : List String
  pub issuer : String
  pub serial_number : ℕ
  pub not_before : ℕ
  pub not_after : ℕ
  -- scheme and text of each URI of the subject alternative name
  pub uris : List (String × String)
  pub public_key : Option PublicKey
  pub raw_spki : Bytes
  pub raw_issuer : Bytes
  pub raw_subject : Bytes
  -- identifier and value of each extension
  pub extensions : List (String × Bytes)
  pub raw : Bytes

pub record Capability : Type 0 where
  pub scheme_id : String
  pub capability_id : String
  pub parameters : Bytes

-- the object identifiers that the code tells apart
pub data HashAlgo : Type 0 where
  absent sha256 other_hash : HashAlgo

pub data SigAlgo : Type 0 where
  ecdsa_with_sha256 rsa_with_sha256 rsa_pss_with_sha256 other_sig : SigAlgo

pub record PrincipalUid : Type 0 where
  pub key_hash : Bytes
  pub hash_algo : HashAlgo
  -- `String()`
  pub text : String

pub record DelegationAuthorization : Type 0 where
  pub signature_algorithm : SigAlgo
  pub signature_value : Bytes
  pub nonce : Bytes
  -- none for the zero time
  pub timestamp : Option ℕ

abbrev pub DelegationMode : Type 0
DelegationMode = ℕ

abbrev pub delegation_authorized : DelegationMode
delegation_authorized = 0

abbrev pub delegation_representative : DelegationMode
delegation_representative = 1

pub record Aic : Type 0 where
  pub version : ℕ
  pub agent_id : String
  pub principal_uid : PrincipalUid
  pub capabilities : List Capability
  pub delegation_mode : DelegationMode
  pub delegation_authorization : DelegationAuthorization
  pub authorization_constraints : List Capability

pub record PrincipalAuthorization : Type 0 where
  pub grants : List Capability
  pub authorization_constraints : List Capability
  pub allowed_mode : ℕ

-- a Go pair (value, error): `error` stands for a non-nil error
pub data Fallible {ℓ} (A : Type ℓ) : Type ℓ where
  value : A → Fallible A
  error : Fallible A

-- The functions of github.com/varwof/types that the admission code calls, `filepath.Match`, and the
-- `String` of a big integer.
pub record Pki : Type 0 where
  pub sha : Sha256
  pub parse_aic : Cert → Fallible (Option Aic)
  pub parse_user_permission : Cert → Fallible (Option PrincipalAuthorization)
  -- `ValidateAIC`, true for nil
  pub validate_aic : Aic → Bool
  pub has_protocol : Aic → String → Bool
  pub check_permission : Aic → String → Bool
  pub full_id : Capability → String
  pub is_present : DelegationAuthorization → Bool
  pub grant_ids : PrincipalAuthorization → List String
  pub intersect_permissions : Aic → PrincipalAuthorization → List String
  -- `filepath.Match(pattern, name)` as `file_match name pattern`, false for a bad pattern too
  pub file_match : String → String → Bool
  -- `SerialNumber.Text(16)`, and `SerialNumber.String()`
  pub serial_text : ℕ → String
  pub serial_decimal : ℕ → String
