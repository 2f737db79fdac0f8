-- ===== src/Bearer.antt =====
-- jwt.go: the verifier of bearer tokens and its policy. The validation and parsing of tokens (aicjwt), ASN.1,
-- base64 and SHA-256 are the fields of `TokenLib`. The nonce store in use, the option's or else the
-- verifier's, is passed in and out by the calls; its clock is the time of the call. Times of claims are
-- seconds that are not negative.
pub mod Certificate
pub mod Verify
pub mod Held
pub mod Taken
pub mod OneTime
use aic_verifier.Prelude.{ℕ, String, Bool, Option, List, [], ◌∷◌, str_eq, if◌then◌else◌}
use aic_verifier.Merkle.{Bytes}
use aic_verifier.Model.{Aic, PublicKey}
use aic_verifier.BearerReplay.{MemReplayStore}

pub record ClaimCapability : Type 0 where
  pub scheme : String
  pub id : String
  pub params : Bytes

pub record AicClaims : Type 0 where
  pub delegation_mode : String
  pub principal_id : String
  pub principal_realm : String
  pub principal_key_hash : String
  pub capabilities : List ClaimCapability
  pub constraints : List ClaimCapability

pub record OuterClaims : Type 0 where
  pub iss : String
  pub sub : String
  pub jti : String
  pub iat : ℕ
  pub exp : ℕ
  pub aic : Option AicClaims

pub record JwtVerifier : Type 0 where
  pub roots : List (String × PublicKey)
  pub expected_issuer : String
  pub expected_audience : List String

pub record JwtVerifyOptions : Type 0 where
  pub expected_issuer : String
  pub expected_audience : List String
  pub presenter_key : Option PublicKey
  pub require_jti_nonce_match : Bool
  pub status_checker : Option (String → Bool)

-- what `aicjwt.Validate` is given
pub record VerifyOptions : Type 0 where
  pub now : ℕ
  pub issuer_keys : List (String × PublicKey)
  pub expected_issuer : String
  pub expected_audience : List String
  pub presenter_key : Option PublicKey
  pub require_jti_nonce_match : Bool
  pub status_checker : Option (String → Bool)

pub record TokenLib : Type 0 where
  -- the store after the call, true for nil
  pub validate : String → VerifyOptions → Option MemReplayStore → Option MemReplayStore × Bool
  -- `ParseCompact` and the claims of the payload
  pub claims : String → Option OuterClaims
  -- `asn1.Marshal`, with the requested lifetime
  pub marshal_aic : Aic → ℕ → Option Bytes
  pub decode_base64 : String → Bytes
  pub sha256_text : String → Bytes
  pub mode_representative : String
  pub oid_aic : String
  -- `String()` of a principal's realm, identifier and key hash, and of a name with a common name
  pub uid_text : String → String → Bytes → String
  pub name_text : String → String

pub data BearerError : Type 0 where
  no_trust_root invalid_token unreadable_token jti_required token_replayed missing_aic
        not_marshalled :
      BearerError

unfoldable pub set_bearer_policy : JwtVerifier → String → List String → JwtVerifier
set_bearer_policy v issuer audience = record v {
  expected_issuer = issuer;
  expected_audience = audience;
}

abbrev pub text_or : String → String → String
text_or default text = if str_eq text "" then default else text

abbrev pub list_or : List String → List String → List String
list_or default [] = default
list_or default (x ∷ xs) = x ∷ xs
