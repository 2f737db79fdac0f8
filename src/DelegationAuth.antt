-- ===== src/DelegationAuth.antt =====
-- decision.go: the verification of a DelegationAuthorization signature, with the version negotiation,
-- and its freshness window. The primitives of crypto and of the DER encoding are parameters.
pub mod Accepted
use aic_verifier.Prelude.{
  ℕ, ◌+◌, ◌-◌, String, Bool, true, false, ◌&&◌, ◌||◌, not, Option, none, some, List, [], ◌∷◌, ltb,
  leb, ◌==◌, bytes_equal, if◌then◌else◌,
}
use aic_verifier.Merkle.{Bytes, Sha256}
use aic_verifier.Model.{
  Cert, PublicKey, ecdsa, rsa, other_key, Capability, HashAlgo, SigAlgo, ecdsa_with_sha256,
  rsa_with_sha256, rsa_pss_with_sha256, other_sig, absent, sha256, other_hash, PrincipalUid,
  DelegationAuthorization, DelegationMode, Aic, Pki,
}

-- `DelegationAuthTBS`: the fields that `verifyDelegationAuthTBSAt` sets, those of the AIC as a whole
pub record DelegationAuthTbs : Type 0 where
  pub version : ℕ
  pub aic : Aic
  pub agent_key_binding : Option Bytes

pub record Crypto : Type 0 where
  pub make_agent_key_binding : Bytes → Option Bytes
  -- `ValidateDelegationAuthTBSVersion`, true for nil
  pub validate_tbs_version : DelegationAuthTbs → Bool
  -- `asn1.Marshal`
  pub marshal_tbs : DelegationAuthTbs → Option Bytes
  -- `x509.MarshalPKIXPublicKey`
  pub marshal_spki : PublicKey → Option Bytes
  pub ecdsa_verify : Bytes → Bytes → Bytes → Bool
  pub rsa_pkcs1_verify : Bytes → Bytes → Bytes → Bool
  pub rsa_pss_verify : Bytes → Bytes → Bytes → Bool

pub data DaError : Type 0 where
  nil_aic nil_user_cert empty_signature marshal_agent_spki_failed agent_spki_required : DaError
  unsupported_version : ℕ → DaError
  agent_key_binding_failed tbs_version_invalid marshal_tbs_failed : DaError
  unsupported_algorithm unsupported_key signature_mismatch : DaError
  unsupported_key_hash_algorithm spki_mismatch : DaError

-- `errors.Is(err, errDASignatureMismatch)`
abbrev pub is_mismatch : DaError → Bool
is_mismatch signature_mismatch = true
is_mismatch _ = false

abbrev pub is_ecdsa_alg : SigAlgo → Bool
is_ecdsa_alg ecdsa_with_sha256 = true
is_ecdsa_alg _ = false

abbrev pub is_rsa_alg : SigAlgo → Bool
is_rsa_alg rsa_with_sha256 = true
is_rsa_alg _ = false

abbrev pub is_rsa_pss_alg : SigAlgo → Bool
is_rsa_pss_alg rsa_pss_with_sha256 = true
is_rsa_pss_alg _ = false

-- `len(ha) > 0 && !ha.Equal(OIDSHA256)`
abbrev pub unsupported_hash : HashAlgo → Bool
unsupported_hash absent = false
unsupported_hash sha256 = false
unsupported_hash other_hash = true

abbrev pub is_empty : Bytes → Bool
is_empty [] = true
is_empty (_ ∷ _) = false

module _ (p : Pki) (k : Crypto) where
  -- the switch over the key's type; none is success
  unfoldable pub check_signature : Option PublicKey → SigAlgo → Bytes → Bytes → Option DaError
  check_signature (some (ecdsa key)) alg digest signature =
      if not (is_ecdsa_alg alg)
      then some unsupported_algorithm
      else if k.ecdsa_verify key digest signature
      then none
      else some signature_mismatch
  check_signature (some (rsa key)) alg digest signature =
      if is_rsa_alg alg
      then (if k.rsa_pkcs1_verify key digest signature then none else some signature_mismatch)
      else if is_rsa_pss_alg alg
      then (if k.rsa_pss_verify key digest signature then none else some signature_mismatch)
      else some unsupported_algorithm
  check_signature (some other_key) alg digest signature = some unsupported_key
  check_signature none alg digest signature = some unsupported_key

  -- the cross-check of the principal's key hash with the key of the user's certificate
  unfoldable pub check_key_hash : Aic → Cert → Option DaError
  check_key_hash aic user_cert =
      if is_empty aic.principal_uid.key_hash
      then none
      else if unsupported_hash aic.principal_uid.hash_algo
      then some unsupported_key_hash_algorithm
      else if bytes_equal (p.sha.sum user_cert.raw_spki) aic.principal_uid.key_hash
      then none
      else some spki_mismatch

  unfoldable pub check_tbs : Aic → Cert → DelegationAuthTbs → Option DaError
  unfolding check_signature check_key_hash
  check_tbs aic user_cert tbs =
      if not (k.validate_tbs_version tbs)
      then some tbs_version_invalid
      else elim (k.marshal_tbs tbs) [
        | none ↦ some marshal_tbs_failed
        | some der ↦
            let ua = aic.delegation_authorization in
            elim (check_signature user_cert.public_key ua.signature_algorithm (p.sha.sum der)
              ua.signature_value) [ some e ↦ some e | none ↦ check_key_hash aic user_cert ]
      ]

  unfoldable pub verify_tbs_at : Aic → Cert → Bytes → ℕ → Option DaError
  unfolding check_tbs
  verify_tbs_at aic user_cert agent_spki version =
      if version == 2
      then elim (k.make_agent_key_binding agent_spki) [
        | none ↦ some agent_key_binding_failed
        | some binding ↦
            check_tbs aic user_cert
              (record { version = version; aic = aic; agent_key_binding = some binding })
      ]
      else check_tbs aic user_cert
          (record { version = version; aic = aic; agent_key_binding = none })

  unfoldable pub verify_tbs : Aic → Cert → Bytes → ℕ → Option DaError
  verify_tbs aic user_cert agent_spki version =
      if version == 2
      then verify_tbs_at aic user_cert agent_spki 2
      else elim (verify_tbs_at aic user_cert agent_spki 1) [
        | none ↦ none
        | some e ↦ if is_mismatch e then verify_tbs_at aic user_cert agent_spki 0 else some e
      ]

  -- the negotiation of the version, the agent's key at hand
  unfoldable pub verify_versions : Aic → Cert → Bytes → Option DaError
  verify_versions aic user_cert agent_spki =
      if aic.version == 0
      then (if is_empty agent_spki
          then verify_tbs aic user_cert agent_spki 1
          else elim (verify_tbs aic user_cert agent_spki 2) [
            | none ↦ none
            | some _ ↦ verify_tbs aic user_cert agent_spki 1
          ])
      else if aic.version == 1
      then verify_tbs aic user_cert agent_spki 1
      else if aic.version == 2
      then (if is_empty agent_spki
          then some agent_spki_required
          else verify_tbs aic user_cert agent_spki 2)
      else some (unsupported_version aic.version)

  -- `agentCert != nil && agentCert.PublicKey != nil`: none for an error of the encoding
  unfoldable pub agent_spki_of : Option Cert → Option Bytes
  agent_spki_of none = some []
  agent_spki_of (some cert) = elim cert.public_key [
    | none ↦ some []
    | some key ↦ k.marshal_spki key
  ]

  unfoldable pub verify_delegation_auth_with_agent :
      Option Aic → Option Cert → Option Cert → Option DaError
  verify_delegation_auth_with_agent none user_cert agent_cert = some nil_aic
  verify_delegation_auth_with_agent (some aic) none agent_cert = some nil_user_cert
  verify_delegation_auth_with_agent (some aic) (some user_cert) agent_cert =
      if is_empty aic.delegation_authorization.signature_value
      then some empty_signature
      else elim (agent_spki_of agent_cert) [
        | none ↦ some marshal_agent_spki_failed
        | some agent_spki ↦ verify_versions aic user_cert agent_spki
      ]

  unfoldable pub verify_delegation_auth : Option Aic → Option Cert → Option DaError
  verify_delegation_auth aic user_cert = verify_delegation_auth_with_agent aic user_cert none

-- nanoseconds; a window that is not positive is given as 0
abbrev pub default_da_age_max : ℕ
default_da_age_max = 60_000_000_000

-- a `time.Duration` is of 64 bits, with a sign
abbrev pub max_duration : ℕ
max_duration = 9_223_372_036_854_775_807

-- whether the age is within the window. `Sub` stops at the largest and the smallest duration; the smallest
-- has no positive counterpart, so that it stays negative when its sign is turned
unfoldable pub within_age : ℕ → ℕ → ℕ → Bool
within_age now ts window =
    if ltb now ts
    then ltb max_duration (ts - now) || leb (ts - now) window
    else leb (if ltb max_duration (now - ts) then max_duration else now - ts) window

-- true for nil
unfoldable pub check_da_freshness : Option ℕ → ℕ → ℕ → Bool
unfolding within_age
check_da_freshness none now max_age = false
check_da_freshness (some ts) now max_age =
    within_age now ts (if max_age == 0 then default_da_age_max else max_age)
