-- ===== src/Revocation/Crl.antt =====
-- crl.go: `CRLCache`, the certificate revocation list in force. The mutexes make each call one step. The
-- HTTP request, PEM, ASN.1 and the check of the list's signature are parameters.
pub mod Refreshed
use Prim.Native.String.{◌++◌ as append}
use aic_verifier.Prelude.{
  ℕ, zero, suc, String, Bool, true, false, not, ◌&&◌, ◌||◌, Option, none, some, List, [], ◌∷◌, map,
  contains, join, length, ltb, str_eq, bytes_equal, if◌then◌else◌,
}
use aic_verifier.Merkle.{Bytes}
use aic_verifier.Model.{Cert, Pki, Fallible, value, error}

-- a parsed revocation list; none is the zero time
pub record RevocationList : Type 0 where
  pub issuer : String
  pub revoked_certificates : List ℕ
  pub this_update : Option ℕ
  pub next_update : Option ℕ

-- a parsed name: the attributes of each of its parts, as "type=value"
abbrev pub Name : Type 0
Name = List (List String)

pub record CrlLib : Type 0 where
  -- `pem.Decode`: the type and the bytes of the block
  pub decode_pem : Bytes → Option (String × Bytes)
  pub parse_der_crl : Bytes → Option RevocationList
  -- `asn1.Unmarshal` into a `pkix.RDNSequence`
  pub unmarshal_name : Bytes → Option Name
  -- `RDNSequence.String`
  pub name_text : Name → String
  -- `CheckCRLSignature`, true for nil
  pub check_crl_signature : Cert → RevocationList → Bool
  -- `sort.Strings`
  pub sort_strings : List String → List String

pub record CrlCache : Type 0 where
  pub ca_cert : Cert
  pub ca_dn : String
  -- the keys of the map
  pub revoked : List String
  pub this_update : Option ℕ
  pub next_update : Option ℕ
  pub last_refresh : Option ℕ

-- `dn` is the text of the subject of the authority's certificate
unfoldable pub new_crl_cache : Cert → String → CrlCache
new_crl_cache ca dn = record {
  ca_cert = ca;
  ca_dn = dn;
  revoked = [];
  this_update = none;
  next_update = none;
  last_refresh = none;
}

unfoldable pub stats : CrlCache → ℕ × (Option ℕ × Option ℕ)
stats c = (length c.revoked, (c.this_update, c.next_update))

-- `now.After(t)`
abbrev pub is_after : ℕ → Option ℕ → Bool
is_after now none = true
is_after now (some t) = ltb t now

-- the new list's `ThisUpdate.After(t)`
abbrev pub newer : Option ℕ → Option ℕ → Bool
newer none t = false
newer (some u) none = true
newer (some u) (some t) = ltb t u

abbrev pub is_zero_time : Option ℕ → Bool
is_zero_time none = true
is_zero_time (some t) = false

-- `io.LimitReader`
unfoldable pub take : ℕ → Bytes → Bytes
take n [] = []
take zero (b ∷ bs) = []
take (suc n) (b ∷ bs) = b ∷ take n bs

abbrev pub max_body : ℕ
max_body = 1048576

module _ (lib : CrlLib) where
  -- the order of the parts of a name, and of the attributes of a part, does not count
  unfoldable pub canonical_rdns : Name → String
  unfolding join
  canonical_rdns seq =
      join "," (lib.sort_strings (map (λ rdn. join "+" (lib.sort_strings rdn)) seq))

  abbrev pub same_names : Option Name → Option Name → Bool
  same_names none b = false
  same_names (some a) none = false
  same_names (some a) (some b) = str_eq (canonical_rdns a) (canonical_rdns b)

  unfoldable pub rdn_sequence_equal : Bytes → Bytes → Bool
  rdn_sequence_equal a b = same_names (lib.unmarshal_name a) (lib.unmarshal_name b)

  unfoldable pub issuer_matches_ca : CrlCache → Cert → Bool
  issuer_matches_ca c cert =
      bytes_equal cert.raw_issuer c.ca_cert.raw_subject
      || rdn_sequence_equal cert.raw_issuer c.ca_cert.raw_subject

  -- the bytes of the list in a response: those of its PEM block, or the body
  abbrev pub list_bytes : Bytes → Bytes
  list_bytes body = elim (lib.decode_pem body) [
    | none ↦ body
    | some (type, bytes) ↦ if str_eq type "X509 CRL" then bytes else body
  ]

  abbrev pub issued_by_ca : Cert → RevocationList → Bool
  issued_by_ca ca crl = elim (lib.unmarshal_name ca.raw_subject) [
    | none ↦ false
    | some name ↦ str_eq (lib.name_text name) crl.issuer
  ]

module _ (p : Pki) where
  abbrev pub revocation_key : String → ℕ → String
  revocation_key dn serial = append dn (append "|" (p.serial_text serial))

  unfoldable pub is_revoked : CrlCache → ℕ → String → ℕ → Fallible Bool
  is_revoked c now dn serial =
      if is_after now c.next_update
      then error
      else value (contains c.revoked (revocation_key dn serial))

  -- a replay of a list that is not newer than the one in force is refused
  unfoldable pub install : CrlCache → ℕ → RevocationList → CrlCache × Bool
  install c now crl =
      if not (newer crl.this_update c.this_update) && not (is_zero_time c.this_update)
      then (c, false)
      else (
        record c {
          revoked = map (revocation_key c.ca_dn) crl.revoked_certificates;
          this_update = crl.this_update;
          next_update = crl.next_update;
          last_refresh = some now;
        },
        true,
      )

module _ (p : Pki) (lib : CrlLib) where
  unfoldable pub is_revoked_cert : CrlCache → ℕ → Cert → Fallible Bool
  is_revoked_cert c now cert =
      if is_after now c.next_update
      then error
      else if not (issuer_matches_ca lib c cert)
      then value false
      else value (contains c.revoked (revocation_key p c.ca_dn cert.serial_number))

  unfoldable pub accept_list : CrlCache → ℕ → Option RevocationList → CrlCache × Bool
  accept_list c now none = (c, false)
  accept_list c now (some crl) =
      if not (issued_by_ca lib c.ca_cert crl)
      then (c, false)
      else if not (lib.check_crl_signature c.ca_cert crl)
      then (c, false)
      else install p c now crl

  -- `response` is the body, none where the request or its reading failed; the result is true for nil
  unfoldable pub refresh : CrlCache → ℕ → Option Bytes → CrlCache × Bool
  refresh c now none = (c, false)
  refresh c now (some response) =
      accept_list c now (lib.parse_der_crl (list_bytes lib (take max_body response)))
