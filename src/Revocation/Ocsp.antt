-- ===== src/Revocation/Ocsp.antt =====
-- ocsp.go: `OCSPCache.Check`, with what is remembered of a responder's answers. A call that finds another
-- call for the same key under way waits for it and then sees the entries of that time. ASN.1 and the OCSP
-- messages are parameters, and the responder's reply is an argument. Times are nanoseconds.
pub mod Answers
use Prim.Native.String.{◌++◌ as append}
use aic_verifier.Prelude.{
  ℕ, ◌+◌, ◌-◌, String, Bool, true, false, not, ◌&&◌, ◌||◌, Option, none, some, List, [], ◌∷◌,
  filter, length, ltb, ◌==◌, str_eq, if◌then◌else◌,
}
use aic_verifier.Merkle.{Bytes}
use aic_verifier.Model.{Cert, Pki, Fallible, value, error}
use aic_verifier.Revocation.Crl.{take, max_body}

pub data Status : Type 0 where
  good revoked unknown : Status

-- none is the zero time
pub record OcspCacheEntry : Type 0 where
  pub status : Status
  pub cached_at : ℕ
  pub this_update : Option ℕ
  pub next_update : Option ℕ
  pub ttl : ℕ

pub record OcspResponse : Type 0 where
  pub status : Status
  pub produced_at : Option ℕ
  pub this_update : Option ℕ
  pub next_update : Option ℕ

pub record AccessDescription : Type 0 where
  pub is_ocsp : Bool
  -- tag 6 of the context class
  pub is_uri : Bool
  pub location : String

pub record OcspLib : Type 0 where
  -- `asn1.Unmarshal` of an AIA extension
  pub unmarshal_aia : Bytes → Option (List AccessDescription)
  -- `ocsp.CreateRequest` succeeds
  pub create_request : Cert → Cert → Bool
  -- `ocsp.ParseResponseForCert`
  pub parse_response_for_cert : Bytes → Cert → Cert → Option OcspResponse

pub data Fallback : Type 0 where
  fallback_allow fallback_deny fallback_crl : Fallback

pub record OcspConfig : Type 0 where
  pub ttl : ℕ
  pub fallback : Fallback
  pub crl_check : Option (String → ℕ → Fallible Bool)

abbrev pub default_ttl : ℕ
default_ttl = 300000000000

-- a time to live that is not positive is given as 0
unfoldable pub new_ocsp_cache : ℕ → String → OcspConfig
new_ocsp_cache ttl fallback = record {
  ttl = if ttl == 0 then default_ttl else ttl;
  fallback =
      if str_eq fallback "allow"
      then fallback_allow
      else if str_eq fallback "crl"
      then fallback_crl
      else fallback_deny;
  crl_check = none;
}

unfoldable pub set_crl_checker : OcspConfig → (String → ℕ → Fallible Bool) → OcspConfig
set_crl_checker c check = record c { crl_check = some check }

abbrev pub Entries : Type 0
Entries = List (String × OcspCacheEntry)

unfoldable pub entry_of : Entries → String → Option OcspCacheEntry
entry_of [] key = none
entry_of ((k, e) ∷ rest) key = if str_eq k key then some e else entry_of rest key

unfoldable pub drop_entry : Entries → String → Entries
drop_entry [] key = []
drop_entry ((k, e) ∷ rest) key =
    let later = drop_entry rest key in if str_eq k key then later else (k, e) ∷ later

-- `now.Before(t)`, where t is set
abbrev pub precedes : ℕ → Option ℕ → Bool
precedes now none = false
precedes now (some t) = ltb now t

unfoldable pub response_fresh : OcspCacheEntry → ℕ → Bool
response_fresh e now =
    if precedes now e.this_update
    then false
    else elim e.next_update [ some t ↦ ltb now t | none ↦ ltb now (e.cached_at + e.ttl) ]

-- the first location of the first extension that has one
abbrev pub first_uri : List AccessDescription → Option String
first_uri [] = none
first_uri (d ∷ ds) =
    let later = first_uri ds in if d.is_ocsp && d.is_uri then some d.location else later

abbrev pub aia_oid : String
aia_oid = "1.3.6.1.5.5.7.1.1"

abbrev pub is_good : Status → Bool
is_good good = true
is_good revoked = false
is_good unknown = false

abbrev pub is_revoked_status : Status → Bool
is_revoked_status good = false
is_revoked_status revoked = true
is_revoked_status unknown = false

unfoldable pub stats : Entries → ℕ × ℕ
stats es = (
  length (filter (λ (e : String × OcspCacheEntry). is_good e.1.status) es),
  length (filter (λ (e : String × OcspCacheEntry). is_revoked_status e.1.status) es),
)

unfoldable pub flush : Entries → Entries
flush es = []

-- true for nil
unfoldable pub fallback_err : OcspConfig → Cert → Bool
fallback_err c cert = elim c.fallback [
  | fallback_allow ↦ true
  | fallback_deny ↦ false
  | fallback_crl ↦ elim c.crl_check [
    | none ↦ false
    | some check ↦ elim (check cert.issuer cert.serial_number) [
      | error ↦ false
      | value is_on_list ↦ not is_on_list
    ]
  ]
]

-- what a call does for a key that it has no fresh answer for: it asks, or waits for the call that does
pub data Turn : Type 0 where
  -- the body of the reply, none where the request or its reading failed, and the time of its arrival
  asks : Option Bytes → ℕ → Turn
  -- the entries, and the time, when the other call has ended
  waits : Entries → ℕ → Turn

abbrev pub has_times : OcspResponse → Bool
has_times r = elim r.this_update [
  | some t ↦ true
  | none ↦ elim r.produced_at [ some t ↦ true | none ↦ false ]
]

-- `now.After(t)`, where t is set
abbrev pub follows : ℕ → Option ℕ → Bool
follows now none = false
follows now (some t) = ltb t now

module _ (lib : OcspLib) where
  unfoldable pub extract_ocsp_url : List (String × Bytes) → String
  extract_ocsp_url [] = ""
  extract_ocsp_url ((id, bytes) ∷ rest) =
      let later = extract_ocsp_url rest in
      if str_eq id aia_oid
      then elim (lib.unmarshal_aia bytes) [
        | none ↦ later
        | some ds ↦ elim (first_uri ds) [ none ↦ later | some url ↦ url ]
      ]
      else later

  module _ (p : Pki) (c : OcspConfig) where
    abbrev pub entry_for : OcspResponse → ℕ → OcspCacheEntry
    entry_for r now = record {
      status = r.status;
      cached_at = now;
      this_update = r.this_update;
      next_update = r.next_update;
      ttl = c.ttl;
    }

    abbrev pub usable : OcspResponse → ℕ → Bool
    usable r now =
        has_times r
        && (not (follows now r.next_update)
            && (not (precedes now r.this_update) && response_fresh (entry_for r now) now))

    abbrev pub cache_key : Cert → String → String
    cache_key cert url = append (p.serial_text cert.serial_number) (append "|" url)

    -- an answer that may be stored, or the fallback
    unfoldable pub settle_response :
        Entries → Cert → String → Option OcspResponse → ℕ → Entries × Bool
    settle_response es cert key none now = (es, fallback_err c cert)
    settle_response es cert key (some r) now =
        if usable r now
        then ((key, entry_for r now) ∷ drop_entry es key, is_good r.status)
        else (es, fallback_err c cert)

    unfoldable pub ask : Entries → Cert → Option Cert → String → Option Bytes → ℕ → Entries × Bool
    ask es cert none key reply now = (es, fallback_err c cert)
    ask es cert (some issuer) key reply now =
        if lib.create_request cert issuer
        then elim reply [
          | none ↦ (es, fallback_err c cert)
          | some body ↦
              settle_response es cert key
                (lib.parse_response_for_cert (take max_body body) cert issuer) now
        ]
        else (es, false)

    unfoldable pub answer_fresh : Option OcspCacheEntry → ℕ → Cert → Bool
    answer_fresh none now cert = fallback_err c cert
    answer_fresh (some e) now cert =
        if response_fresh e now then is_good e.status else fallback_err c cert

    unfoldable pub take_turn : Entries → Cert → Option Cert → String → Turn → Entries × Bool
    take_turn es cert issuer key (asks reply now) = ask es cert issuer key reply now
    take_turn es cert issuer key (waits es' now) = (es', answer_fresh (entry_of es' key) now cert)

    abbrev pub still_cached : ℕ → OcspCacheEntry → Bool
    still_cached now e = ltb (now - e.cached_at) c.ttl && response_fresh e now

    unfoldable pub look_up :
        Entries → ℕ → Cert → Option Cert → String → Turn → Option OcspCacheEntry → Entries × Bool
    look_up es now cert issuer key turn none = take_turn es cert issuer key turn
    look_up es now cert issuer key turn (some e) =
        if still_cached now e then (es, is_good e.status) else take_turn es cert issuer key turn

    -- the entries after the call, and true for nil
    unfoldable pub check : Entries → ℕ → Cert → Option Cert → Turn → Entries × Bool
    check es now cert issuer turn =
        let url = extract_ocsp_url cert.extensions in
        let key = cache_key cert url in
        if str_eq url ""
        then (es, fallback_err c cert)
        else look_up es now cert issuer key turn (entry_of es key)
