-- ===== src/Spiffe.antt =====
-- spiffe.go: SPIFFE identities of certificates. `url.Parse` and `strings.ToLower` are parameters.
pub mod Canonical
use Prim.Native.Char.{code}
use Prim.Native.String.{◌++◌ as append, len, slice, ◌∷◌ as char}
use aic_verifier.Prelude.{
  ℕ, String, Bool, true, false, not, ◌&&◌, ◌||◌, Option, none, some, List, [], ◌∷◌, any, leb, ◌==◌,
  str_eq, starts_with, if◌then◌else◌,
}
use aic_verifier.Model.{Cert, Fallible, value, error}

pub record SpiffeId : Type 0 where
  pub trust_domain : String
  pub path : String

-- the parts of a parsed URL
pub record Url : Type 0 where
  pub scheme : String
  pub hostname : String
  pub path : String

abbrev pub scheme_prefix : String
scheme_prefix = "spiffe://"

unfoldable pub to_text : Option SpiffeId → String
to_text none = ""
to_text (some s) = append scheme_prefix (append s.trust_domain s.path)

unfoldable pub equal : Option SpiffeId → Option SpiffeId → Bool
equal none none = true
equal none (some b) = false
equal (some a) none = false
equal (some a) (some b) = str_eq a.trust_domain b.trust_domain && str_eq a.path b.path

abbrev pub first_spiffe : List (String × String) → String
first_spiffe [] = ""
first_spiffe ((scheme, text) ∷ rest) =
    let later = first_spiffe rest in if str_eq scheme "spiffe" then text else later

unfoldable pub extract_spiffe_id_from_cert : Cert → String
extract_spiffe_id_from_cert cert = first_spiffe cert.uris

abbrev pub is_domain_char : ℕ → Bool
is_domain_char c =
    leb b'a' c && leb c b'z'
    || (leb b'0' c && leb c b'9' || (c == b'-' || (c == b'_' || c == b'.')))

unfoldable pub valid_trust_domain_charset : String → Bool
valid_trust_domain_charset String.[] = true
valid_trust_domain_charset (String.◌∷◌ c s) =
    let rest = valid_trust_domain_charset s in if is_domain_char (code c) then rest else false

unfoldable pub has_dot : String → Bool
has_dot String.[] = false
has_dot (String.◌∷◌ c s) = let rest = has_dot s in if code c == b'.' then true else rest

-- a text up to its first slash, and from it on
unfoldable pub before_slash : String → String
before_slash String.[] = String.[]
before_slash (String.◌∷◌ c s) =
    let rest = char c (before_slash s) in if code c == b'/' then String.[] else rest

unfoldable pub from_slash : String → String
from_slash String.[] = String.[]
from_slash (String.◌∷◌ c s) = let rest = from_slash s in if code c == b'/' then char c s else rest

module _ (to_lower : String → String) where
  unfoldable pub canonical_spiffe_id : String → String
  unfolding before_slash from_slash
  canonical_spiffe_id id =
      let rest = slice id 9 (len id) in
      if not (starts_with id scheme_prefix)
      then id
      else append scheme_prefix (append (to_lower (before_slash rest)) (from_slash rest))

  unfoldable pub verify_spiffe_san : Cert → String → Bool
  unfolding extract_spiffe_id_from_cert canonical_spiffe_id
  verify_spiffe_san cert expected =
      str_eq (canonical_spiffe_id (extract_spiffe_id_from_cert cert)) (canonical_spiffe_id expected)

  module _ (parse_url : String → Option Url) where
    abbrev pub of_url : Url → Option SpiffeId
    of_url u =
        let domain = to_lower u.hostname in
        if not (str_eq u.scheme "spiffe")
        then none
        else if str_eq domain ""
        then none
        else if not (valid_trust_domain_charset domain)
        then none
        else if not (has_dot domain)
        then none
        else some
            (record { trust_domain = domain; path = if str_eq u.path "" then "/" else u.path })

    -- none for an error
    unfoldable pub parse_spiffe_id : String → Option SpiffeId
    parse_spiffe_id id = elim (parse_url id) [ none ↦ none | some u ↦ of_url u ]

    unfoldable pub extract_spiffe_id : Option Cert → Option SpiffeId
    unfolding extract_spiffe_id_from_cert parse_spiffe_id
    extract_spiffe_id none = none
    extract_spiffe_id (some cert) =
        if str_eq (extract_spiffe_id_from_cert cert) ""
        then none
        else parse_spiffe_id (extract_spiffe_id_from_cert cert)
