-- ===== src/Examples/Status.antt =====
-- The theorems on revocation, on identities and on parameters at concrete lists and replies.
use text.Mathlib.TextLemmas.{tail-eq_of_cons-eq, nil≢cons, cons≢nil}
use aic_verifier.Prelude.{
  ℕ, zero, suc, ◌≡◌, ◌⊎◌, refl, ap, String, true, ◌&&◌, Option, none, some, [], ◌∷◌, any, ◌==◌,
  if◌then◌else◌, any,
}
use aic_verifier.Merkle.{Bytes}
use aic_verifier.Model.{Cert, Capability, Pki, Fallible, value, error}
use aic_verifier.Revocation.Crl.{
  RevocationList, CrlLib, CrlCache, new_crl_cache, refresh, accept_list, install, take,
  issuer_matches_ca, is_revoked_cert, issued_by_ca, is_after,
}
use aic_verifier.Revocation.Crl.Refreshed.{
  list_of, may_follow, Kept, refresh_answers, refresh_all, refresh_all-Kept,
}
use aic_verifier.Revocation.Ocsp.{
  OcspLib, OcspConfig, good, Turn, asks, fallback_deny, check, extract_ocsp_url, cache_key, look_up,
  take_turn, ask, settle_response, entry_of, response_fresh, fallback_err,
}
use aic_verifier.Revocation.Ocsp.Answers.{Vouched, FallsBack, turn_time, check_sound}
use aic_verifier.Parameters.{Number, natural}
use aic_verifier.Examples.Setup.{toy_pki, alice, agent, cap}

abbrev tally : ℕ → String
tally zero = ""
tally (suc n) = String.◌∷◌ "i" (tally n)

tally-inj : (m n : ℕ) → tally m ≡ tally n → m ≡ n
tally-inj zero zero e = refl
tally-inj zero (suc n) e = elim (nil≢cons e) [ ]
tally-inj (suc m) zero e = elim (cons≢nil e) [ ]
tally-inj (suc m) (suc n) e = ap suc (tally-inj m n (tail-eq_of_cons-eq e))

abbrev counted : Pki
counted = record toy_pki { serial_text = tally }

-- agent and alice name this authority as their issuer
abbrev authority : Cert
authority = record alice { raw_subject = 1 ∷ [] }

abbrev pub monthly : RevocationList
monthly = record {
  issuer = "CN=ca";
  revoked_certificates = 3 ∷ 7 ∷ [];
  this_update = some 50;
  next_update = some 500;
}

abbrev pub toy_crl : CrlLib
toy_crl = record {
  decode_pem = λ b. none;
  parse_der_crl = λ b. some monthly;
  unmarshal_name = λ b. some (("CN=ca" ∷ []) ∷ []);
  name_text = λ n. "CN=ca";
  check_crl_signature = λ c l. true;
  sort_strings = λ l. l;
}

abbrev fresh_cache : CrlCache
fresh_cache = new_crl_cache authority "CN=ca"

refresh_answers_example :
    (crl : RevocationList) × ((list_of toy_crl (some (4 ∷ [])) ≡ some crl)
      × ((issued_by_ca toy_crl fresh_cache.ca_cert crl ≡ true)
          × (toy_crl.check_crl_signature fresh_cache.ca_cert crl ≡ true)
          × (may_follow crl fresh_cache ≡ true))
      × ((cert : Cert) (later : ℕ)
          → is_revoked_cert counted toy_crl
              (refresh counted toy_crl fresh_cache 60 (some (4 ∷ []))).0
              later
              cert
            ≡ (if is_after later crl.next_update
                then error
                else value (
                    issuer_matches_ca toy_crl fresh_cache cert
                    && any (λ m. cert.serial_number == m) crl.revoked_certificates))))
unfolding refresh accept_list install take new_crl_cache
refresh_answers_example =
    refresh_answers counted toy_crl tally-inj fresh_cache 60 (some (4 ∷ [])) refl

refresh_all-Kept_example :
    Kept counted toy_crl fresh_cache
      (refresh_all counted toy_crl fresh_cache ((60, some (4 ∷ [])) ∷ (70, none) ∷ []))
refresh_all-Kept_example =
    refresh_all-Kept counted toy_crl fresh_cache ((60, some (4 ∷ [])) ∷ (70, none) ∷ [])

abbrev pub toy_ocsp : OcspLib
toy_ocsp = record {
  unmarshal_aia =
      λ b. some (record { is_ocsp = true; is_uri = true; location = "http://ocsp" } ∷ []);
  create_request = λ c i. true;
  parse_response_for_cert = λ b c i. some (record {
    status = good;
    produced_at = some 90;
    this_update = some 90;
    next_update = some 400;
  });
}

abbrev pub strict : OcspConfig
strict = record { ttl = 300; fallback = fallback_deny; crl_check = none }

abbrev pub with_responder : Cert
with_responder = record agent { extensions = ("1.3.6.1.5.5.7.1.1", 9 ∷ []) ∷ [] }

abbrev pub reply : Turn
reply = asks (some (5 ∷ [])) 101

check_sound_example :
    (t : ℕ) × (((t ≡ 100) ⊎ (t ≡ turn_time reply))
      × (Vouched toy_ocsp toy_pki strict with_responder t
            (check toy_ocsp toy_pki strict [] 100 with_responder (some authority) reply).0
            (cache_key toy_ocsp toy_pki strict with_responder
              (extract_ocsp_url toy_ocsp with_responder.extensions))
          ⊎ FallsBack toy_ocsp toy_pki strict with_responder))
unfolding check extract_ocsp_url look_up take_turn ask settle_response entry_of response_fresh take
    fallback_err
check_sound_example =
    check_sound toy_ocsp toy_pki strict with_responder [] 100 (some authority) reply refl

abbrev rows : Bytes → Fallible (Option Number)
rows [] = value none
rows (b ∷ bs) = value (some (natural b))

abbrev report : ℕ → Capability
report n = record (cap "report:read") { scheme_id = "report"; parameters = n ∷ [] }
