-- ===== src/Revocation/Ocsp/Answers.antt =====
-- ocsp.go: what stands behind an answer of `OCSPCache.Check`.
use aic_verifier.Prelude.{
  ℕ, ◌≡◌, refl, String, Bool, true, false, Option, none, some, ◌∷◌, ◌⊎◌, inl, inr, str_eq, eq_iff,
  arith, Bool-cases, Option-cases,
}
use aic_verifier.Merkle.{Bytes}
use aic_verifier.Model.{Cert, Pki, Fallible, value, error}
use aic_verifier.Revocation.Crl.{take, max_body}
use aic_verifier.Revocation.Ocsp.{
  Status, good, revoked, unknown, OcspCacheEntry, OcspResponse, OcspLib, Fallback, fallback_allow,
  fallback_crl, fallback_deny, OcspConfig, Entries, entry_of, drop_entry, response_fresh,
  fallback_err, Turn, asks, waits, is_good, extract_ocsp_url, entry_for, usable, cache_key,
  settle_response, ask, answer_fresh, take_turn, look_up, still_cached, check,
}

is_good-good : (s : Status) → is_good s ≡ true → s ≡ good
is_good-good good h = refl
is_good-good revoked h = absurd (ground arith)
is_good-good unknown h = absurd (ground arith)

-- when a call's turn ends
abbrev pub turn_time : Turn → ℕ
turn_time (asks reply now) = now
turn_time (waits es now) = now

module _ (lib : OcspLib) (p : Pki) (c : OcspConfig) (cert : Cert) where
  -- the entries hold an answer "good" that is in force at a time
  abbrev pub Vouched : ℕ → Entries → String → Type 0
  Vouched t es key =
      (e : OcspCacheEntry) × ((entry_of es key ≡ some e)
        × ((e.status ≡ good) × (response_fresh e t ≡ true)))

  -- the configured fallback accepts the certificate
  abbrev pub FallsBack : Type 0
  FallsBack =
      (c.fallback ≡ fallback_allow)
      ⊎ ((c.fallback ≡ fallback_crl)
          × ((crl_check : String → ℕ → Fallible Bool) × (c.crl_check ≡ some crl_check)
              × (crl_check cert.issuer cert.serial_number ≡ value false)))

  fallback-FallsBack : fallback_err c cert ≡ true → FallsBack
  unfolding fallback_err
  fallback-FallsBack h = go c.fallback refl
    where
      go_answer :
          (crl_check : String → ℕ → Fallible Bool) (r : Fallible Bool)
          → c.fallback ≡ fallback_crl
          → c.crl_check ≡ some crl_check
          → crl_check cert.issuer cert.serial_number ≡ r
          → FallsBack
      go_answer f error a b e = absurd (ground (arith, a, b, e, h))
      go_answer f (value true) a b e = absurd (ground (arith, a, b, e, h))
      go_answer f (value false) a b e = inr (a, (f, b, e))

      go : (f : Fallback) → c.fallback ≡ f → FallsBack
      go fallback_allow e = inl e
      go fallback_deny e = absurd (ground (arith, e, h))
      go fallback_crl e = elim (Option-cases c.crl_check) [
        | inl without ↦ absurd (ground (arith, e, without, h))
        | inr (f, configured) ↦ go_answer f (f cert.issuer cert.serial_number) e configured refl
      ]

  abbrev Backed : ℕ → Entries × Bool → String → Type 0
  Backed t r key = r.1 ≡ true → Vouched t r.0 key ⊎ FallsBack

  entry_of-stored :
      (es : Entries) (key : String) (e : OcspCacheEntry)
      → entry_of ((key, e) ∷ drop_entry es key) key ≡ some e
  unfolding entry_of
  entry_of-stored es key e = ground (arith, eq_iff key key)

  settle_response-Backed :
      (es : Entries) (key : String) (r : Option OcspResponse) (now : ℕ)
      → Backed now (settle_response lib p c es cert key r now) key
  unfolding settle_response
  settle_response-Backed es key none now h = inr (fallback-FallsBack h)
  settle_response-Backed es key (some r) now h = elim (Bool-cases (usable lib p c r now)) [
    | inr useless ↦ inr (fallback-FallsBack (ground (arith, useless, h)))
    | inl ok ↦
        let answered : is_good r.status ≡ true = ground (arith, ok, h) in
        let fresh : response_fresh (entry_for lib p c r now) now ≡ true = ground (arith, ok) in
        inl (
          entry_for lib p c r now,
          (
            rw ok (entry_of-stored es key (entry_for lib p c r now)),
            (is_good-good r.status answered, fresh),
          ),
        )
  ]

  ask-Backed :
      (es : Entries) (issuer : Option Cert) (key : String) (reply : Option Bytes) (now : ℕ)
      → Backed now (ask lib p c es cert issuer key reply now) key
  unfolding ask
  ask-Backed es none key reply now h = inr (fallback-FallsBack h)
  ask-Backed es (some issuer) key none now h = elim (Bool-cases (lib.create_request cert issuer)) [
    | inr failed ↦ absurd (ground (arith, failed, h))
    | inl created ↦ inr (fallback-FallsBack (ground (arith, created, h)))
  ]
  ask-Backed es (some issuer) key (some body) now h =
      elim (Bool-cases (lib.create_request cert issuer)) [
        | inr failed ↦ absurd (ground (arith, failed, h))
        | inl created ↦
            let parsed = lib.parse_response_for_cert (take max_body body) cert issuer in
            rw created (settle_response-Backed es key parsed now (rw created at h))
      ]

  answer_fresh-Backed :
      (es : Entries) (key : String) (e : Option OcspCacheEntry) (now : ℕ)
      → entry_of es key ≡ e
      → Backed now (es, answer_fresh lib p c e now cert) key
  unfolding answer_fresh
  answer_fresh-Backed es key none now held h = inr (fallback-FallsBack h)
  answer_fresh-Backed es key (some e) now held h = elim (Bool-cases (response_fresh e now)) [
    | inr stale ↦ inr (fallback-FallsBack (ground (arith, stale, h)))
    | inl fresh ↦ inl (e, (held, (is_good-good e.status (ground (arith, fresh, h)), fresh)))
  ]

  take_turn-Backed :
      (es : Entries) (issuer : Option Cert) (key : String) (turn : Turn)
      → Backed (turn_time turn) (take_turn lib p c es cert issuer key turn) key
  unfolding take_turn
  take_turn-Backed es issuer key (asks reply now) = ask-Backed es issuer key reply now
  take_turn-Backed es issuer key (waits es' now) =
      answer_fresh-Backed es' key (entry_of es' key) now refl

  look_up-Backed :
      (es : Entries) (now : ℕ) (issuer : Option Cert) (key : String) (turn : Turn)
      (e : Option OcspCacheEntry)
      → entry_of es key ≡ e
      → (look_up lib p c es now cert issuer key turn e).1 ≡ true
      → (t : ℕ) × (((t ≡ now) ⊎ (t ≡ turn_time turn))
          × (Vouched t (look_up lib p c es now cert issuer key turn e).0 key ⊎ FallsBack))
  unfolding look_up
  look_up-Backed es now issuer key turn none held h =
      (turn_time turn, (inr refl, take_turn-Backed es issuer key turn h))
  look_up-Backed es now issuer key turn (some e) held h =
      elim (Bool-cases (still_cached lib p c now e)) [
        | inr old ↦
            rw old (turn_time turn, (inr refl, take_turn-Backed es issuer key turn (rw old at h)))
        | inl cached ↦
            let answered : is_good e.status ≡ true = ground (arith, cached, h) in
            let fresh : response_fresh e now ≡ true = ground (arith, cached) in
            rw cached (now, (inl refl, inl (e, (held, (is_good-good e.status answered, fresh)))))
      ]

  -- Whatever the cache holds, the responder replies and concurrent calls do: a certificate passes only
  -- if the entries after the call hold, for its serial number and responder, the status good in force
  -- at the time of the call or at the end of its turn, or if the fallback is to allow, or it is to ask
  -- the CRL and that answers that the certificate is not revoked.
  pub check_sound :
      (es : Entries) (now : ℕ) (issuer : Option Cert) (turn : Turn)
      → (check lib p c es now cert issuer turn).1 ≡ true
      → (t : ℕ) × (((t ≡ now) ⊎ (t ≡ turn_time turn))
          × (Vouched t
                (check lib p c es now cert issuer turn).0
                (cache_key lib p c cert (extract_ocsp_url lib cert.extensions))
              ⊎ FallsBack))
  unfolding check
  check_sound es now issuer turn h =
      let url = extract_ocsp_url lib cert.extensions in
      let key = cache_key lib p c cert url in
      elim (Bool-cases (str_eq url "")) [
        | inl missing ↦ (now, (inl refl, inr (fallback-FallsBack (ground (arith, missing, h)))))
        | inr named ↦
            rw named (look_up-Backed es now issuer key turn (entry_of es key) refl (rw named at h))
      ]
