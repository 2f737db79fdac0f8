-- ===== src/Pipeline/Current.antt =====
-- pipeline.go: what holds of the certificates whose validity and revocation have been checked.
use aic_verifier.Prelude.{
  ℕ, ◌≤◌, ◌≡◌, ◌⊎◌, refl, Bool, true, false, Option, none, some, List, [], ◌∷◌, arith,
}
use aic_verifier.Model.{Cert, Fallible, value, error}
use aic_verifier.Revocation.Crl.{CrlCache, is_revoked_cert}
use aic_verifier.Revocation.Ocsp.{OcspConfig, Entries, check, cache_key, extract_ocsp_url}
use aic_verifier.Revocation.Ocsp.Answers.{turn_time, Vouched, FallsBack, check_sound}
use aic_verifier.Pipeline.{
  PipelineConfig, Platform, DenyReason, PipelineCheck, check_full_chain, check_leaf_only,
}
use aic_verifier.Pipeline.Status.{
  check_cert_validity, first, on_list, check_crl, check_ocsp, or_else, check_revocation, check_cert,
  check_chain, check_scoped, check_status,
}

module _ (pl : Platform) (cfg : PipelineConfig) (now : ℕ) where
  -- with the responder's answers as they are: valid, not on the revocation list, and vouched for by the
  -- responder or accepted by the fallback, where these are configured
  pub record Current (es : Entries) (cert : Cert) (issuer : Option Cert) : Type 0 where
    pub begun : cert.not_before ≤ now
    pub not_ended : now ≤ cert.not_after
    pub not_on_list :
        (cache : CrlCache)
        → cfg.crl_cache ≡ some cache
        → is_revoked_cert pl.pki pl.crl cache now cert ≡ value false
    pub vouched :
        (c : OcspConfig)
        → cfg.ocsp_cache ≡ some c
        → (t : ℕ) × (((t ≡ now) ⊎ (t ≡ turn_time (pl.turn cert issuer)))
            × (Vouched pl.ocsp pl.pki c cert t
                  (check pl.ocsp pl.pki c es now cert issuer (pl.turn cert issuer)).0
                  (cache_key pl.ocsp pl.pki c cert (extract_ocsp_url pl.ocsp cert.extensions))
                ⊎ FallsBack pl.ocsp pl.pki c cert))

  -- each certificate with the answers that the check of the one before it has left
  abbrev pub AllCurrent : Entries → List Cert → Type 0
  AllCurrent es [] = Unit
  AllCurrent es (cert ∷ rest) =
      Current es cert (first rest) × AllCurrent (check_cert pl cfg now es cert (first rest)).0 rest

  -- the certificates that the scope asks for
  abbrev pub ScopeCurrent : PipelineCheck → Entries → Cert → List Cert → Type 0
  ScopeCurrent check_leaf_only es leaf rest = Current es leaf none
  ScopeCurrent check_full_chain es leaf rest = AllCurrent es (leaf ∷ rest)

  or_else-none :
      (d : Option DenyReason) (es : Entries) (next : Entries × Option DenyReason)
      → (or_else pl cfg now d es next).1 ≡ none
      → (d ≡ none) × (next.1 ≡ none)
  or_else-none none es next h = (refl, h)
  or_else-none (some r) es next h = absurd (ground (arith, h))

  on_list-none : (r : Fallible Bool) → on_list pl cfg now r ≡ none → r ≡ value false
  on_list-none error h = absurd (ground (arith, h))
  on_list-none (value true) h = absurd (ground (arith, h))
  on_list-none (value false) h = refl

  check_crl-none :
      (cert : Cert) (cache : CrlCache)
      → check_crl pl cfg now cert ≡ none
      → cfg.crl_cache ≡ some cache
      → is_revoked_cert pl.pki pl.crl cache now cert ≡ value false
  unfolding check_crl
  check_crl-none cert cache h e =
      on_list-none (is_revoked_cert pl.pki pl.crl cache now cert) (rw (e, check_crl) at h)

  check_ocsp-none :
      (es : Entries) (cert : Cert) (issuer : Option Cert) (c : OcspConfig)
      → (check_ocsp pl cfg now es cert issuer).1 ≡ none
      → cfg.ocsp_cache ≡ some c
      → (check pl.ocsp pl.pki c es now cert issuer (pl.turn cert issuer)).1 ≡ true
  unfolding check_ocsp
  check_ocsp-none es cert issuer c h e = ground (arith, h, e)

  check_cert-Current :
      (es : Entries) (cert : Cert) (issuer : Option Cert)
      → (check_cert pl cfg now es cert issuer).1 ≡ none
      → Current es cert issuer
  unfolding check_cert check_revocation check_cert_validity
  check_cert-Current es cert issuer h =
      let (valid, unrevoked) =
        or_else-none (check_cert_validity now cert) es (check_revocation pl cfg now es cert issuer)
          h in
      let (off_list, answered) =
        or_else-none (check_crl pl cfg now cert) es (check_ocsp pl cfg now es cert issuer)
          unrevoked in
      record {
        begun = ground (arith, valid);
        not_ended = ground (arith, valid);
        not_on_list = λ cache e. check_crl-none cert cache off_list e;
        vouched = λ c e.
            check_sound pl.ocsp pl.pki c cert es now issuer (pl.turn cert issuer)
              (check_ocsp-none es cert issuer c answered e);
      }

  check_chain-AllCurrent :
      (es : Entries) (chain : List Cert)
      → (check_chain pl cfg now es chain).1 ≡ none
      → AllCurrent es chain
  unfolding check_chain
  check_chain-AllCurrent es [] h = tt
  check_chain-AllCurrent es (cert ∷ rest) h =
      let this = check_cert pl cfg now es cert (first rest) in
      let (one, others) = or_else-none this.1 this.0 (check_chain pl cfg now this.0 rest) h in
      (check_cert-Current es cert (first rest) one, check_chain-AllCurrent this.0 rest others)

  check_scoped-ScopeCurrent :
      (scope : PipelineCheck) (es : Entries) (leaf : Cert) (rest : List Cert)
      → (check_scoped pl cfg now scope es leaf rest).1 ≡ none
      → ScopeCurrent scope es leaf rest
  unfolding check_scoped
  check_scoped-ScopeCurrent check_leaf_only es leaf rest h = check_cert-Current es leaf none h
  check_scoped-ScopeCurrent check_full_chain es leaf rest h =
      check_chain-AllCurrent es (leaf ∷ rest) h

  pub check_status-ScopeCurrent :
      (es : Entries) (leaf : Cert) (rest : List Cert)
      → (check_status pl cfg now es leaf rest).1 ≡ none
      → ScopeCurrent cfg.check_scope es leaf rest
  unfolding check_status
  check_status-ScopeCurrent = check_scoped-ScopeCurrent cfg.check_scope
