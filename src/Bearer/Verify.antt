-- ===== src/Bearer/Verify.antt =====
-- jwt.go: `VerifyBearer`.
use aic_verifier.Prelude.{
  ℕ, String, Bool, true, false, Option, none, some, List, [], ◌∷◌, str_eq, if◌then◌else◌, ◌⊎◌, inl,
  inr,
}
use aic_verifier.Model.{Cert, PublicKey}
use aic_verifier.BearerReplay.{MemReplayStore, ReplayError, check_and_add}
use aic_verifier.Bearer.{
  OuterClaims, JwtVerifier, JwtVerifyOptions, VerifyOptions, TokenLib, BearerError, no_trust_root,
  invalid_token, unreadable_token, jti_required, token_replayed, text_or, list_or,
}
use aic_verifier.Bearer.Certificate.{synthesize_cert_from_jwt}

unfoldable pub verify_options : JwtVerifier → ℕ → Option JwtVerifyOptions → VerifyOptions
verify_options v now none = record {
  now = now;
  issuer_keys = v.roots;
  expected_issuer = v.expected_issuer;
  expected_audience = v.expected_audience;
  presenter_key = none;
  require_jti_nonce_match = false;
  status_checker = none;
}
verify_options v now (some o) = record {
  now = now;
  issuer_keys = v.roots;
  expected_issuer = text_or v.expected_issuer o.expected_issuer;
  expected_audience = list_or v.expected_audience o.expected_audience;
  presenter_key = o.presenter_key;
  require_jti_nonce_match = o.require_jti_nonce_match;
  status_checker = o.status_checker;
}

module _ (lib : TokenLib) where
  abbrev pub Verified : Type 0
  Verified = BearerError ⊎ (Cert × OuterClaims)

  abbrev pub with_claims : OuterClaims → BearerError ⊎ Cert → Verified
  with_claims outer (inl e) = inl e
  with_claims outer (inr cert) = inr (cert, outer)

  abbrev pub jti_used :
      MemReplayStore × Option ReplayError → Option MemReplayStore × Option BearerError
  jti_used (s, none) = (some s, none)
  jti_used (s, some e) = (some s, some token_replayed)

  -- the identifier of the token as a one-time nonce
  unfoldable pub take_jti :
      ℕ → String → Option MemReplayStore → Option MemReplayStore × Option BearerError
  take_jti now jti none = (none, none)
  take_jti now jti (some s) =
      if str_eq jti "" then (some s, some jti_required) else jti_used (check_and_add now jti s)

  abbrev pub after_jti :
      OuterClaims → Option MemReplayStore × Option BearerError → Option MemReplayStore × Verified
  after_jti outer (st, some e) = (st, inl e)
  after_jti outer (st, none) = (st, with_claims outer (synthesize_cert_from_jwt lib outer))

  abbrev pub with_outer :
      ℕ → Option MemReplayStore → Option OuterClaims → Option MemReplayStore × Verified
  with_outer now st none = (st, inl unreadable_token)
  with_outer now st (some outer) = after_jti outer (take_jti now outer.jti st)

  abbrev pub after_validate :
      ℕ → String → Option MemReplayStore × Bool → Option MemReplayStore × Verified
  after_validate now token (st, false) = (st, inl invalid_token)
  after_validate now token (st, true) = with_outer now st (lib.claims token)

  abbrev pub with_roots :
      List (String × PublicKey)
      → VerifyOptions
      → String
      → Option MemReplayStore
      → Option MemReplayStore × Verified
  with_roots [] vo token st = (st, inl no_trust_root)
  with_roots (r ∷ rs) vo token st = after_validate vo.now token (lib.validate token vo st)

  unfoldable pub verify_bearer :
      JwtVerifier
      → Option JwtVerifyOptions
      → String
      → ℕ
      → Option MemReplayStore
      → Option MemReplayStore × Verified
  verify_bearer v opts token now st = with_roots v.roots (verify_options v now opts) token st
