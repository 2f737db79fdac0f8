-- ===== src/Bearer/OneTime.antt =====
-- jwt.go: a token whose identifier the replay store holds is refused.
use mathlib.Core.Path.{subst}
use aic_verifier.Prelude.{
  ℕ, ◌+◌, ◌≤◌, ◌≡◌, refl, sym, ap, ◌∙◌, inl, inr, String, Bool, true, false, Option, none, some,
  List, [], ◌∷◌, leb, all, arith, str_eq,
}
use aic_verifier.Model.{Cert, PublicKey}
use aic_verifier.BearerReplay.{
  MemReplayStore, ReplayError, nonce_replayed, check_and_add, first_use,
}
use aic_verifier.BearerReplay.SingleUse.{Holds, held_refused}
use aic_verifier.Bearer.{
  OuterClaims, JwtVerifier, VerifyOptions, TokenLib, BearerError, token_replayed, no_trust_root,
  invalid_token,
}
use aic_verifier.Bearer.Verify.{
  verify_options, take_jti, jti_used, after_jti, with_outer, after_validate, with_roots, Verified,
  verify_bearer,
}
use aic_verifier.Bearer.Held.{
  Held, Honest, Presented, present, present_all, validate-Held, present_all-Held,
  verify_options-now,
}
use aic_verifier.Bearer.Taken.{Took, lifetime, with_roots-Took, Took-Held}

module _ (lib : TokenLib) (jti : String) (t ttl : ℕ) (given : str_eq jti "" ≡ false) where
  abbrev Refused : Option MemReplayStore × Verified lib → Type 0
  Refused o = (e : BearerError) × (o.1 ≡ inl e)

  jti_used-Refused :
      (o : OuterClaims) (r : MemReplayStore × Option ReplayError) (e : ReplayError)
      → r.1 ≡ some e
      → Refused (after_jti lib o (jti_used lib r))
  jti_used-Refused o (s, none) e h = absurd (ground (arith, h))
  jti_used-Refused o (s, some x) e h = (token_replayed, refl)

  after_jti-Refused :
      (now : ℕ) (s : MemReplayStore) (o : OuterClaims)
      → o.jti ≡ jti
      → Holds jti t ttl s
      → Refused (after_jti lib o (take_jti lib now o.jti (some s)))
  unfolding take_jti
  after_jti-Refused now s o same held =
      let named : str_eq o.jti "" ≡ false = ap (λ j. str_eq j "") same ∙ given in
      let old : first_use o.jti s.seen ≡ some t = ap (λ j. first_use j s.seen) same ∙ held.0 in
      rw (named, take_jti)
        (jti_used-Refused o (check_and_add now o.jti s) (nonce_replayed t)
          (held_refused now t o.jti s named old))

  with_outer-Refused :
      (now : ℕ) (st : Option MemReplayStore) (c : Option OuterClaims) (o : OuterClaims)
      → c ≡ some o
      → o.jti ≡ jti
      → Held jti t ttl st
      → Refused (with_outer lib now st c)
  with_outer-Refused now st none o read same h = absurd (ground (arith, read))
  with_outer-Refused now none (some o') o read same (s, there, held) =
      absurd (ground (arith, there))
  with_outer-Refused now (some s') (some o') o read same (s, there, held) =
      let own : s ≡ s' = ground (arith, there) in
      let claims : o ≡ o' = ground (arith, read) in
      after_jti-Refused now s' o' (ap (λ (x : OuterClaims). x.jti) (sym claims) ∙ same)
        (subst (Holds jti t ttl) own held)

  after_validate-Refused :
      (now : ℕ) (token : String) (r : Option MemReplayStore × Bool) (o : OuterClaims)
      → lib.claims token ≡ some o
      → o.jti ≡ jti
      → Held jti t ttl r.0
      → Refused (after_validate lib now token r)
  after_validate-Refused now token (st, false) o read same h = (invalid_token, refl)
  after_validate-Refused now token (st, true) o read same h =
      with_outer-Refused now st (lib.claims token) o read same h

  with_roots-Refused :
      Honest lib
      → (roots : List (String × PublicKey)) (vo : VerifyOptions) (token : String)
        (st : Option MemReplayStore) (o : OuterClaims)
      → lib.claims token ≡ some o
      → o.jti ≡ jti
      → vo.now ≤ t + ttl
      → Held jti t ttl st
      → Refused (with_roots lib roots vo token st)
  with_roots-Refused honest [] vo token st o read same live h = (no_trust_root, refl)
  with_roots-Refused honest (r ∷ rs) vo token st o read same live h =
      after_validate-Refused vo.now token (lib.validate token vo st) o read same
        (validate-Held lib honest jti t ttl token vo st live h)

present-Refused :
    (lib : TokenLib) (v : JwtVerifier) (jti : String) (t ttl : ℕ)
    → str_eq jti "" ≡ false
    → Honest lib
    → (p : Presented) (st : Option MemReplayStore) (o : OuterClaims) → lib.claims p.token ≡ some o
    → o.jti ≡ jti
    → p.now ≤ t + ttl
    → Held jti t ttl st
    → (e : BearerError) × ((present lib v p st).1 ≡ inl e)
unfolding verify_bearer
present-Refused lib v jti t ttl given honest p st o read same live h =
    with_roots-Refused lib jti t ttl given honest v.roots (verify_options v p.now p.opts) p.token st
      o read same (omega (arith, live, verify_options-now v p.now p.opts)) h

first-Held :
    (lib : TokenLib) (v : JwtVerifier) (p : Presented) (s : MemReplayStore) (cert : Cert)
    (outer : OuterClaims)
    → Honest lib
    → (present lib v p (some s)).1 ≡ inr (cert, outer)
    → Held outer.jti p.now (lifetime (present lib v p (some s)).0) (present lib v p (some s)).0
      × (str_eq outer.jti "" ≡ false)
unfolding verify_bearer
first-Held lib v p s cert outer honest accepted =
    let vo = verify_options v p.now p.opts in
    let st = (with_roots lib v.roots vo p.token (some s)).0 in
    let (s', took) = with_roots-Took lib cert outer honest v.roots vo p.token s accepted in
    Took-Held lib cert outer p.now s' st
      (subst (λ n. Took lib cert outer n s' st) (verify_options-now v p.now p.opts) took)

-- Where the validation of tokens uses the store only by `CheckAndAdd`: once a token has been accepted with a
-- replay store, and whatever tokens are presented up to the end of the store's lifetime, a token with the
-- same identifier is refused within that lifetime.
pub bearer_single_use :
    (lib : TokenLib) (v : JwtVerifier) (first again : Presented) (between : List Presented)
    (s : MemReplayStore) (cert : Cert) (outer outer' : OuterClaims)
    → Honest lib
    → (present lib v first (some s)).1 ≡ inr (cert, outer)
    → lib.claims again.token ≡ some outer'
    → outer'.jti ≡ outer.jti
    → all
        (λ (p : Presented). leb p.now (first.now + lifetime (present lib v first (some s)).0))
        between
      ≡ true
    → again.now ≤ first.now + lifetime (present lib v first (some s)).0
    → (e : BearerError) × ((present lib v again
          (present_all lib v between (present lib v first (some s)).0)).1
        ≡ inl e)
bearer_single_use lib v first again between s cert outer outer' honest accepted read same early
      live =
    let st = (present lib v first (some s)).0 in
    let (held, given) = first-Held lib v first s cert outer honest accepted in
    let kept =
      present_all-Held lib v honest outer.jti first.now (lifetime st) between st early held in
    present-Refused lib v outer.jti first.now (lifetime st) given honest again
      (present_all lib v between st) outer' read same live kept
