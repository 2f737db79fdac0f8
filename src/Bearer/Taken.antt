-- ===== src/Bearer/Taken.antt =====
-- jwt.go: what an accepted token leaves in the replay store.
use mathlib.Core.Path.{subst}
use aic_verifier.Prelude.{
  ℕ, ◌≡◌, refl, sym, ap, ◌∙◌, ◌⊎◌, inl, inr, String, Bool, true, false, Option, none, some, List,
  [], ◌∷◌, arith, str_eq, Bool-cases,
}
use aic_verifier.Model.{Cert, PublicKey}
use aic_verifier.BearerReplay.{MemReplayStore, ReplayError, check_and_add, first_use}
use aic_verifier.BearerReplay.SingleUse.{run_calls, accepted-Holds}
use aic_verifier.Bearer.{OuterClaims, VerifyOptions, TokenLib, BearerError}
use aic_verifier.Bearer.Certificate.{synthesize_cert_from_jwt}
use aic_verifier.Bearer.Verify.{
  take_jti, jti_used, after_jti, with_outer, after_validate, with_roots, with_claims,
}
use aic_verifier.Bearer.Held.{Held, Honest}

-- What holds of an accepted token: the store took its identifier, and is left as that call left it.
module _ (lib : TokenLib) (cert : Cert) (outer : OuterClaims) where
  with_claims-lem :
      (o : OuterClaims) (r : BearerError ⊎ Cert)
      → with_claims lib o r ≡ inr (cert, outer)
      → o ≡ outer
  with_claims-lem o (inl e) h = absurd (ground (arith, h))
  with_claims-lem o (inr c) h = ground (arith, h)

  jti_used-accepted :
      (o : OuterClaims) (r : MemReplayStore × Option ReplayError)
      → (after_jti lib o (jti_used lib r)).1 ≡ inr (cert, outer)
      → (o ≡ outer) × (r.1 ≡ none) × ((after_jti lib o (jti_used lib r)).0 ≡ some r.0)
  jti_used-accepted o (s, none) h =
      (with_claims-lem o (synthesize_cert_from_jwt lib o) h, refl, refl)
  jti_used-accepted o (s, some e) h = absurd (ground (arith, h))

  unfoldable pub Took : ℕ → MemReplayStore → Option MemReplayStore → Type 0
  Took now s st =
      ((check_and_add now outer.jti s).1 ≡ none) × (st ≡ some (check_and_add now outer.jti s).0)

  with_outer-Took :
      (now : ℕ) (s : MemReplayStore) (c : Option OuterClaims)
      → (with_outer lib now (some s) c).1 ≡ inr (cert, outer)
      → Took now s (with_outer lib now (some s) c).0
  unfolding take_jti Took
  with_outer-Took now s none = λ h. absurd (ground (arith, h))
  with_outer-Took now s (some o) = elim (Bool-cases (str_eq o.jti "")) [
    | inl empty ↦ rw (empty, take_jti) (λ h. absurd (ground (arith, h)))
    | inr given ↦
        rw (given, take_jti)
          (λ h.
            let (same, accepted, left) = jti_used-accepted o (check_and_add now o.jti s) h in
            let jti : o.jti ≡ outer.jti = ap (λ (x : OuterClaims). x.jti) same in
            (
              sym (ap (λ j. (check_and_add now j s).1) jti) ∙ accepted,
              left ∙ ap (λ j. some (check_and_add now j s).0) jti,
            ))
  ]

  after_validate-Took :
      (now : ℕ) (token : String) (s : MemReplayStore) (o : Option MemReplayStore × Bool)
      → o.0 ≡ some s
      → (after_validate lib now token o).1 ≡ inr (cert, outer)
      → Took now s (after_validate lib now token o).0
  after_validate-Took now token s (st, false) same h = absurd (ground (arith, h))
  after_validate-Took now token s (none, true) same h = absurd (ground (arith, same))
  after_validate-Took now token s (some s', true) same h =
      let own : s' ≡ s = ground (arith, same) in
      subst (λ x. Took now x (with_outer lib now (some s') (lib.claims token)).0) own
        (with_outer-Took now s' (lib.claims token) h)

  pub with_roots-Took :
      Honest lib
      → (roots : List (String × PublicKey)) (vo : VerifyOptions) (token : String)
        (s : MemReplayStore)
      → (with_roots lib roots vo token (some s)).1 ≡ inr (cert, outer)
      → (s' : MemReplayStore) × Took vo.now s' (with_roots lib roots vo token (some s)).0
  with_roots-Took honest [] vo token s h = absurd (ground (arith, h))
  with_roots-Took honest (r ∷ rs) vo token s h =
      let (cs, early, calls) = honest token vo s in
      (
        run_calls cs s,
        after_validate-Took vo.now token (run_calls cs s) (lib.validate token vo (some s)) calls h,
      )

abbrev pub lifetime : Option MemReplayStore → ℕ
lifetime none = 0
lifetime (some s) = s.ttl

pub Took-Held :
    (lib : TokenLib) (cert : Cert) (outer : OuterClaims) (now : ℕ) (s : MemReplayStore)
    (st : Option MemReplayStore)
    → Took lib cert outer now s st
    → Held outer.jti now (lifetime st) st × (str_eq outer.jti "" ≡ false)
unfolding Took
Took-Held lib cert outer now s none (accepted, left) = absurd (ground (arith, left))
Took-Held lib cert outer now s (some s') (accepted, left) =
    let own : s' ≡ (check_and_add now outer.jti s).0 = ground (arith, left) in
    let (given, held) = accepted-Holds now outer.jti s accepted in
    ((s', refl, (subst (λ x. first_use outer.jti x.seen ≡ some now) (sym own) held.0, refl)), given)
