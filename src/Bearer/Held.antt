-- ===== src/Bearer/Held.antt =====
-- jwt.go: `VerifyBearer` keeps an identifier that the replay store holds.
use mathlib.Core.Path.{subst}
use aic_verifier.Prelude.{
  ℕ, ◌+◌, ◌≤◌, ◌≡◌, refl, ap, ◌∙◌, inl, inr, String, Bool, true, false, Option, none, some, List,
  [], ◌∷◌, leb, all, arith, str_eq, Bool-cases,
}
use aic_verifier.Model.{PublicKey}
use aic_verifier.BearerReplay.{MemReplayStore, ReplayError, check_and_add}
use aic_verifier.BearerReplay.SingleUse.{
  Holds, Call, run_calls, run_calls-Holds, check_and_add-Holds,
}
use aic_verifier.Bearer.{
  OuterClaims, JwtVerifier, JwtVerifyOptions, VerifyOptions, TokenLib, BearerError,
}
use aic_verifier.Bearer.Verify.{
  verify_options, take_jti, jti_used, after_jti, with_outer, after_validate, with_roots, Verified,
  verify_bearer,
}

-- the store in use holds the identifier
abbrev pub Held : String → ℕ → ℕ → Option MemReplayStore → Type 0
Held jti t ttl st = (s : MemReplayStore) × (st ≡ some s) × Holds jti t ttl s

module _ (lib : TokenLib) where
  -- The validation touches the store only by `CheckAndAdd`, at the time that it is given.
  abbrev pub Honest : Type 0
  Honest =
      (token : String) (vo : VerifyOptions) (s : MemReplayStore)
      → (cs : List Call) × (all (λ (c : Call). leb c.now vo.now) cs ≡ true)
        × ((lib.validate token vo (some s)).0 ≡ some (run_calls cs s))

  module _ (honest : Honest) (jti : String) (t ttl : ℕ) where
    early-calls :
        (n m : ℕ) (cs : List Call)
        → n ≤ m
        → all (λ (c : Call). leb c.now n) cs ≡ true
        → all (λ (c : Call). leb c.now m) cs ≡ true
    early-calls n m [] le h = refl
    early-calls n m (c ∷ cs) le h = ground (arith, le, h, early-calls n m cs le (ground (arith, h)))

    pub validate-Held :
        (token : String) (vo : VerifyOptions) (st : Option MemReplayStore)
        → vo.now ≤ t + ttl
        → Held jti t ttl st
        → Held jti t ttl (lib.validate token vo st).0
    validate-Held token vo st live (s, same, held) =
        let (cs, early, calls) = honest token vo s in
        (
          run_calls cs s,
          ap (λ x. (lib.validate token vo x).0) same ∙ calls,
          run_calls-Holds jti t ttl cs s (early-calls vo.now (t + ttl) cs live early) held,
        )

    used-Held :
        (o : MemReplayStore × Option ReplayError)
        → Holds jti t ttl o.0
        → Held jti t ttl (jti_used lib o).0
    used-Held (s, none) held = (s, refl, held)
    used-Held (s, some e) held = (s, refl, held)

    take_jti-Held :
        (now : ℕ) (other : String) (st : Option MemReplayStore)
        → now ≤ t + ttl
        → Held jti t ttl st
        → Held jti t ttl (take_jti lib now other st).0
    unfolding take_jti
    take_jti-Held now other none live (s, same, held) = absurd (ground (arith, same))
    take_jti-Held now other (some s') live (s, same, held) =
        let one : s ≡ s' = ground (arith, same) in
        let own : Holds jti t ttl s' = subst (Holds jti t ttl) one held in
        elim (Bool-cases (str_eq other "")) [
          | inl empty ↦ rw (empty, take_jti) (s', refl, own)
          | inr given ↦
              let (kept, size) =
                check_and_add-Holds now other jti t s' (omega (arith, live, own.1)) own.0 in
              rw (given, take_jti) (used-Held (check_and_add now other s') (kept, size ∙ own.1))
        ]

    after_jti-Held :
        (outer : OuterClaims) (o : Option MemReplayStore × Option BearerError)
        → Held jti t ttl o.0
        → Held jti t ttl (after_jti lib outer o).0
    after_jti-Held outer (st, none) h = h
    after_jti-Held outer (st, some e) h = h

    with_outer-Held :
        (now : ℕ) (st : Option MemReplayStore) (o : Option OuterClaims)
        → now ≤ t + ttl
        → Held jti t ttl st
        → Held jti t ttl (with_outer lib now st o).0
    with_outer-Held now st none live h = h
    with_outer-Held now st (some outer) live h =
        after_jti-Held outer (take_jti lib now outer.jti st) (take_jti-Held now outer.jti st live h)

    after_validate-Held :
        (now : ℕ) (token : String) (o : Option MemReplayStore × Bool)
        → now ≤ t + ttl
        → Held jti t ttl o.0
        → Held jti t ttl (after_validate lib now token o).0
    after_validate-Held now token (st, false) live h = h
    after_validate-Held now token (st, true) live h =
        with_outer-Held now st (lib.claims token) live h

    with_roots-Held :
        (roots : List (String × PublicKey)) (vo : VerifyOptions) (token : String)
        (st : Option MemReplayStore)
        → vo.now ≤ t + ttl
        → Held jti t ttl st
        → Held jti t ttl (with_roots lib roots vo token st).0
    with_roots-Held [] vo token st live h = h
    with_roots-Held (r ∷ rs) vo token st live h =
        after_validate-Held vo.now token (lib.validate token vo st) live
          (validate-Held token vo st live h)

pub verify_options-now :
    (v : JwtVerifier) (now : ℕ) (opts : Option JwtVerifyOptions)
    → (verify_options v now opts).now ≡ now
unfolding verify_options
verify_options-now v now none = refl
verify_options-now v now (some o) = refl

-- a call of `VerifyBearer`
pub record Presented : Type 0 where
  pub opts : Option JwtVerifyOptions
  pub token : String
  pub now : ℕ

module _ (lib : TokenLib) (v : JwtVerifier) where
  abbrev pub present : Presented → Option MemReplayStore → Option MemReplayStore × Verified lib
  present p st = verify_bearer lib v p.opts p.token p.now st

  unfoldable pub present_all : List Presented → Option MemReplayStore → Option MemReplayStore
  present_all [] st = st
  present_all (p ∷ ps) st = present_all ps (present p st).0

  pub present-Held :
      Honest lib
      → (jti : String) (t ttl : ℕ) (p : Presented) (st : Option MemReplayStore) → p.now ≤ t + ttl
      → Held jti t ttl st
      → Held jti t ttl (present p st).0
  unfolding verify_bearer
  present-Held honest jti t ttl p st live h =
      with_roots-Held lib honest jti t ttl v.roots (verify_options v p.now p.opts) p.token st
        (omega (arith, live, verify_options-now v p.now p.opts)) h

  pub present_all-Held :
      Honest lib
      → (jti : String) (t ttl : ℕ) (ps : List Presented) (st : Option MemReplayStore)
      → all (λ (p : Presented). leb p.now (t + ttl)) ps ≡ true
      → Held jti t ttl st
      → Held jti t ttl (present_all ps st)
  unfolding present_all
  present_all-Held honest jti t ttl [] st early h = h
  present_all-Held honest jti t ttl (p ∷ ps) st early h =
      present_all-Held honest jti t ttl ps (present p st).0 (ground (arith, early))
        (present-Held honest jti t ttl p st (ground (arith, early)) h)
