-- ===== src/Admission/Contained.antt =====
-- decision.go: the state and the capabilities after a refusal by `CheckAdmission`.
use aic_verifier.Prelude.{
  ℕ, ◌≡◌, refl, Bool, true, false, not, Option, none, some, [], is_some, ◌&&◌, Bool-cases, inl, inr,
  ◌⊎◌,
}
use aic_verifier.Model.{Cert, Aic, PrincipalAuthorization, Pki, Fallible, value, error}
use aic_verifier.Nonce.{NonceCache}
use aic_verifier.DelegationAuth.{Crypto, verify_delegation_auth_with_agent}
use aic_verifier.Clc.{Semantics}
use aic_verifier.Clc.Evaluation.{OperationRefusal, OperationOutcome}
use aic_verifier.Admission.Guards.{
  check_fields, check_mode, check_declarations, check_required, refreshed_authorization,
  check_pa_constraints, check_aic_constraints,
}
use aic_verifier.Admission.{
  refuse_if, ◌>>>◌, principal_authorization_required, AdmissionConfig, World, Outcome, Check, stage,
}
use aic_verifier.Admission.Effective.{Effective, effective, not_effective, effective_caps_of}
use aic_verifier.Admission.Delegated.{signer, select_signer, check_delegation}
use aic_verifier.Admission.Decide.{
  presents_nonce, operations_of, use_nonce, logged, grant_effective, after_nonce, after_operations,
  decide_operations, operation_refusal, after_constraints, after_parse, with_own, with_aic,
  check_admission,
}
use aic_verifier.Admission.Passed.{IsAdmitted, >>>-none}
use aic_verifier.Admission.Sound.{signer-select}

module _ (p : Pki) (s : Semantics) (k : Crypto) (cfg : AdmissionConfig) (now : ℕ) (cert : Cert)
    (n : NonceCache) where
  -- the certificate presents a nonce, and the signer that the configuration selects for its delegation
  -- has been verified, unless the configuration leaves that out
  abbrev pub Verified : Type 0
  Verified =
      (aic : Aic) × ((p.parse_aic cert ≡ value (some aic))
        × ((presents_nonce cfg (some aic) ≡ true)
            × ((cfg.skip_delegation_auth_verification ≡ true)
                ⊎ ((c : Cert) × ((select_signer p cfg aic cert ≡ signer c)
                      × (verify_delegation_auth_with_agent p k (some aic) (some c) (some cert)
                          ≡ none))))))

  delegation-Verified :
      (aic : Aic)
      → p.parse_aic cert ≡ value (some aic)
      → presents_nonce cfg (some aic) ≡ true
      → check_delegation p cfg k now cert (some aic) ≡ none
      → Verified
  delegation-Verified aic a held h = elim (Bool-cases cfg.skip_delegation_auth_verification) [
    | inl off ↦ (aic, (a, (held, inl off)))
    | inr on ↦ (aic, (a, (held, inr (signer-select p s k cfg now cert aic on h))))
  ]

  abbrev pub Contained : Outcome → Type 0
  Contained o = (IsAdmitted o ⊎ (o.1.effective_caps ≡ [])) × ((o.0.nonces ≡ n) ⊎ Verified)

  stage-Contained :
      (w : World) (c : Check) (next : Outcome)
      → w.nonces ≡ n
      → (c ≡ none → Contained next)
      → Contained (stage w c next)
  unfolding stage
  stage-Contained w none next same h = h refl
  stage-Contained w (some r) next same h = (inr refl, inl same)

  grant_effective-Contained :
      (aic : Option Aic) (pa : Option PrincipalAuthorization) (ops : OperationOutcome) (w : World)
      (e : Effective)
      → (w.nonces ≡ n) ⊎ Verified
      → Contained (grant_effective p s k cfg now cert aic pa ops w e)
  unfolding grant_effective
  grant_effective-Contained aic pa ops w (not_effective r) h = (inr refl, h)
  grant_effective-Contained aic pa ops w (effective caps) h = (inl refl, h)

  after_nonce-Contained :
      (aic : Option Aic) (pa : Option PrincipalAuthorization) (ops : OperationOutcome)
      (r : World × Bool)
      → (r.0.nonces ≡ n) ⊎ Verified
      → Contained (after_nonce p s k cfg now cert aic pa ops r)
  unfolding after_nonce
  after_nonce-Contained aic pa ops (w, false) h = (inr refl, h)
  after_nonce-Contained aic pa ops (w, true) h =
      grant_effective-Contained aic pa ops w (effective_caps_of p cfg aic pa) h

  use_nonce-Verified :
      (w : World) (aic : Option Aic)
      → w.nonces ≡ n
      → p.parse_aic cert ≡ value aic
      → check_delegation p cfg k now cert aic ≡ none
      → ((use_nonce p s k cfg w now cert aic).0.nonces ≡ n) ⊎ Verified
  unfolding use_nonce
  use_nonce-Verified w none same a h = inl same
  use_nonce-Verified w (some aic) same a h = elim (Bool-cases (presents_nonce cfg (some aic))) [
    | inl held ↦ inr (delegation-Verified aic a held h)
    | inr without ↦ inl (rw (without, use_nonce) same)
  ]

  module _ (w : World) (aic : Option Aic) (same : w.nonces ≡ n)
      (a : p.parse_aic cert ≡ value aic) where
    after_operations-Contained :
        (pa : Option PrincipalAuthorization) (ops : OperationOutcome)
        → Contained (after_operations p s k cfg now cert w aic pa ops)
    unfolding after_operations
    after_operations-Contained pa ops =
        let mode = check_mode p cfg aic pa in
        let delegation = check_delegation p cfg k now cert aic in
        let turn = use_nonce p s k cfg w now cert aic in
        stage-Contained w (mode >>> delegation) (after_nonce p s k cfg now cert aic pa ops turn)
          same
          (λ h.
            after_nonce-Contained aic pa ops turn
              (use_nonce-Verified w aic same a ((>>>-none mode delegation h).1)))

    decide_operations-Contained :
        (pa : Option PrincipalAuthorization) (ops : OperationOutcome)
        → Contained (decide_operations p s k cfg now cert w aic pa ops)
    unfolding decide_operations operation_refusal after_operations after_nonce grant_effective
    decide_operations-Contained pa ops = go ops.refusal refl
      where
        go :
            (r : Option OperationRefusal)
            → ops.refusal ≡ r
            → Contained (decide_operations p s k cfg now cert w aic pa ops)
        go none e = rw e (after_operations-Contained pa ops)
        go (some (OperationRefusal.undecidable x)) e = rw e (inr refl, inl same)
        go (some (OperationRefusal.context_stale x)) e = rw e (inr refl, inl same)
        go (some (OperationRefusal.denied x)) e = rw e (inr refl, inl same)
        go (some (OperationRefusal.obligation_unknown x)) e = rw e (inr refl, inl same)
        go (some (OperationRefusal.unresolved x)) e = rw e (inr refl, inl same)

    after_constraints-Contained :
        (pa : Option PrincipalAuthorization)
        → Contained (after_constraints p s k cfg now cert w aic pa)
    unfolding after_constraints
    after_constraints-Contained pa =
        stage-Contained w (check_declarations p cfg aic >>> check_required p cfg aic pa)
          (decide_operations p s k cfg now cert w aic pa (operations_of p s k cfg now cert aic pa))
          same (λ h. decide_operations-Contained pa (operations_of p s k cfg now cert aic pa))

  with_own-Contained :
      (w : World) (aic : Option Aic) (r : Fallible (Option PrincipalAuthorization))
      → w.nonces ≡ n
      → p.parse_aic cert ≡ value aic
      → Contained (with_own p s k cfg now cert w aic r)
  unfolding with_own after_parse
  with_own-Contained w aic error same a = (inr refl, inl same)
  with_own-Contained w aic (value own) same a =
      let pa = refreshed_authorization p cfg cert own in
      let permission =
        refuse_if (cfg.require_user_permission && not (is_some own))
          principal_authorization_required in
      let w1 = logged p s k cfg now cert w aic in
      stage-Contained w
        (permission >>> check_pa_constraints p cfg now pa >>> check_aic_constraints p cfg now aic)
        (after_constraints p s k cfg now cert w1 aic pa) same
        (λ h. after_constraints-Contained w1 aic same a pa)

  with_aic-Contained :
      (w : World) (r : Fallible (Option Aic))
      → w.nonces ≡ n
      → p.parse_aic cert ≡ r
      → Contained (with_aic p s k cfg now cert w r)
  unfolding with_aic
  with_aic-Contained w error same a = (inr refl, inl same)
  with_aic-Contained w (value aic) same a =
      let rest = with_own p s k cfg now cert w aic (p.parse_user_permission cert) in
      stage-Contained w (check_fields p cfg aic) rest same
        (λ h. with_own-Contained w aic (p.parse_user_permission cert) same a)

-- An admission either admits or hands out no capability; and it leaves the nonce cache as it is unless
-- the certificate presents a nonce, and either the signature of its delegation has been verified with the
-- signer that the configuration selects, or the configuration skips that verification.
pub admission-Contained :
    (p : Pki) (s : Semantics) (k : Crypto) (cfg : AdmissionConfig) (now : ℕ) (cert : Cert)
    (w : World)
    → Contained p s k cfg now cert w.nonces (check_admission p s k cfg now cert w)
unfolding check_admission
admission-Contained p s k cfg now cert w =
    with_aic-Contained p s k cfg now cert w.nonces w (p.parse_aic cert) refl refl
