-- ===== src/Admission/Passed.antt =====
-- decision.go: what the stages of `CheckAdmission` have established when it admits a certificate.
use aic_verifier.Prelude.{
  ℕ, ◌≡◌, refl, ap, ◌∙◌, Bool, true, false, not, ◌&&◌, Option, none, some, List, arith, is_some,
}
use aic_verifier.Model.{Cert, Capability, Aic, PrincipalAuthorization, Pki, Fallible, value, error}
use aic_verifier.DelegationAuth.{Crypto}
use aic_verifier.Clc.{Semantics}
use aic_verifier.Clc.Evaluation.{OperationRefusal, OperationOutcome}
use aic_verifier.Admission.{
  AdmissionConfig, World, Outcome, Check, Reason, principal_authorization_required, stage,
  refuse_if, ◌>>>◌,
}
use aic_verifier.Admission.Guards.{
  refreshed_authorization, check_fields, check_pa_constraints, check_aic_constraints,
  check_declarations, check_required, check_mode,
}
use aic_verifier.Admission.Delegated.{check_delegation}
use aic_verifier.Admission.Effective.{Effective, effective, not_effective, effective_caps_of}
use aic_verifier.Admission.Decide.{
  use_nonce, admitted, operations_of, logged, grant_effective, after_nonce, after_operations,
  decide_operations, after_constraints, after_parse, with_own, with_aic, check_admission,
  operation_refusal,
}

abbrev pub IsAdmitted : Outcome → Type 0
IsAdmitted o = o.1.refused ≡ none

pub >>>-none : (c d : Check) → c >>> d ≡ none → (c ≡ none) × (d ≡ none)
>>>-none none d h = (refl, h)
>>>-none (some r) d h = absurd (ground arith)

pub refuse_if-none : (b : Bool) (r : Reason) → refuse_if b r ≡ none → b ≡ false
refuse_if-none true r h = absurd (ground arith)
refuse_if-none false r h = refl

stage-admitted :
    (w : World) (c : Check) (next : Outcome)
    → IsAdmitted (stage w c next)
    → (c ≡ none) × (stage w c next ≡ next)
unfolding stage
stage-admitted w none next h = (refl, refl)
stage-admitted w (some r) next h = absurd (ground arith)

module _ (p : Pki) (s : Semantics) (k : Crypto) (cfg : AdmissionConfig) (now : ℕ)
    (cert : Cert) where
  pub record Passed (w : World) (o : Outcome) : Type 0 where
    pub aic : Option Aic
    -- the authorization that the certificate presents
    pub own : Option PrincipalAuthorization
    -- the authorization in force
    pub pa : Option PrincipalAuthorization
    pub caps : List Capability
    pub parsed : p.parse_aic cert ≡ value aic
    pub parsed_own : p.parse_user_permission cert ≡ value own
    pub in_force : pa ≡ refreshed_authorization p cfg cert own
    pub fields : check_fields p cfg aic ≡ none
    pub permission : cfg.require_user_permission && not (is_some own) ≡ false
    pub pa_constraints : check_pa_constraints p cfg now pa ≡ none
    pub aic_constraints : check_aic_constraints p cfg now aic ≡ none
    pub declarations : check_declarations p cfg aic ≡ none
    pub required : check_required p cfg aic pa ≡ none
    pub operations : (operations_of p s k cfg now cert aic pa).refusal ≡ none
    pub mode : check_mode p cfg aic pa ≡ none
    pub delegation : check_delegation p cfg k now cert aic ≡ none
    pub nonce : (use_nonce p s k cfg (logged p s k cfg now cert w aic) now cert aic).1 ≡ true
    pub capabilities : effective_caps_of p cfg aic pa ≡ effective caps
    pub outcome : o ≡ (
      (use_nonce p s k cfg (logged p s k cfg now cert w aic) now cert aic).0,
      admitted p s k cfg now cert aic pa (operations_of p s k cfg now cert aic pa) caps,
    )

  module _ (aic : Option Aic) (pa : Option PrincipalAuthorization) (ops : OperationOutcome) where
    after_nonce-admitted :
        (r : World × Bool)
        → IsAdmitted (after_nonce p s k cfg now cert aic pa ops r)
        → (r.1 ≡ true)
          × ((caps : List Capability) × (effective_caps_of p cfg aic pa ≡ effective caps)
              × (after_nonce p s k cfg now cert aic pa ops r
                  ≡ (r.0, admitted p s k cfg now cert aic pa ops caps)))
    unfolding after_nonce grant_effective
    after_nonce-admitted (w, false) h = absurd (ground arith)
    after_nonce-admitted (w, true) h = go (effective_caps_of p cfg aic pa) refl h
      where
        go :
            (e : Effective)
            → effective_caps_of p cfg aic pa ≡ e
            → IsAdmitted (grant_effective p s k cfg now cert aic pa ops w e)
            → (true ≡ true)
              × ((caps : List Capability) × (effective_caps_of p cfg aic pa ≡ effective caps)
                  × (grant_effective p s k cfg now cert aic pa ops w
                        (effective_caps_of p cfg aic pa)
                      ≡ (w, admitted p s k cfg now cert aic pa ops caps)))
        go (not_effective r) a h' = absurd (ground arith)
        go (effective caps) a h' =
            (refl, (caps, a, ap (grant_effective p s k cfg now cert aic pa ops w) a))

    decide_operations-admitted :
        (w : World)
        → IsAdmitted (decide_operations p s k cfg now cert w aic pa ops)
        → (ops.refusal ≡ none)
          × (decide_operations p s k cfg now cert w aic pa ops
              ≡ after_operations p s k cfg now cert w aic pa ops)
    unfolding decide_operations operation_refusal
    decide_operations-admitted w h = go ops.refusal refl h
      where
        go :
            (r : Option OperationRefusal)
            → ops.refusal ≡ r
            → IsAdmitted (decide_operations p s k cfg now cert w aic pa ops)
            → (ops.refusal ≡ none)
              × (decide_operations p s k cfg now cert w aic pa ops
                  ≡ after_operations p s k cfg now cert w aic pa ops)
        go none e h' = (e, rw e refl)
        go (some (OperationRefusal.undecidable x)) e h' = absurd (ground (arith, rw e at h'))
        go (some (OperationRefusal.context_stale x)) e h' = absurd (ground (arith, rw e at h'))
        go (some (OperationRefusal.denied x)) e h' = absurd (ground (arith, rw e at h'))
        go (some (OperationRefusal.obligation_unknown x)) e h' = absurd (ground (arith, rw e at h'))
        go (some (OperationRefusal.unresolved x)) e h' = absurd (ground (arith, rw e at h'))

  after_parse-Passed :
      (w : World) (aic : Option Aic) (own : Option PrincipalAuthorization)
      → p.parse_aic cert ≡ value aic
      → p.parse_user_permission cert ≡ value own
      → check_fields p cfg aic ≡ none
      → IsAdmitted
          (after_parse p s k cfg now cert w aic own (refreshed_authorization p cfg cert own))
      → Passed w (after_parse p s k cfg now cert w aic own (refreshed_authorization p cfg cert own))
  unfolding after_parse after_constraints after_operations
  after_parse-Passed w aic own a b f h =
      let pa = refreshed_authorization p cfg cert own in
      let w1 = logged p s k cfg now cert w aic in
      let ops = operations_of p s k cfg now cert aic pa in
      let nonce_turn = use_nonce p s k cfg w1 now cert aic in
      let permission =
        refuse_if (cfg.require_user_permission && not (is_some own))
          principal_authorization_required in
      let checks =
        permission >>> check_pa_constraints p cfg now pa >>> check_aic_constraints p cfg now aic in
      let declared = check_declarations p cfg aic >>> check_required p cfg aic pa in
      let modes = check_mode p cfg aic pa >>> check_delegation p cfg k now cert aic in
      let (early, e1) =
        stage-admitted w checks (after_constraints p s k cfg now cert w1 aic pa) h in
      let h1 = rw e1 at h in
      let (middle, e2) =
        stage-admitted w1 declared (decide_operations p s k cfg now cert w1 aic pa ops) h1 in
      let h2 = rw e2 at h1 in
      let (allowed, e3) = decide_operations-admitted aic pa ops w1 h2 in
      let h3 = rw e3 at h2 in
      let (late, e4) =
        stage-admitted w1 modes (after_nonce p s k cfg now cert aic pa ops nonce_turn) h3 in
      let h4 = rw e4 at h3 in
      let (fresh, (caps, effective_caps, e5)) = after_nonce-admitted aic pa ops nonce_turn h4 in
      let (granted, constrained) =
        >>>-none permission
          (check_pa_constraints p cfg now pa >>> check_aic_constraints p cfg now aic) early in
      let (pa_ok, aic_ok) =
        >>>-none (check_pa_constraints p cfg now pa) (check_aic_constraints p cfg now aic)
          constrained in
      let (declarations_ok, required_ok) =
        >>>-none (check_declarations p cfg aic) (check_required p cfg aic pa) middle in
      let (mode_ok, delegation_ok) =
        >>>-none (check_mode p cfg aic pa) (check_delegation p cfg k now cert aic) late in
      record {
        aic = aic;
        own = own;
        pa = pa;
        caps = caps;
        parsed = a;
        parsed_own = b;
        in_force = refl;
        fields = f;
        permission =
            refuse_if-none (cfg.require_user_permission && not (is_some own))
              principal_authorization_required granted;
        pa_constraints = pa_ok;
        aic_constraints = aic_ok;
        declarations = declarations_ok;
        required = required_ok;
        operations = allowed;
        mode = mode_ok;
        delegation = delegation_ok;
        nonce = fresh;
        capabilities = effective_caps;
        outcome = e1 ∙ (e2 ∙ (e3 ∙ (e4 ∙ e5)));
      }

  with_own-Passed :
      (w : World) (aic : Option Aic) (r : Fallible (Option PrincipalAuthorization))
      → p.parse_aic cert ≡ value aic
      → p.parse_user_permission cert ≡ r
      → check_fields p cfg aic ≡ none
      → IsAdmitted (with_own p s k cfg now cert w aic r)
      → Passed w (with_own p s k cfg now cert w aic r)
  unfolding with_own
  with_own-Passed w aic error a b f h = absurd (ground arith)
  with_own-Passed w aic (value own) a b f h = after_parse-Passed w aic own a b f h

  with_aic-Passed :
      (w : World) (r : Fallible (Option Aic))
      → p.parse_aic cert ≡ r
      → IsAdmitted (with_aic p s k cfg now cert w r)
      → Passed w (with_aic p s k cfg now cert w r)
  unfolding with_aic
  with_aic-Passed w error a h = absurd (ground arith)
  with_aic-Passed w (value aic) a h =
      let own = p.parse_user_permission cert in
      let rest = with_own p s k cfg now cert w aic own in
      let (fields, e) = stage-admitted w (check_fields p cfg aic) rest h in
      rw e (with_own-Passed w aic own a refl fields (rw e at h))

  -- Every stage has passed when the decision is to admit.
  pub admission-Passed :
      (w : World)
      → IsAdmitted (check_admission p s k cfg now cert w)
      → Passed w (check_admission p s k cfg now cert w)
  unfolding check_admission
  admission-Passed w h = with_aic-Passed w (p.parse_aic cert) refl h
