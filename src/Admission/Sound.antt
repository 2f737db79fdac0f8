-- ===== src/Admission/Sound.antt =====
-- decision.go: the delegation and the operations of a certificate that `CheckAdmission` admits.
use aic_verifier.Prelude.{
  ℕ, ◌≡◌, ◌≢◌, refl, ap, ◌∙◌, sym, false, Option, none, some, [], arith, Option-cases, Bool-cases,
  inl, inr,
}
use aic_verifier.Merkle.{Bytes}
use aic_verifier.Model.{Cert, Aic, PrincipalAuthorization, Pki, value}
use aic_verifier.DelegationAuth.{Crypto, agent_spki_of, is_empty, verify_delegation_auth_with_agent}
use aic_verifier.DelegationAuth.Accepted.{SignedFor, verify_with_agent_sound}
use aic_verifier.Clc.{Semantics, decision_grants}
use aic_verifier.Clc.Operations.{AllSettled, evaluate_operations_sound}
use aic_verifier.Admission.{AdmissionConfig, World, Outcome}
use aic_verifier.Admission.Guards.{refreshed_authorization}
use aic_verifier.Admission.Delegated.{Signer, signer, no_signer, select_signer, check_delegation}
use aic_verifier.Admission.Decide.{check_admission}
use aic_verifier.Admission.Passed.{IsAdmitted, admission-Passed}

pub value_eq {ℓ} : {A : Type ℓ} {a b : A} → value a ≡ value b → a ≡ b
value_eq h = ground (arith, h)

module _ (p : Pki) (s : Semantics) (k : Crypto) (cfg : AdmissionConfig) (now : ℕ)
    (cert : Cert) where
  pub signer-select :
      (aic : Aic)
      → cfg.skip_delegation_auth_verification ≡ false
      → check_delegation p cfg k now cert (some aic) ≡ none
      → (c : Cert) × ((select_signer p cfg aic cert ≡ signer c)
          × (verify_delegation_auth_with_agent p k (some aic) (some c) (some cert) ≡ none))
  unfolding check_delegation
  signer-select aic verified h = go (select_signer p cfg aic cert) refl
    where
      go :
          (r : Signer)
          → select_signer p cfg aic cert ≡ r
          → (c : Cert) × ((select_signer p cfg aic cert ≡ signer c)
              × (verify_delegation_auth_with_agent p k (some aic) (some c) (some cert) ≡ none))
      go (no_signer r) e =
          elim (Bool-cases (is_empty aic.delegation_authorization.signature_value)) [
            | inl empty ↦ absurd (ground (arith, verified, empty))
            | inr present ↦ absurd (ground (arith, verified, present, e))
          ]
      go (signer c) e = elim (Bool-cases (is_empty aic.delegation_authorization.signature_value)) [
        | inl empty ↦ absurd (ground (arith, verified, empty))
        | inr present ↦
            elim (Option-cases
              (verify_delegation_auth_with_agent p k (some aic) (some c) (some cert))) [
                | inl ok ↦ (c, (e, ok))
                | inr (x, failed) ↦ absurd (ground (arith, verified, present, e, failed))
              ]
      ]

  -- Where the verification of delegations is on, an admitted certificate with an AIC has a signer that
  -- the configuration selects for it, whose key made the signature that the AIC carries, over a text
  -- of a version that the AIC admits; the signer's key has the principal's key hash if there is one.
  pub admission_delegated :
      (w : World) (aic : Aic)
      → p.parse_aic cert ≡ value (some aic)
      → cfg.skip_delegation_auth_verification ≡ false
      → IsAdmitted (check_admission p s k cfg now cert w)
      → (c : Cert) × ((select_signer p cfg aic cert ≡ signer c)
          × ((aic.delegation_authorization.signature_value ≢ [])
              × ((spki : Bytes) × (agent_spki_of p k (some cert) ≡ some spki)
                  × SignedFor p k aic c spki)
              × (aic.principal_uid.key_hash ≢ []
                  → p.sha.sum c.raw_spki ≡ aic.principal_uid.key_hash)))
  admission_delegated w aic parsed verified h =
      let passed = admission-Passed p s k cfg now cert w h in
      let own : passed.aic ≡ some aic = value_eq (sym passed.parsed ∙ parsed) in
      let ok = rw own at passed.delegation in
      let (c, (chosen, signed)) = signer-select aic verified ok in
      (c, (chosen, verify_with_agent_sound p k aic c (some cert) signed))

  -- What an admission records of the configured operations are, in order, the decisions taken from the
  -- AIC and the authorization in force, with fresh context where it is required. Each operation was
  -- allowed outright, or left residual obligations that the deployment understands (where it must) and
  -- confirms; such a decision is recorded as released.
  pub admission_operations :
      (w : World)
      → IsAdmitted (check_admission p s k cfg now cert w)
      → (aic : Option Aic) × (own : Option PrincipalAuthorization) × ((p.parse_aic cert ≡ value aic)
          × ((p.parse_user_permission cert ≡ value own)
              × AllSettled p s cfg.operations now aic
                  (refreshed_authorization p cfg cert own)
                  (decision_grants p s aic (refreshed_authorization p cfg cert own))
                  cfg.operations.operations
                  (check_admission p s k cfg now cert w).1.operation_decisions))
  admission_operations w h =
      let passed = admission-Passed p s k cfg now cert w h in
      let pa = refreshed_authorization p cfg cert passed.own in
      let allowed = rw passed.in_force at passed.operations in
      let settled =
        evaluate_operations_sound p s cfg.operations now passed.aic pa
          (decision_grants p s passed.aic pa) cfg.operations.operations allowed in
      let recorded = ap (λ (o : Outcome). o.1.operation_decisions) passed.outcome in
      (
        passed.aic,
        passed.own,
        (passed.parsed, (passed.parsed_own, rw recorded (rw passed.in_force settled))),
      )
