-- ===== src/Admission/Replay.antt =====
-- decision.go and nonce_cache.go: the nonce of a certificate that `CheckAdmission` admits.
use aic_verifier.Prelude.{ℕ, ◌≡◌, ◌≢◌, refl, ap, ◌∙◌, sym, true, some, List, eq_iff}
use aic_verifier.Model.{Cert, Aic, Pki, value}
use aic_verifier.Nonce.{NonceCache, Call, run_calls, check_and_add, replay_decided}
use aic_verifier.DelegationAuth.{Crypto}
use aic_verifier.Clc.{Semantics}
use aic_verifier.Admission.{AdmissionConfig, World, Outcome}
use aic_verifier.Admission.Decide.{presents_nonce, nonce_scope, use_nonce, logged, check_admission}
use aic_verifier.Admission.Passed.{IsAdmitted, admission-Passed}
use aic_verifier.Admission.Sound.{value_eq}

module _ (p : Pki) (s : Semantics) (k : Crypto) (cfg : AdmissionConfig) where
  used :
      (w : World) (now : ℕ) (cert : Cert) (aic : Aic)
      → presents_nonce cfg (some aic) ≡ true
      → ((use_nonce p s k cfg w now cert (some aic)).0.nonces
          ≡ (check_and_add w.nonces now
              (nonce_scope p s k cfg cert)
              aic.delegation_authorization.nonce).0)
        × ((use_nonce p s k cfg w now cert (some aic)).1
            ≡ (check_and_add w.nonces now
                (nonce_scope p s k cfg cert)
                aic.delegation_authorization.nonce).1)
  unfolding use_nonce
  used w now cert aic held = (rw (held, use_nonce) refl, rw (held, use_nonce) refl)

  nonce_accepted :
      (now : ℕ) (cert : Cert) (w : World) (aic : Aic)
      → p.parse_aic cert ≡ value (some aic)
      → presents_nonce cfg (some aic) ≡ true
      → IsAdmitted (check_admission p s k cfg now cert w)
      → ((check_admission p s k cfg now cert w).0.nonces
          ≡ (check_and_add w.nonces now
              (nonce_scope p s k cfg cert)
              aic.delegation_authorization.nonce).0)
        × ((check_and_add w.nonces now
              (nonce_scope p s k cfg cert)
              aic.delegation_authorization.nonce).1
            ≡ true)
  nonce_accepted now cert w aic parsed held h =
      let passed = admission-Passed p s k cfg now cert w h in
      let own : passed.aic ≡ some aic = value_eq (sym passed.parsed ∙ parsed) in
      let (cache, answer) = used (logged p s k cfg now cert w (some aic)) now cert aic held in
      let outcome = ap (λ (o : Outcome). o.0.nonces) passed.outcome in
      (rw own at outcome ∙ cache, sym answer ∙ rw own at passed.nonce)

  -- Once a certificate has been admitted with a nonce, a certificate of another issuer or serial number
  -- that presents the same nonce is not admitted, whatever calls the cache has served since, as long as
  -- it has not been cleaned up.
  pub admission_replay :
      (t now : ℕ) (first second : Cert) (w later : World) (a b : Aic) (between : List Call)
      → p.parse_aic first ≡ value (some a)
      → p.parse_aic second ≡ value (some b)
      → presents_nonce cfg (some a) ≡ true
      → a.delegation_authorization.nonce ≡ b.delegation_authorization.nonce
      → nonce_scope p s k cfg first ≢ nonce_scope p s k cfg second
      → IsAdmitted (check_admission p s k cfg t first w)
      → later.nonces ≡ run_calls (check_admission p s k cfg t first w).0.nonces between
      → ¬ IsAdmitted (check_admission p s k cfg now second later)
  admission_replay t now first second w later a b between pa pb held same apart ok since again =
      let (kept, fresh) = nonce_accepted t first w a pa held ok in
      let held2 : presents_nonce cfg (some b) ≡ true = rw same at held in
      let (after, fresh2) = nonce_accepted now second later b pb held2 again in
      let scope = nonce_scope p s k cfg first in
      let other = nonce_scope p s k cfg second in
      let decided =
        replay_decided w.nonces t now scope other a.delegation_authorization.nonce between fresh in
      let cache = since ∙ ap (λ (n : NonceCache). run_calls n between) kept in
      let accepted = rw cache at (rw (sym same) at fresh2) in
      apart ((eq_iff scope other).0 (sym decided ∙ accepted))
