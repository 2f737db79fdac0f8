-- ===== src/TrustLayers/Agreement.antt =====
-- trust_model.go and pipeline.go: where the layered entry point and the access pipeline agree.
use aic_verifier.Prelude.{ℕ, ◌≡◌, ◌↔◌, refl, ap, ◌∙◌, sym, Option, none, some, List, ◌∷◌, arith}
use aic_verifier.Model.{Cert}
use aic_verifier.Admission.{AdmissionResult, Outcome, Reason}
use aic_verifier.Admission.Passed.{IsAdmitted}
use aic_verifier.Revocation.Ocsp.{Entries}
use aic_verifier.Pipeline.{PipelineConfig, PipelineState, Platform, DenyReason, deny}
use aic_verifier.Pipeline.Status.{check_status}
use aic_verifier.Pipeline.Identity.{check_roles}
use aic_verifier.Pipeline.Run.{
  Decided, granted, then_step, with_admission, admit_client, after_status, run_access_pipeline,
}
use aic_verifier.Pipeline.Granted.{IsGranted, admission_of, pipeline-Stages}
use aic_verifier.TrustLayers.{
  or_then, check_validities, verify_layer1, verify_layer2, check_revocations, check_online,
  then_online, verify_layer3, layered, after_layer1, after_layer2, after_layer3,
  verify_trust_layers,
}
use aic_verifier.TrustLayers.Plain.{
  IsPlain, or_then-none, check_chain-revocations, check_chain-valid, same_config, same_status,
  only_roles, after_admission-plain,
}

-- two runs that have granted the same
pub record SameGrant (d e : Decided) : Type 0 where
  pub state : d.0 ≡ e.0
  pub roles : d.1.roles ≡ e.1.roles
  pub principal : d.1.principal ≡ e.1.principal
  pub serial : d.1.serial ≡ e.1.serial
  pub agent_id : d.1.agent_id ≡ e.1.agent_id

module _ (pl : Platform) (cfg : PipelineConfig) (now : ℕ) (plain : IsPlain pl cfg) (cert : Cert)
    (st : PipelineState) (rest : List Cert) where
  abbrev revocations : Entries × Option DenyReason
  revocations = check_revocations pl cfg now st.ocsp (cert ∷ rest)

  -- what both ask of the certificates
  record Cleared : Type 0 where
    valid : check_validities now (cert ∷ rest) ≡ none
    unrevoked : revocations.1 ≡ none
    roles : check_roles pl cfg cert ≡ none
    is_admitted : IsAdmitted (admission_of pl cfg now cert st)

  -- the state after a grant
  abbrev left : PipelineState
  left = record st { ocsp = revocations.0; world = (admission_of pl cfg now cert st).0 }

  pipeline-Cleared : IsGranted (run_access_pipeline pl cfg now st (cert ∷ rest)) → Cleared
  pipeline-Cleared h =
      let s = pipeline-Stages pl cfg now st cert rest h in
      let chained = rw (same_status pl cfg now plain cert st.ocsp rest) at s.status in
      let valid = check_chain-valid pl cfg now st.ocsp (cert ∷ rest) chained in
      record {
        valid = valid;
        unrevoked = rw (check_chain-revocations pl cfg now st.ocsp (cert ∷ rest) valid) at chained;
        roles = s.allowed_roles;
        is_admitted = s.is_admitted;
      }

  Cleared-pipeline :
      Cleared
      → run_access_pipeline pl cfg now st (cert ∷ rest)
        ≡ (left, granted pl cfg now cert (admission_of pl cfg now cert st).1)
  unfolding run_access_pipeline after_status then_step admit_client with_admission
  Cleared-pipeline h =
      let o = admission_of pl cfg now cert st in
      let passed : check_status pl cfg now st.ocsp cert rest ≡ (revocations.0, none) =
        same_status pl cfg now plain cert st.ocsp rest
        ∙ (check_chain-revocations pl cfg now st.ocsp (cert ∷ rest) h.valid
            ∙ ap (λ d. (revocations.0, d)) h.unrevoked) in
      ap (after_status pl cfg now cert st) passed
      ∙ (ap
            (λ d.
              then_step pl cfg now cert (record st { ocsp = revocations.0 }, d)
                (admit_client pl cfg now cert))
            (only_roles pl cfg now plain cert h.roles)
          ∙ (ap (λ r. with_admission pl cfg now cert left o.1 r) h.is_admitted
              ∙ after_admission-plain pl cfg now plain cert o.1 left))

  online : check_online pl cfg now cert ≡ none
  unfolding check_online
  online = ground (arith, plain.no_server)

  same_layer3 :
      verify_layer3 pl cfg now cfg.check_scope st.ocsp cert rest
      ≡ then_online pl cfg now cert revocations
  unfolding verify_layer3
  same_layer3 = ap (λ s. verify_layer3 pl cfg now s st.ocsp cert rest) plain.full_chain

  same_admission : verify_layer2 pl cfg now st cert ≡ admission_of pl cfg now cert st
  unfolding verify_layer2
  same_admission = rw (same_config pl cfg now plain cert) refl

  Cleared-layers :
      Cleared
      → verify_trust_layers pl (some cfg) now st (cert ∷ rest)
        ≡ (left, layered pl cfg now cert (admission_of pl cfg now cert st).1)
  unfolding verify_trust_layers after_layer1 after_layer2 after_layer3 verify_layer1
  Cleared-layers h =
      let o = admission_of pl cfg now cert st in
      let entered : PipelineState = record st { world = o.0 } in
      let first_layer : verify_layer1 pl cfg now (cert ∷ rest) ≡ none =
        ap (λ d. or_then d (check_roles pl cfg cert)) h.valid ∙ h.roles in
      let third_layer : verify_layer3 pl cfg now cfg.check_scope st.ocsp cert rest
          ≡ (revocations.0, none) =
        same_layer3
        ∙ (ap (λ d. then_online pl cfg now cert (revocations.0, d)) h.unrevoked
            ∙ ap (λ d. (revocations.0, d)) online) in
      ap (after_layer1 pl cfg now st cert rest) first_layer
      ∙ (ap
            (λ (x : Outcome).
              after_layer2 pl cfg now (record st { world = x.0 }) cert rest x.1 x.1.refused)
            same_admission
          ∙ (ap (λ r. after_layer2 pl cfg now entered cert rest o.1 r) h.is_admitted
              ∙ ap (after_layer3 pl cfg now entered cert o.1) third_layer))

  then_online-none :
      (r : Entries × Option DenyReason) → (then_online pl cfg now cert r).1 ≡ none → r.1 ≡ none
  then_online-none (es, none) h = refl
  then_online-none (es, some x) h = absurd (ground (arith, h))

  after_layer3-none :
      (admit : AdmissionResult) (s : PipelineState) (r : Entries × Option DenyReason)
      → IsGranted (after_layer3 pl cfg now s cert admit r)
      → r.1 ≡ none
  unfolding after_layer3 deny
  after_layer3-none admit s (es, none) h = refl
  after_layer3-none admit s (es, some x) h = absurd (ground (arith, h))

  after_layer2-none :
      (admit : AdmissionResult) (s : PipelineState) (r : Option Reason)
      → IsGranted (after_layer2 pl cfg now s cert rest admit r)
      → (r ≡ none) × ((verify_layer3 pl cfg now cfg.check_scope s.ocsp cert rest).1 ≡ none)
  unfolding after_layer2 deny
  after_layer2-none admit s none h = (refl, after_layer3-none admit s _ h)
  after_layer2-none admit s (some x) h = absurd (ground (arith, h))

  after_layer1-none :
      (r : Option DenyReason)
      → IsGranted (after_layer1 pl cfg now st cert rest r)
      → (r ≡ none)
        × (IsAdmitted (verify_layer2 pl cfg now st cert)
            × ((verify_layer3 pl cfg now cfg.check_scope st.ocsp cert rest).1 ≡ none))
  unfolding after_layer1 deny
  after_layer1-none none h =
      let o = verify_layer2 pl cfg now st cert in
      (refl, after_layer2-none o.1 (record st { world = o.0 }) o.1.refused h)
  after_layer1-none (some x) h = absurd (ground (arith, h))

  layers-Cleared : IsGranted (verify_trust_layers pl (some cfg) now st (cert ∷ rest)) → Cleared
  unfolding verify_trust_layers verify_layer1
  layers-Cleared h =
      let (one, (two, three)) = after_layer1-none (verify_layer1 pl cfg now (cert ∷ rest)) h in
      let (valid, roles) =
        or_then-none (check_validities now (cert ∷ rest)) (check_roles pl cfg cert) one in
      record {
        valid = valid;
        unrevoked = then_online-none revocations (rw same_layer3 at three);
        roles = roles;
        is_admitted = rw same_admission at two;
      }

  -- Where nothing is configured that only one of the two looks at, and the whole chain is in the
  -- scope: `VerifyTrustLayers` grants access exactly if `RunAccessPipeline` does, and then both
  -- leave the same state and name the same roles, principal, serial number and agent.
  pub layers_agree :
      (IsGranted (verify_trust_layers pl (some cfg) now st (cert ∷ rest))
        ↔ IsGranted (run_access_pipeline pl cfg now st (cert ∷ rest)))
      × (IsGranted (run_access_pipeline pl cfg now st (cert ∷ rest))
          → SameGrant
              (verify_trust_layers pl (some cfg) now st (cert ∷ rest))
              (run_access_pipeline pl cfg now st (cert ∷ rest)))
  unfolding layered granted
  layers_agree = (
    (
      (λ h. ap (λ (d : Decided). d.1.denied) (Cleared-pipeline (layers-Cleared h))),
      (λ h. ap (λ (d : Decided). d.1.denied) (Cleared-layers (pipeline-Cleared h))),
    ),
    (λ h.
        let e = Cleared-layers (pipeline-Cleared h) in
        let e' = Cleared-pipeline (pipeline-Cleared h) in
        record {
          state = ap (λ (d : Decided). d.0) e ∙ sym (ap (λ (d : Decided). d.0) e');
          roles = ap (λ (d : Decided). d.1.roles) e ∙ sym (ap (λ (d : Decided). d.1.roles) e');
          principal =
              ap (λ (d : Decided). d.1.principal) e ∙ sym (ap (λ (d : Decided). d.1.principal) e');
          serial = ap (λ (d : Decided). d.1.serial) e ∙ sym (ap (λ (d : Decided). d.1.serial) e');
          agent_id =
              ap (λ (d : Decided). d.1.agent_id) e ∙ sym (ap (λ (d : Decided). d.1.agent_id) e');
        }),
  )
