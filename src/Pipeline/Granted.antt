-- ===== src/Pipeline/Granted.antt =====
-- pipeline.go: the stages of `RunAccessPipeline`, taken apart.
use aic_verifier.Prelude.{ℕ, ◌≡◌, refl, ap, ◌∙◌, Option, none, some, List, [], ◌∷◌, arith}
use aic_verifier.Model.{Cert}
use aic_verifier.Admission.{AdmissionResult, Outcome, Reason}
use aic_verifier.Admission.Decide.{check_admission}
use aic_verifier.Admission.Passed.{IsAdmitted}
use aic_verifier.Revocation.Ocsp.{Entries}
use aic_verifier.Pipeline.{
  PipelineConfig, PipelineState, Platform, PluginRegistry, DenyReason, deny, admission_config,
}
use aic_verifier.Pipeline.Status.{check_status}
use aic_verifier.Pipeline.Identity.{roles_of, check_roles, check_spiffe, check_offline}
use aic_verifier.Pipeline.Capabilities.{Step, check_parameters, resolve_plugins, check_registered}
use aic_verifier.Pipeline.Kept.{
  Keeps, check_parameters-Keeps, check_registered-Keeps, run_plugins-Keeps,
}
use aic_verifier.Pipeline.Run.{
  Decided, deny_with_admission, granted, then_step, plugins_of, after_admission, with_admission,
  admit_client, both, check_identity, after_status, run_access_pipeline,
}

abbrev pub IsGranted : Decided → Type 0
IsGranted d = d.1.denied ≡ none

both-none :
    (pl : Platform) (cfg : PipelineConfig) (now : ℕ) (cert : Cert) (a b : Option DenyReason)
    → both pl cfg now cert a b ≡ none
    → (a ≡ none) × (b ≡ none)
both-none pl cfg now cert none b h = (refl, h)
both-none pl cfg now cert (some r) b h = absurd (ground (arith, h))

module _ (pl : Platform) (cfg : PipelineConfig) (now : ℕ) (cert : Cert) where
  then_step-granted :
      (s : Step) (next : PipelineState → Decided)
      → IsGranted (then_step pl cfg now cert s next)
      → (s.1 ≡ none) × (then_step pl cfg now cert s next ≡ next s.0)
  unfolding then_step deny
  then_step-granted (st, none) next h = (refl, refl)
  then_step-granted (st, some r) next h = absurd (ground (arith, h))

  -- the admission of the client certificate
  abbrev pub admission_of : PipelineState → Outcome
  admission_of st =
      check_admission pl.pki pl.semantics pl.crypto (admission_config cfg) now cert st.world

  -- what each stage has found, and the state that it has left
  pub record Stages (st : PipelineState) (rest : List Cert) (d : Decided) : Type 0 where
    pub status : (check_status pl cfg now st.ocsp cert rest).1 ≡ none
    pub allowed_roles : check_roles pl cfg cert ≡ none
    pub spiffe : check_spiffe pl cfg cert ≡ none
    pub offline : check_offline pl cfg now cert ≡ none
    pub is_admitted : IsAdmitted (admission_of st)
    -- the state when the admission has ended
    pub entered : PipelineState
    pub entered_world : entered.world ≡ (admission_of st).0
    pub parameters : (check_parameters pl cfg now cert (admission_of st).1 entered).1 ≡ none
    pub registered :
        (st1 : PipelineState) × ((check_registered pl cfg now cert
            (admission_of st).1
            st1
            (resolve_plugins pl cfg now cert (admission_of st).1).0).1
          ≡ none)
    pub plugins :
        (st2 : PipelineState) × ((plugins_of pl cfg now cert
            (admission_of st).1
            (resolve_plugins pl cfg now cert (admission_of st).1).1
            (resolve_plugins pl cfg now cert (admission_of st).1).0
            st2).1
          ≡ none)
    pub kept : d.0.world ≡ (admission_of st).0
    pub result : d.1 ≡ granted pl cfg now cert (admission_of st).1

  pub plugins-Keeps :
      (admit : AdmissionResult) (plugins : Option PluginRegistry) (version : ℕ) (st : PipelineState)
      → Keeps st (plugins_of pl cfg now cert admit plugins version st).0
  plugins-Keeps admit none version st = refl
  plugins-Keeps admit (some find) version st =
      run_plugins-Keeps pl cfg now cert admit (roles_of pl cfg cert) version find st
        admit.effective_caps

  -- what the stages after the admission have found
  record Late (admit : AdmissionResult) (st : PipelineState) (d : Decided) : Type 0 where
    parameters : (check_parameters pl cfg now cert admit st).1 ≡ none
    registered :
        (st1 : PipelineState) × ((check_registered pl cfg now cert admit st1
            (resolve_plugins pl cfg now cert admit).0).1
          ≡ none)
    plugins :
        (st2 : PipelineState) × ((plugins_of pl cfg now cert admit
            (resolve_plugins pl cfg now cert admit).1
            (resolve_plugins pl cfg now cert admit).0
            st2).1
          ≡ none)
    kept : d.0.world ≡ st.world
    result : d.1 ≡ granted pl cfg now cert admit

  after_admission-Late :
      (admit : AdmissionResult) (st : PipelineState)
      → IsGranted (after_admission pl cfg now cert admit st)
      → Late admit st (after_admission pl cfg now cert admit st)
  unfolding after_admission
  after_admission-Late admit st h =
      let resolved = resolve_plugins pl cfg now cert admit in
      let s1 = check_parameters pl cfg now cert admit st in
      let s2 = check_registered pl cfg now cert admit s1.0 resolved.0 in
      let s3 = plugins_of pl cfg now cert admit resolved.1 resolved.0 s2.0 in
      let last : PipelineState → Decided = λ st3. (st3, granted pl cfg now cert admit) in
      let third = λ (st2 : PipelineState).
        then_step pl cfg now cert (plugins_of pl cfg now cert admit resolved.1 resolved.0 st2)
          last in
      let second = λ (st1 : PipelineState).
        then_step pl cfg now cert (check_registered pl cfg now cert admit st1 resolved.0) third in
      let (a, e1) = then_step-granted s1 second h in
      let (b, e2) = then_step-granted s2 third (rw e1 at h) in
      let (c, e3) = then_step-granted s3 last (rw e2 at (rw e1 at h)) in
      record {
        parameters = a;
        registered = (s1.0, b);
        plugins = (s2.0, c);
        kept =
            ap (λ (d : Decided). d.0.world) (e1 ∙ (e2 ∙ e3))
            ∙ (plugins-Keeps admit resolved.1 resolved.0 s2.0
                ∙ (check_registered-Keeps pl cfg now cert admit s1.0 resolved.0
                    ∙ check_parameters-Keeps pl cfg now cert admit st));
        result = ap (λ (d : Decided). d.1) (e1 ∙ (e2 ∙ e3));
      }

  with_admission-Late :
      (st : PipelineState) (admit : AdmissionResult) (r : Option Reason)
      → IsGranted (with_admission pl cfg now cert st admit r)
      → (r ≡ none) × Late admit st (with_admission pl cfg now cert st admit r)
  unfolding with_admission deny_with_admission deny
  with_admission-Late st admit none h = (refl, after_admission-Late admit st h)
  with_admission-Late st admit (some r) h = absurd (ground (arith, h))

  after_status-Stages :
      (st : PipelineState) (rest : List Cert) (r : Entries × Option DenyReason)
      → check_status pl cfg now st.ocsp cert rest ≡ r
      → IsGranted (after_status pl cfg now cert st r)
      → Stages st rest (after_status pl cfg now cert st r)
  unfolding after_status check_identity admit_client deny
  after_status-Stages st rest (es, some reason) e h = absurd (ground (arith, h))
  after_status-Stages st rest (es, none) e h =
      let st' : PipelineState = record st { ocsp = es } in
      let ids = check_identity pl cfg now cert in
      let roles = check_roles pl cfg cert in
      let spiffe = check_spiffe pl cfg cert in
      let offline = check_offline pl cfg now cert in
      let (identified, e1) = then_step-granted (st', ids) (admit_client pl cfg now cert) h in
      let (roles_ok, later) =
        both-none pl cfg now cert roles (both pl cfg now cert spiffe offline) identified in
      let (spiffe_ok, offline_ok) = both-none pl cfg now cert spiffe offline later in
      let entered : PipelineState = record st' { world = (admission_of st).0 } in
      let (ok, late) =
        with_admission-Late entered (admission_of st).1 (admission_of st).1.refused (rw e1 at h) in
      record {
        status = ap (λ (x : Entries × Option DenyReason). x.1) e;
        allowed_roles = roles_ok;
        spiffe = spiffe_ok;
        offline = offline_ok;
        is_admitted = ok;
        entered = entered;
        entered_world = refl;
        parameters = late.parameters;
        registered = late.registered;
        plugins = late.plugins;
        kept = ap (λ (d : Decided). d.0.world) e1 ∙ late.kept;
        result = ap (λ (d : Decided). d.1) e1 ∙ late.result;
      }

-- Every stage has passed when the pipeline grants access.
pub pipeline-Stages :
    (pl : Platform) (cfg : PipelineConfig) (now : ℕ) (st : PipelineState) (cert : Cert)
    (rest : List Cert)
    → IsGranted (run_access_pipeline pl cfg now st (cert ∷ rest))
    → Stages pl cfg now cert st rest (run_access_pipeline pl cfg now st (cert ∷ rest))
unfolding run_access_pipeline
pipeline-Stages pl cfg now st cert rest h =
    after_status-Stages pl cfg now cert st rest (check_status pl cfg now st.ocsp cert rest) refl h

-- An empty chain is refused.
pub granted-chain :
    (pl : Platform) (cfg : PipelineConfig) (now : ℕ) (st : PipelineState) (chain : List Cert)
    → IsGranted (run_access_pipeline pl cfg now st chain)
    → (cert : Cert) × (rest : List Cert) × (chain ≡ cert ∷ rest)
unfolding run_access_pipeline deny
granted-chain pl cfg now st [] h = absurd (ground (arith, h))
granted-chain pl cfg now st (cert ∷ rest) h = (cert, rest, refl)
