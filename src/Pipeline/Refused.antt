-- ===== src/Pipeline/Refused.antt =====
-- pipeline.go: the result and the state of the admission after a run, whatever its outcome.
use aic_verifier.Prelude.{ℕ, String, ◌≡◌, Option, none, some, List, [], ◌∷◌}
use aic_verifier.Model.{Cert, Aic, PrincipalAuthorization}
use aic_verifier.Clc.{OperationDecision}
use aic_verifier.Admission.{World, Outcome, Reason}
use aic_verifier.Admission.Passed.{IsAdmitted}
use aic_verifier.Pipeline.{
  admission_refused, PipelineResult, PipelineConfig, PipelineState, Platform, DenyReason,
}
use aic_verifier.Pipeline.Run.{Decided}
use aic_verifier.Pipeline.Granted.{IsGranted, admission_of}

-- a result that refuses, with what it carries: neither roles, identities nor a verdict
pub record Refusal (r : DenyReason) (principal : String) (aic : Option Aic)
    (pa : Option PrincipalAuthorization) (decisions : List OperationDecision) (d : PipelineResult)
    : Type 0 where
  pub reason : d.denied ≡ some r
  pub own_principal : d.principal ≡ principal
  pub own_aic : d.aic ≡ aic
  pub own_authorization : d.principal_authorization ≡ pa
  pub own_decisions : d.operation_decisions ≡ decisions
  pub no_roles : d.roles ≡ []
  pub no_serial : d.serial ≡ ""
  pub no_agent : d.agent_id ≡ ""
  pub no_spiffe_id : d.spiffe_id ≡ ""
  pub no_verdict : d.clc_verdict ≡ none
  pub no_residue : d.clc_unresolved ≡ []

abbrev pub Bare : DenyReason → PipelineResult → Type 0
Bare r d = Refusal r "" none none [] d

-- How a run ends, by the outcome of the admission and the admission's state before the run.
pub data Ends (o : Outcome) (w : World) (d : Decided) : Type 0 where
  grants : IsAdmitted o → IsGranted d → d.0.world ≡ o.0 → Ends o w d
  -- the admission has not been reached
  refuses_before : (r : DenyReason) → Bare r d.1 → d.0.world ≡ w → Ends o w d
  -- the refusal carries what the admission has found
  refuses_with :
      (r : Reason)
      → o.1.refused ≡ some r
      → Refusal
          (admission_refused r)
          o.1.principal_uid
          o.1.aic
          o.1.principal_authorization
          o.1.operation_decisions
          d.1
      → d.0.world ≡ o.0
      → Ends o w d
  -- a later stage refuses: nothing that the admission has found is carried, its nonce stays spent
  refuses_after : (r : DenyReason) → IsAdmitted o → Bare r d.1 → d.0.world ≡ o.0 → Ends o w d

module _ (pl : Platform) (cfg : PipelineConfig) (now : ℕ) (st : PipelineState) where
  -- an empty chain is refused before the admission
  abbrev pub EndOf : List Cert → Decided → Type 0
  EndOf [] d = (r : DenyReason) × (Bare r d.1 × (d.0.world ≡ st.world))
  EndOf (cert ∷ rest) d = Ends (admission_of pl cfg now cert st) st.world d
