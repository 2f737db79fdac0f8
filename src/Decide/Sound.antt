-- ===== src/Decide/Sound.antt =====
-- decide.go: what stands behind an accepted request.
use aic_verifier.Prelude.{ℕ, ◌≡◌, ◌⊎◌, true, false, Option, some, arith}
use aic_verifier.Merkle.{Bytes}
use aic_verifier.Model.{value}
use aic_verifier.Pipeline.{Platform}
use aic_verifier.Pipeline.Granted.{IsGranted}
use aic_verifier.Decide.{
  RequestView, AuthContext, SupervisionResult, EvidenceRequirement, Authenticator, ServerState,
  accepted,
}
use aic_verifier.Decide.Trust.{Trusted}
use aic_verifier.Decide.Credential.{Credential, client_of}
use aic_verifier.Decide.Run.{is_approved, auth_context, request_approval, piped}

accepted_eq : {a b : AuthContext} → accepted a ≡ accepted b → a ≡ b
accepted_eq h = ground (arith, h)

module _ (a : Authenticator) (now : ℕ) (view : RequestView) where
  -- a person has approved, where that is needed
  abbrev pub Approved : AuthContext → Type 0
  Approved ac =
      (a.need_approval ac ≡ false)
      ⊎ ((r : Option SupervisionResult) × ((request_approval a now view ac ≡ value r)
            × (is_approved r ≡ true)))

  -- the configured requirement is valid, and satisfied by the facts
  abbrev pub Satisfied : AuthContext → Type 0
  Satisfied ac =
      (req : EvidenceRequirement)
      → a.evidence_requirement ≡ some req
      → (req.is_valid ≡ true)
        × ((facts : Bytes) × ((req.facts ac ≡ value facts) × (req.evaluate facts now ≡ value true)))

  module _ (pl : Platform) where
    -- what an accepted request rests on
    pub record Backed (st : ServerState) (ac : AuthContext) : Type 0 where
      pub credential : Credential
      pub trusted : Trusted a now view credential
      pub granted : IsGranted (piped a now view pl st credential)
      pub context :
          auth_context
            (client_of a now view credential)
            credential.bearer
            (piped a now view pl st credential).1
            (a.emit_evidence
              (client_of a now view credential)
              (piped a now view pl st credential).1).0
          ≡ ac
      pub evidence :
          a.evidence_strict ≡ true
          → (a.emit_evidence
              (client_of a now view credential)
              (piped a now view pl st credential).1).1
            ≡ true
      pub satisfied : Satisfied ac
      pub approved : Approved ac
