-- ===== src/Clc/Operations.antt =====
-- clc.go: the operations that `evaluateCLCOperations` lets pass, and those of `AuthorizeOperation`.
use aic_verifier.Prelude.{
  ℕ, String, ◌≡◌, ◌≢◌, ◌⊎◌, inl, inr, refl, sym, ap, ◌∙◌, Bool, true, false, Option, none, some,
  List, [], ◌∷◌, arith,
}
use aic_verifier.Merkle.{Bytes}
use aic_verifier.Model.{Aic, PrincipalAuthorization, Pki, Fallible, value, error}
use aic_verifier.Clc.{
  Grant, Operation, Verdict, allow, deny, allow_unresolved, Decision, Semantics, OperationDecision,
  ◌>>=◌, authorize_capabilities, combine_decisions, authorize_operation,
}
use aic_verifier.Clc.Evaluation.{
  OperationConfig, OperationRefusal, OperationOutcome, check_decision_context, confirmed, settle,
  operation_decision, evaluate_operations,
}

module _ (p : Pki) (s : Semantics) (cfg : OperationConfig) (now : ℕ) where
  pub data Settled (op : Operation) (dec : Decision) (released : Bool) : Type 0 where
    outright :
        dec.verdict ≡ allow
        → released ≡ false
        → check_decision_context p s cfg now ≡ true
        → Settled op dec released
    confirmed_residue :
        dec.verdict ≡ allow_unresolved
        → released ≡ true
        → confirmed p s cfg now op dec.unresolved ≡ true
        → (cfg.discharge_obligations ≡ true → s.discharge dec cfg.obligations_understood ≡ true)
        → check_decision_context p s cfg now ≡ true
        → Settled op dec released

  settle-none :
      (op : Operation) (dec : Decision) (v : Verdict)
      → dec.verdict ≡ v
      → (settle p s cfg now op dec v).0 ≡ none
      → Settled op dec (settle p s cfg now op dec v).1
  unfolding settle
  settle-none op dec allow e h = outright e (ground arith) (ground arith)
  settle-none op dec deny e h = absurd (ground arith)
  settle-none op dec allow_unresolved e h =
      confirmed_residue e (ground arith) (ground arith) (λ strict. ground arith) (ground arith)

  module _ (aic : Option Aic) (pa : Option PrincipalAuthorization) (grants : List Grant) where
    -- Each operation, in order, has its decision.
    abbrev pub AllSettled : List Operation → List OperationDecision → Type 0
    AllSettled [] [] = Unit
    AllSettled [] (d ∷ ds) = ⊥
    AllSettled (op ∷ ops) [] = ⊥
    AllSettled (op ∷ ops) (d ∷ ds) =
        ((dec : Decision) × (authorize_operation p s aic pa op.id op.params ≡ value dec)
          × (d ≡ operation_decision p s cfg now grants op dec d.released)
          × Settled op dec d.released)
        × AllSettled ops ds

    -- The loop ends without a refusal only if every operation was decided from the two authorities and
    -- allowed outright, or left residual obligations that the deployment understands (where it must)
    -- and confirms, each with a decision context that is fresh where one is required; the decisions
    -- recorded are these, in order.
    pub evaluate_operations_sound :
        (ops : List Operation)
        → (evaluate_operations p s cfg now aic pa grants ops).refusal ≡ none
        → AllSettled ops (evaluate_operations p s cfg now aic pa grants ops).decisions
    unfolding evaluate_operations
    evaluate_operations_sound [] h = tt
    evaluate_operations_sound (op ∷ ops) h =
        go (authorize_operation p s aic pa op.id op.params) refl h (evaluate_operations_sound ops)
      where
        rest : OperationOutcome
        rest = evaluate_operations p s cfg now aic pa grants ops

        outcome : Decision → Option OperationRefusal × Bool → OperationOutcome
        outcome dec r = elim r.0 [
          | some x ↦ record {
            decisions = operation_decision p s cfg now grants op dec r.1 ∷ [];
            refusal = some x;
          }
          | none ↦ record {
            decisions = operation_decision p s cfg now grants op dec r.1 ∷ rest.decisions;
            refusal = rest.refusal;
          }
        ]

        settled :
            (dec : Decision) (r : Option OperationRefusal × Bool)
            → settle p s cfg now op dec dec.verdict ≡ r
            → authorize_operation p s aic pa op.id op.params ≡ value dec
            → (outcome dec r).refusal ≡ none
            → (rest.refusal ≡ none → AllSettled ops rest.decisions)
            → AllSettled (op ∷ ops) (outcome dec r).decisions
        settled dec (some x, b) e a h' ih = absurd (ground arith)
        settled dec (none, b) e a h' ih =
            let done =
              settle-none op dec dec.verdict refl
                (ap (λ (z : Option OperationRefusal × Bool). z.0) e) in
            ((dec, a, refl, rw (ap (λ (z : Option OperationRefusal × Bool). z.1) e) at done), ih h')

        go :
            (r : Fallible Decision)
            → authorize_operation p s aic pa op.id op.params ≡ r
            → (elim r as (λ _. OperationOutcome) [
              | error ↦ record {
                decisions = [];
                refusal = some (OperationRefusal.undecidable op.id);
              }
              | value dec ↦ outcome dec (settle p s cfg now op dec dec.verdict)
            ]).refusal
              ≡ none
            → (rest.refusal ≡ none → AllSettled ops rest.decisions)
            → AllSettled
                (op ∷ ops)
                (elim r as (λ _. OperationOutcome) [
                  | error ↦ record {
                    decisions = [];
                    refusal = some (OperationRefusal.undecidable op.id);
                  }
                  | value dec ↦ outcome dec (settle p s cfg now op dec dec.verdict)
                ]).decisions
        go error e h' ih = absurd (ground arith)
        go (value dec) e h' ih = settled dec (settle p s cfg now op dec dec.verdict) refl e h' ih

module _ (p : Pki) (s : Semantics) where
  -- the rule of the default combining algorithm that deny wins
  abbrev pub DenyWins : Type 0
  DenyWins =
      (a b c : Decision)
      → s.combine a b ≡ value c
      → (a.verdict ≡ deny) ⊎ (b.verdict ≡ deny)
      → c.verdict ≡ deny

  combine_decisions-deny :
      (a b : Decision)
      → DenyWins
      → (a.verdict ≡ deny) ⊎ (b.verdict ≡ deny)
      → (combine_decisions p s a b).verdict ≡ deny
  unfolding combine_decisions
  combine_decisions-deny a b wins d = go (s.combine a b) refl
    where
      go : (r : Fallible Decision) → s.combine a b ≡ r → (combine_decisions p s a b).verdict ≡ deny
      go error e = rw (e, combine_decisions)
      go (value c) e = rw (e, combine_decisions) (wins a b c e d)

  -- Where both authorities are present an operation is decided over each of them, and if the combining
  -- algorithm lets deny win, an operation that is not denied is denied by neither.
  pub authorize_operation_both :
      (aic : Aic) (pa : PrincipalAuthorization) (id : String) (params : Bytes) (dec : Decision)
      → DenyWins
      → authorize_operation p s (some aic) (some pa) id params ≡ value dec
      → dec.verdict ≢ deny
      → (a : Decision) × (b : Decision) × (authorize_capabilities p s aic.capabilities
            aic.authorization_constraints id params
          ≡ value a)
        × (authorize_capabilities p s pa.grants pa.authorization_constraints id params ≡ value b)
        × (a.verdict ≢ deny)
        × (b.verdict ≢ deny)
  unfolding authorize_operation
  authorize_operation_both aic pa id params dec wins h allowed =
      first (authorize_capabilities p s aic.capabilities aic.authorization_constraints id params)
        refl h
    where
      second_result : Fallible Decision
      second_result = authorize_capabilities p s pa.grants pa.authorization_constraints id params

      Both : Type 0
      Both =
          (a : Decision) × (b : Decision) × (authorize_capabilities p s aic.capabilities
              aic.authorization_constraints id params
            ≡ value a)
          × (authorize_capabilities p s pa.grants pa.authorization_constraints id params ≡ value b)
          × (a.verdict ≢ deny)
          × (b.verdict ≢ deny)

      neither :
          (a b : Decision)
          → combine_decisions p s a b ≡ dec
          → (a.verdict ≡ deny) ⊎ (b.verdict ≡ deny)
          → ⊥
      neither a b e d =
          allowed (ap (λ (z : Decision). z.verdict) (sym e) ∙ combine_decisions-deny a b wins d)

      second :
          (a : Decision)
          → authorize_capabilities p s aic.capabilities aic.authorization_constraints id params
            ≡ value a
          → (r : Fallible Decision) → second_result ≡ r
          → (r >>= λ pa_dec. value (combine_decisions p s a pa_dec)) ≡ value dec
          → Both
      second a ea error eb h' = absurd (ground arith)
      second a ea (value b) eb h' = (
        a,
        b,
        ea,
        eb,
        (λ d. neither a b (ground arith) (inl d)),
        (λ d. neither a b (ground arith) (inr d)),
      )

      first :
          (r : Fallible Decision)
          → authorize_capabilities p s aic.capabilities aic.authorization_constraints id params ≡ r
          → (r >>= λ aic_dec.
              second_result >>= λ pa_dec. value (combine_decisions p s aic_dec pa_dec))
            ≡ value dec
          → Both
      first error ea h' = absurd (ground arith)
      first (value a) ea h' = second a ea second_result refl h'
