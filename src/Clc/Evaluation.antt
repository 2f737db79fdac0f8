-- ===== src/Clc/Evaluation.antt =====
-- clc.go: the loop over the operations of an admission, `evaluateCLCOperations`.
use aic_verifier.Prelude.{
  ℕ, String, Bool, true, false, not, ◌&&◌, Option, none, some, List, [], ◌∷◌, if◌then◌else◌,
}
use aic_verifier.Merkle.{Bytes}
use aic_verifier.Model.{Aic, PrincipalAuthorization, Pki, value, error}
use aic_verifier.Clc.{
  Grant, Operation, Verdict, Decision, Semantics, OperationDecision, authorize_operation, allow,
  deny, allow_unresolved,
}

-- none is the freshness gate switched off; the context and its absence otherwise
pub data ContextGate : Type 0 where
  off missing : ContextGate
  pinned : Bytes → ContextGate

abbrev pub gate_of : Bool → Option Bytes → ContextGate
gate_of false context = off
gate_of true none = missing
gate_of true (some c) = pinned c

-- what the operations of an admission are decided with
pub record OperationConfig : Type 0 where
  pub operations : List Operation
  pub unresolved_evaluator : Option (Operation → List String → Bool)
  pub discharge_obligations : Bool
  pub obligations_understood : List String
  pub require_fresh_decision_context : Bool
  pub decision_context : Option Bytes

pub data OperationRefusal : Type 0 where
  undecidable context_stale denied obligation_unknown unresolved : String → OperationRefusal

-- the decisions made, and the refusal that ended the loop, if there was one
pub record OperationOutcome : Type 0 where
  pub decisions : List OperationDecision
  pub refusal : Option OperationRefusal

module _ (p : Pki) (s : Semantics) (cfg : OperationConfig) (now : ℕ) where
  -- true for nil
  unfoldable pub check_decision_context : Bool
  check_decision_context = elim (gate_of cfg.require_fresh_decision_context cfg.decision_context) [
    | off ↦ true
    | missing ↦ false
    | pinned c ↦ s.fresh c now
  ]

  abbrev pub confirmed : Operation → List String → Bool
  confirmed op residual = elim cfg.unresolved_evaluator [
    | none ↦ false
    | some evaluate ↦ evaluate op residual
  ]

  -- the switch over the verdict: the refusal, or whether the operation was released
  unfoldable pub settle : Operation → Decision → Verdict → Option OperationRefusal × Bool
  settle op dec allow =
      if check_decision_context then (none, false) else (some (context_stale op.id), false)
  settle op dec deny = (some (denied op.id), false)
  settle op dec allow_unresolved =
      if cfg.discharge_obligations && not (s.discharge dec cfg.obligations_understood)
      then (some (obligation_unknown op.id), false)
      else if confirmed op dec.unresolved
      then (if check_decision_context then (none, true) else (some (context_stale op.id), false))
      else (some (unresolved op.id), false)

  abbrev pub operation_decision : List Grant → Operation → Decision → Bool → OperationDecision
  operation_decision grants op dec released = record {
    id = op.id;
    params = op.params;
    verdict = dec.verdict;
    reason = dec.reason;
    unresolved = dec.unresolved;
    grants = grants;
    released = released;
  }

  module _ (aic : Option Aic) (pa : Option PrincipalAuthorization) (grants : List Grant) where
    -- an operation that cannot be decided is refused without a decision of its own
    unfoldable pub evaluate_operations : List Operation → OperationOutcome
    evaluate_operations [] = record { decisions = []; refusal = none }
    evaluate_operations (op ∷ ops) =
        let rest = evaluate_operations ops in
        elim (authorize_operation p s aic pa op.id op.params) [
          | error ↦ record { decisions = []; refusal = some (undecidable op.id) }
          | value dec ↦
              let (refusal, released) = settle op dec dec.verdict in
              let od = operation_decision grants op dec released in
              elim refusal [
                | some r ↦ record { decisions = od ∷ []; refusal = some r }
                | none ↦ record { decisions = od ∷ rest.decisions; refusal = rest.refusal }
              ]
        ]
