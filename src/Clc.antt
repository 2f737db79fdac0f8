-- ===== src/Clc.antt =====
-- clc.go: the decision of concrete operations. The CLC language core (register/semantics) and JSON are
-- parameters; a JSON object is given as its canonical bytes.
pub mod Evaluation
pub mod Operations
pub mod Aggregate
use Prim.Native.String.{◌++◌ as append}
use aic_verifier.Prelude.{
  ℕ, String, Bool, true, false, not, ◌&&◌, ◌||◌, Option, none, some, List, [], ◌∷◌, ◌++◌, map, all,
  bytes_equal, str_eq, if◌then◌else◌,
}
use aic_verifier.Merkle.{Bytes}
use aic_verifier.Model.{Capability, Aic, PrincipalAuthorization, Pki, Fallible, value, error}

pub record Grant : Type 0 where
  pub id : String
  pub params : Option Bytes
  pub constraints : List String

pub record Operation : Type 0 where
  pub id : String
  pub params : Bytes

pub data Verdict : Type 0 where
  allow deny allow_unresolved : Verdict

pub record Decision : Type 0 where
  pub verdict : Verdict
  pub reason : String
  pub unresolved : List String

-- The functions of register/semantics and encoding/json that clc.go calls.
pub record Semantics : Type 0 where
  pub validate_capability_id : String → Bool
  pub validate_grant_params : Option Bytes → Bool
  pub validate_operation_params : Option Bytes → Bool
  pub authorize_set : List Grant → String → Option Bytes → Decision
  pub combine : Decision → Decision → Fallible Decision
  pub combine_error : Decision → Decision → String
  pub discharge : Decision → List String → Bool
  -- `DecisionContext.Fresh` at a time, true for nil
  pub fresh : Bytes → ℕ → Bool
  -- `strings.TrimSpace`
  pub trim_space : Bytes → Bytes
  -- `json.Unmarshal` into an object: none for an error
  pub unmarshal : Bytes → Option Bytes
  pub has_no_members : Bytes → Bool
  -- `string(c.Parameters)`
  pub text_of : Bytes → String

pub record OperationDecision : Type 0 where
  pub id : String
  pub params : Bytes
  pub verdict : Verdict
  pub reason : String
  pub unresolved : List String
  pub grants : List Grant
  pub released : Bool

infixl 5 ◌>>=◌ ◌>>◌
abbrev pub ◌>>=◌ {ℓ κ} : {A : Type ℓ} {B : Type κ} → Fallible A → (A → Fallible B) → Fallible B
value a >>= f = f a
error >>= f = error

abbrev pub ◌>>◌ {ℓ} : {B : Type ℓ} → Fallible (Unit {0}) → Fallible B → Fallible B
m >> k = m >>= λ _. k

abbrev pub guard : Bool → Fallible (Unit {0})
guard true = value tt
guard false = error

abbrev is_no_params : Bytes → Bool
is_no_params t =
    bytes_equal t []
    || (bytes_equal t (123 ∷ 125 ∷ []) || bytes_equal t (110 ∷ 117 ∷ 108 ∷ 108 ∷ []))

-- the scheme of a constraint in the language's spelling
abbrev pub canonical_scheme : String → String
canonical_scheme scheme =
    if str_eq scheme "constraint" || str_eq scheme "constraint-v1"
    then "varwof/constraint-v1"
    else scheme

module _ (p : Pki) (s : Semantics) where
  unfoldable pub normalize_params : Bytes → Fallible (Option Bytes)
  normalize_params raw =
      if is_no_params (s.trim_space raw) then value none else elim (s.unmarshal raw) [
        | none ↦ error
        | some object ↦ value (if s.has_no_members object then none else some object)
      ]

  unfoldable pub to_grant : Capability → Fallible Grant
  to_grant c = do
    guard (s.validate_capability_id (p.full_id c))
    params ← normalize_params c.parameters
    guard (s.validate_grant_params params)
    value (record { id = p.full_id c; params = params; constraints = [] })

  unfoldable pub to_grant_set : List Capability → Fallible (List Grant)
  to_grant_set [] = value []
  to_grant_set (c ∷ caps) = do grant ← to_grant c; rest ← to_grant_set caps; value (grant ∷ rest)

  unfoldable pub constraint_string : Capability → String
  constraint_string c =
      let scheme = canonical_scheme c.scheme_id in
      let named =
        if str_eq c.capability_id "" then scheme else append scheme (append ":" c.capability_id) in
      if bytes_equal c.parameters []
      then named
      else append named (append ":" (s.text_of c.parameters))

  unfoldable pub constraint_strings : List Capability → List String
  unfolding constraint_string
  constraint_strings = map constraint_string

  -- appending no strings changes no grant
  unfoldable pub with_constraints : List Capability → List Grant → List Grant
  with_constraints constraints =
      map
        (λ (g : Grant). record g { constraints = g.constraints ++ constraint_strings constraints })

  unfoldable pub grants_absent : List Grant → Bool
  grants_absent = all (λ (g : Grant). str_eq g.id "")

  unfoldable pub authorize_grants : List Grant → String → Bytes → Fallible Decision
  authorize_grants grants op_id params = normalize_params params >>= λ normalized.
      if grants_absent grants
      then value (s.authorize_set grants op_id normalized)
      else if not (s.validate_capability_id op_id)
      then error
      else if not (s.validate_operation_params normalized)
      then error
      else value (s.authorize_set grants op_id normalized)

  unfoldable pub authorize_capabilities :
      List Capability → List Capability → String → Bytes → Fallible Decision
  authorize_capabilities caps constraints op_id params = to_grant_set caps >>= λ grants.
      authorize_grants (with_constraints constraints grants) op_id params

  unfoldable pub combine_decisions : Decision → Decision → Decision
  combine_decisions a b = elim (s.combine a b) [
    | error ↦ record { verdict = deny; reason = s.combine_error a b; unresolved = [] }
    | value combined ↦ combined
  ]

  unfoldable pub authorize_operation :
      Option Aic → Option PrincipalAuthorization → String → Bytes → Fallible Decision
  authorize_operation none none op_id params = error
  authorize_operation none (some pa) op_id params =
      authorize_capabilities pa.grants pa.authorization_constraints op_id params
  authorize_operation (some aic) none op_id params =
      authorize_capabilities aic.capabilities aic.authorization_constraints op_id params
  authorize_operation (some aic) (some pa) op_id params =
      authorize_capabilities aic.capabilities aic.authorization_constraints op_id params
      >>= λ aic_dec.
          authorize_capabilities pa.grants pa.authorization_constraints op_id params >>= λ pa_dec.
          value (combine_decisions aic_dec pa_dec)

  -- `evidenceRecorders` of evidence_sink.go, for one of its two sources
  unfoldable pub recorder : List Capability → List Capability → Option (List Grant)
  recorder caps constraints = elim (to_grant_set caps) [
    | error ↦ none
    | value grants ↦ some (with_constraints constraints grants)
  ]

  abbrev pub recorded_principal : Option PrincipalAuthorization → List Grant
  recorded_principal none = []
  recorded_principal (some pa) = elim (recorder pa.grants pa.authorization_constraints) [
    | none ↦ []
    | some grants ↦ grants
  ]

  unfoldable pub decision_grants : Option Aic → Option PrincipalAuthorization → List Grant
  decision_grants none pa = recorded_principal pa
  decision_grants (some aic) pa = elim (recorder aic.capabilities aic.authorization_constraints) [
    | none ↦ recorded_principal pa
    | some grants ↦ grants
  ]
