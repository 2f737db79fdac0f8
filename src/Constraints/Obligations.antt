-- ===== src/Constraints/Obligations.antt =====
-- clc.go: `ConstraintToCapability`, and `ConnectionConstraintEvaluator`, which discharges the residual
-- obligations of an operation by the registry of constraints. `[]byte(s)` is a parameter, and the clock
-- is read once for a list of obligations.
use Prim.Native.String.{◌++◌ as append, ◌∷◌ as char}
use Prim.Native.Char.{Char, code}
use aic_verifier.Prelude.{
  ℕ, String, ◌≡◌, ◌↔◌, refl, Bool, true, false, ◌||◌, ◌&&◌, not, Option, none, some, List, [], ◌∷◌,
  arith, str_eq, is_some, join, ◌==◌, if◌then◌else◌, Option-cases, Bool-cases, inl, inr,
}
use aic_verifier.Merkle.{Bytes}
use aic_verifier.Model.{Capability}
use aic_verifier.Constraints.{
  ConstraintRegistry, find, is_constraint_scheme, check_constraints_reg, AllHold,
}

abbrev pub with_first : Char → List String → List String
with_first c [] = char c "" ∷ []
with_first c (w ∷ ws) = char c w ∷ ws

-- `strings.Split(c, ":")`
unfoldable pub split : String → List String
split String.[] = "" ∷ []
split (String.◌∷◌ c s) =
    let rest = split s in if code c == b':' then "" ∷ rest else with_first c rest

module _ (bytes_of : String → Bytes) where
  -- the types "time" and "network", whose third part belongs to the id
  unfoldable pub with_crumb : String → String → List String → Option Capability
  with_crumb scheme kind [] = none
  with_crumb scheme kind (crumb ∷ []) = none
  with_crumb scheme kind (crumb ∷ json ∷ more) = some (record {
    scheme_id = scheme;
    capability_id = append kind (append ":" crumb);
    parameters = bytes_of (join ":" (json ∷ more));
  })

  unfoldable pub without_crumb : String → String → List String → Option Capability
  without_crumb scheme kind [] =
      some (record { scheme_id = scheme; capability_id = kind; parameters = [] })
  without_crumb scheme kind (p ∷ ps) = some (record {
    scheme_id = scheme;
    capability_id = kind;
    parameters = bytes_of (join ":" (p ∷ ps));
  })

  unfoldable pub of_parts : List String → Option Capability
  of_parts [] = none
  of_parts (scheme ∷ []) = none
  of_parts (scheme ∷ kind ∷ rest) =
      if str_eq scheme "" || str_eq kind ""
      then none
      else if str_eq kind "time" || str_eq kind "network"
      then with_crumb scheme kind rest
      else without_crumb scheme kind rest

  unfoldable pub constraint_to_capability : String → Option Capability
  constraint_to_capability c = of_parts (split c)

  module _ (reg : ConstraintRegistry) (client_ip : String) (now : ℕ) where
    unfoldable pub discharges : Option Capability → Bool
    discharges none = false
    discharges (some cap) =
        is_some (find reg cap.capability_id)
        && not (is_some (check_constraints_reg reg (cap ∷ []) client_ip now))

    -- of the residual obligations; the operation is not looked at
    unfoldable pub connection_constraint_evaluator : List String → Bool
    connection_constraint_evaluator [] = true
    connection_constraint_evaluator (c ∷ cs) =
        let rest = connection_constraint_evaluator cs in
        if discharges (constraint_to_capability c) then rest else false

    -- Every obligation denotes a constraint that is in the namespace, is known, and holds.
    abbrev pub AllDischarged : List String → Type 0
    AllDischarged [] = Unit
    AllDischarged (c ∷ cs) =
        ((cap : Capability) × (constraint_to_capability c ≡ some cap)
          × AllHold reg client_ip now (cap ∷ []))
        × AllDischarged cs

    discharges-AllHold :
        (c : Capability) → discharges (some c) ≡ true ↔ AllHold reg client_ip now (c ∷ [])
    unfolding discharges check_constraints_reg
    discharges-AllHold c = (
      (λ h. elim (Option-cases (find reg c.capability_id)) [
        | inl unknown ↦ absurd (ground (arith, unknown, h))
        | inr (ev, known) ↦ elim (Bool-cases (is_constraint_scheme c.scheme_id)) [
          | inr foreign ↦ absurd (ground (arith, known, foreign, h))
          | inl ours ↦ elim (Bool-cases (ev c client_ip now)) [
            | inr fails ↦ absurd (ground (arith, known, ours, fails, h))
            | inl holds ↦ ((ours, (ev, known, holds)), tt)
          ]
        ]
      ]),
      (λ h. let ((ours, (ev, known, holds)), _) = h in rw known (rw ours (rw holds refl))),
    )

    -- The obligations of an operation are discharged exactly if each can be read as a constraint of the
    -- constraint namespace that has an evaluator, and that accepts this client at this time.
    pub evaluator_iff :
        (unresolved : List String)
        → connection_constraint_evaluator unresolved ≡ true ↔ AllDischarged unresolved
    unfolding connection_constraint_evaluator
    evaluator_iff [] = ((λ h. tt), (λ h. refl))
    evaluator_iff (c ∷ cs) = (
      (λ h. elim (Option-cases (constraint_to_capability c)) [
        | inl unread ↦ absurd (unfold discharges in ground (arith, unread, h))
        | inr (x, read) ↦ elim (Bool-cases (discharges (some x))) [
          | inr fails ↦ absurd (ground (arith, read, fails, h))
          | inl holds ↦ (
            (x, read, (discharges-AllHold x).0 holds),
            (evaluator_iff cs).0 (ground (arith, read, holds, h)),
          )
        ]
      ]),
      (λ h.
          let ((x, read, held), rest) = h in
          rw read (rw ((discharges-AllHold x).1 held) ((evaluator_iff cs).1 rest))),
    )
