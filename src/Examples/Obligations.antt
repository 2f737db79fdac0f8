-- ===== src/Examples/Obligations.antt =====
-- The theorems on residual obligations at a registry with one evaluator.
use Prim.Native.Char.{code}
use aic_verifier.Prelude.{
  ◌≡◌, ◌↔◌, refl, String, Bool, true, false, not, ◌&&◌, ◌==◌, List, [], ◌∷◌, str_eq, arith, inr,
}
use aic_verifier.Merkle.{Bytes}
use aic_verifier.Model.{Capability}
use aic_verifier.Clc.{Semantics, constraint_string}
use aic_verifier.Constraints.Rendered.{IsWord, IsName, IsReadable, read_as, constraint_round_trip}
use aic_verifier.Examples.Setup.{toy_pki, toy_semantics}
use aic_verifier.Constraints.{ConstraintRegistry, find, is_constraint_scheme, check_constraints_reg}
use aic_verifier.Constraints.Obligations.{
  split, with_crumb, without_crumb, of_parts, constraint_to_capability, discharges,
  connection_constraint_evaluator, AllDischarged, evaluator_iff,
}

abbrev no_bytes : String → Bytes
no_bytes s = []

abbrev office : ConstraintRegistry
office = ("network:cidr", λ c ip now. str_eq ip "10.0.0.1") ∷ []

abbrev obligations : List String
obligations = "varwof/constraint-v1:network:cidr:[\"10.0.0.0/8\"]" ∷ []

from_office : connection_constraint_evaluator no_bytes office "10.0.0.1" 7 obligations ≡ true
unfolding connection_constraint_evaluator discharges constraint_to_capability of_parts with_crumb
    split find check_constraints_reg is_constraint_scheme
from_office = refl

-- an obligation without an evaluator
unknown_stays :
    connection_constraint_evaluator no_bytes office "10.0.0.1" 7 ("constraint:max_rows:5" ∷ [])
    ≡ false
unfolding connection_constraint_evaluator discharges constraint_to_capability of_parts without_crumb
    split find
unknown_stays = refl

evaluator_iff_example :
    connection_constraint_evaluator no_bytes office "10.0.0.1" 7 obligations ≡ true
    ↔ AllDischarged no_bytes office "10.0.0.1" 7 obligations
evaluator_iff_example = evaluator_iff no_bytes office "10.0.0.1" 7 obligations

abbrev five : Bytes
five = 53 ∷ []

abbrev text_semantics : Semantics
text_semantics = record toy_semantics { text_of = λ t. "5" }

abbrev cidr : Capability
cidr = record { scheme_id = "constraint"; capability_id = "network:cidr"; parameters = five }

abbrev colon_free : String → Bool
colon_free String.[] = true
colon_free (String.◌∷◌ c s) = not (code c == b':') && colon_free s

words : (w : String) → colon_free w ≡ true → IsWord w
words String.[] h = tt
words (String.◌∷◌ c s) h = (ground (arith, h), words s (ground (arith, h)))

scheme-IsName : IsName "varwof/constraint-v1"
scheme-IsName = (words "varwof/constraint-v1" refl, refl)

cidr-IsReadable : IsReadable cidr
cidr-IsReadable =
    inr ("network", "cidr", refl, (words "network" refl, refl), refl, words "cidr" refl, refl)

constraint_round_trip_example :
    constraint_to_capability (λ t. five) (constraint_string toy_pki text_semantics cidr)
    ≡ read_as "varwof/constraint-v1" "network:cidr" five
constraint_round_trip_example =
    constraint_round_trip toy_pki text_semantics (λ t. five) cidr refl scheme-IsName cidr-IsReadable
