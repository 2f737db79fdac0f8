-- ===== src/Parameters.antt =====
-- parameters.go: the validators of capability parameters, by scheme. The map has no key twice; JSON and
-- `bytes.TrimSpace` are parameters.
use aic_verifier.Prelude.{
  ℕ, ◌≡◌, ◌≤◌, ◌⊎◌, ◌↔◌, refl, String, Bool, true, false, not, Option, none, some, List, [], ◌∷◌,
  length, map, ltb, str_eq, is_some, bytes_equal, arith, if◌then◌else◌, Bool-cases, inl, inr,
}
use aic_verifier.Merkle.{Bytes}
use aic_verifier.Model.{Capability, Fallible, value, error}

-- of the authorized and of the declared capability; true for nil
abbrev pub Validator : Type 0
Validator = Capability → Capability → Bool

abbrev pub ParameterValidatorRegistry : Type 0
ParameterValidatorRegistry = List (String × Validator)

unfoldable pub find : ParameterValidatorRegistry → String → Option Validator
find [] scheme = none
find ((k, v) ∷ reg) scheme = if str_eq k scheme then some v else find reg scheme

-- none for an error
unfoldable pub register :
    ParameterValidatorRegistry → String → Validator → Option ParameterValidatorRegistry
register reg scheme v =
    if str_eq scheme ""
    then none
    else if is_some (find reg scheme)
    then none
    else some ((scheme, v) ∷ reg)

unfoldable pub reset : ParameterValidatorRegistry → ParameterValidatorRegistry
reset reg = []

unfoldable pub len : ParameterValidatorRegistry → ℕ
len reg = length reg

unfoldable pub keys : ParameterValidatorRegistry → List String
keys reg = map (λ (e : String × Validator). e.0) reg

-- true for nil; a scheme without a validator has no bounds
unfoldable pub validate_capability : ParameterValidatorRegistry → Capability → Capability → Bool
validate_capability reg granted declared = elim (find reg declared.scheme_id) [
  | none ↦ true
  | some v ↦ v granted declared
]

-- an int64 of JSON
pub data Number : Type 0 where
  natural : ℕ → Number
  negative : Number

module _ (trim_space : Bytes → Bytes) (unmarshal : Bytes → Fallible (Option Number)) where
  abbrev pub checked : Fallible (Option Number) → Fallible (Option ℕ)
  checked error = error
  checked (value none) = value none
  checked (value (some negative)) = error
  checked (value (some (natural n))) = value (some n)

  -- the value, if there is one
  unfoldable pub parse_max_rows : Bytes → Fallible (Option ℕ)
  parse_max_rows raw =
      if bytes_equal (trim_space raw) [] then value none else checked (unmarshal (trim_space raw))

  abbrev pub within : Option ℕ → Option ℕ → Bool
  within g none = true
  within none (some d) = true
  within (some g) (some d) = not (ltb g d)

  -- true for nil
  unfoldable pub max_rows_validator : Validator
  max_rows_validator granted declared = elim (parse_max_rows granted.parameters) [
    | error ↦ false
    | value g ↦ elim (parse_max_rows declared.parameters) [ error ↦ false | value d ↦ within g d ]
  ]

  -- the built-in registry
  unfoldable pub builtin_parameter_validators : ParameterValidatorRegistry
  builtin_parameter_validators = ("report", max_rows_validator) ∷ []

  abbrev pub Bounded : Option ℕ → Option ℕ → Type 0
  Bounded g d = (m n : ℕ) → g ≡ some m → d ≡ some n → n ≤ m

  within-Bounded : (g d : Option ℕ) → within g d ≡ true → Bounded g d
  within-Bounded g none h m n a b = absurd (ground (arith, b))
  within-Bounded none (some d) h m n a b = absurd (ground (arith, a))
  within-Bounded (some g) (some d) h m n a b = ground (arith, h, a, b)

  Bounded-within : (g d : Option ℕ) → Bounded g d → within g d ≡ true
  Bounded-within g none h = refl
  Bounded-within none (some d) h = refl
  Bounded-within (some g) (some d) h = ground (arith, h g d refl refl)

  abbrev both : Fallible (Option ℕ) → Fallible (Option ℕ) → Bool
  both r s = elim r [ error ↦ false | value g ↦ elim s [ error ↦ false | value d ↦ within g d ] ]

  both_sound :
      (r s : Fallible (Option ℕ))
      → both r s ≡ true
      → (g : Option ℕ) × (d : Option ℕ) × ((r ≡ value g) × ((s ≡ value d) × Bounded g d))
  both_sound error s h = absurd (ground (arith, h))
  both_sound (value g) error h = absurd (ground (arith, h))
  both_sound (value g) (value d) h = (g, d, (refl, (refl, within-Bounded g d h)))

  -- With the built-in registry a declaration passes exactly if its scheme has no bounds, or if both
  -- sides' parameters can be read and the declared number of rows, where both name one, is at most the
  -- granted one.
  pub builtin_iff :
      (granted declared : Capability)
      → (validate_capability builtin_parameter_validators granted declared ≡ true) ↔ (
          (str_eq "report" declared.scheme_id ≡ false)
          ⊎ ((g : Option ℕ) × (d : Option ℕ) × ((parse_max_rows granted.parameters ≡ value g)
                × ((parse_max_rows declared.parameters ≡ value d) × Bounded g d))))
  unfolding validate_capability builtin_parameter_validators find max_rows_validator
  builtin_iff granted declared = elim (Bool-cases (str_eq "report" declared.scheme_id)) [
    | inr other ↦ ((λ h. inl other), (λ h. ground (arith, other)))
    | inl ours ↦ (
      (λ h. inr (
          both_sound (parse_max_rows granted.parameters) (parse_max_rows declared.parameters)
            (ground (arith, ours, h)))),
      (λ h. elim h [
        | inl other ↦ absurd (ground (arith, ours, other))
        | inr (g, d, (a, (b, bounded))) ↦ ground (arith, ours, a, b, Bounded-within g d bounded)
      ]),
    )
  ]
