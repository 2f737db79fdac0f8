-- ===== src/Constraints.antt =====
-- constraints.go: the registry of constraint evaluators; decision.go: the evaluation of the constraints
-- of an AIC or of a PrincipalAuthorization. An evaluator sees the constraint, the client's address and
-- the time, and answers true for nil.
pub mod Evaluators
pub mod Window
pub mod Recheck
pub mod Obligations
pub mod Rendered
use aic_verifier.Prelude.{
  ℕ, String, ◌≡◌, ◌↔◌, refl, sym, ap, Bool, true, ◌||◌, not, Option, none, some, List, [], ◌∷◌,
  length, arith, str_eq, eq_iff, is_some, if◌then◌else◌, Option-cases, Bool-cases, inl, inr,
}
use aic_verifier.Model.{Capability}

abbrev pub Evaluator : Type 0
Evaluator = Capability → String → ℕ → Bool

-- the map, of which no key occurs twice
abbrev pub ConstraintRegistry : Type 0
ConstraintRegistry = List (String × Evaluator)

unfoldable pub find : ConstraintRegistry → String → Option Evaluator
find [] id = none
find ((k, ev) ∷ reg) id = if str_eq k id then some ev else find reg id

-- none for an error: an empty id, or one that is registered already
unfoldable pub register : ConstraintRegistry → String → Evaluator → Option ConstraintRegistry
register reg id ev =
    if str_eq id "" then none else if is_some (find reg id) then none else some ((id, ev) ∷ reg)

unfoldable pub remove : ConstraintRegistry → String → ConstraintRegistry
remove [] id = []
remove ((k, ev) ∷ reg) id = let rest = remove reg id in if str_eq k id then rest else (k, ev) ∷ rest

unfoldable pub replace : ConstraintRegistry → String → Evaluator → Option ConstraintRegistry
unfolding remove
replace reg id ev = if str_eq id "" then none else some ((id, ev) ∷ remove reg id)

unfoldable pub reset : ConstraintRegistry → ConstraintRegistry
reset reg = []

unfoldable pub len : ConstraintRegistry → ℕ
len reg = length reg

unfoldable pub is_constraint_scheme : String → Bool
is_constraint_scheme scheme =
    str_eq scheme "varwof/constraint-v1"
    || (str_eq scheme "constraint" || str_eq scheme "constraint-v1")

pub data ConstraintError : Type 0 where
  foreign_scheme violated : Capability → ConstraintError

-- the loop of `checkConstraintsReg`; none for nil
unfoldable pub check_constraints_reg :
    ConstraintRegistry → List Capability → String → ℕ → Option ConstraintError
check_constraints_reg reg [] client_ip now = none
check_constraints_reg reg (c ∷ cs) client_ip now =
    let rest = check_constraints_reg reg cs client_ip now in
    if not (is_constraint_scheme c.scheme_id)
    then some (foreign_scheme c)
    else elim (find reg c.capability_id) [
      | none ↦ rest
      | some ev ↦ if ev c client_ip now then rest else some (violated c)
    ]

unfoldable pub first_unknown_constraint_reg :
    ConstraintRegistry → List Capability → Option Capability
first_unknown_constraint_reg reg [] = none
first_unknown_constraint_reg reg (c ∷ cs) =
    let rest = first_unknown_constraint_reg reg cs in
    if not (is_constraint_scheme c.scheme_id)
    then rest
    else if is_some (find reg c.capability_id)
    then rest
    else some c

module _ (reg : ConstraintRegistry) (client_ip : String) (now : ℕ) where
  -- Every constraint is in the namespace, is known, and holds.
  abbrev pub AllHold : List Capability → Type 0
  AllHold [] = Unit
  AllHold (c ∷ cs) =
      ((is_constraint_scheme c.scheme_id ≡ true)
        × ((ev : Evaluator) × (find reg c.capability_id ≡ some ev) × (ev c client_ip now ≡ true)))
      × AllHold cs

  -- The two checks of strict mode pass exactly if every constraint is of the constraint namespace, has
  -- an evaluator, and is accepted by it for this client and this time.
  pub strict_iff :
      (cs : List Capability)
      → ((check_constraints_reg reg cs client_ip now ≡ none)
          × (first_unknown_constraint_reg reg cs ≡ none))
        ↔ AllHold cs
  unfolding check_constraints_reg first_unknown_constraint_reg
  strict_iff [] = ((λ h. tt), (λ h. (refl, refl)))
  strict_iff (c ∷ cs) = (
    (λ h. elim (Bool-cases (is_constraint_scheme c.scheme_id)) [
      | inr foreign ↦ absurd (ground (arith, foreign, h.0))
      | inl ours ↦ elim (Option-cases (find reg c.capability_id)) [
        | inl unknown ↦ absurd (ground (arith, ours, unknown, h.1))
        | inr (ev, known) ↦ elim (Bool-cases (ev c client_ip now)) [
          | inr fails ↦ absurd (ground (arith, ours, known, fails, h.0))
          | inl holds ↦ (
            (ours, (ev, known, holds)),
            (strict_iff cs).0
                (ground (arith, ours, known, holds, h.0), ground (arith, ours, known, h.1)),
          )
        ]
      ]
    ]),
    (λ h.
        let ev = h.0.1.0 in
        let below = (strict_iff cs).1 h.1 in
        (
          ground (arith, h.0.0, h.0.1.1, h.0.1.2, below.0),
          ground (arith, h.0.0, h.0.1.1, below.1),
        )),
  )

-- After a registration exactly the new id is found anew, and a registered id is refused.
pub find-register :
    (reg reg' : ConstraintRegistry) (id other : String) (ev : Evaluator)
    → register reg id ev ≡ some reg'
    → (find reg id ≡ none)
      × (find reg' other ≡ (if str_eq id other then some ev else find reg other))
unfolding register find
find-register reg reg' id other ev h = elim (Option-cases (find reg id)) [
  | inr (x, there) ↦ absurd (ground (arith, there, h))
  | inl fresh ↦
      let grown : (id, ev) ∷ reg ≡ reg' = ground (arith, fresh, h) in
      (fresh, ap (λ r. find r other) (sym grown))
]

find-remove :
    (reg : ConstraintRegistry) (id other : String)
    → find (remove reg id) other ≡ (if str_eq id other then none else find reg other)
unfolding remove find
find-remove [] id other = ground arith
find-remove ((k, ev) ∷ reg) id other =
    ground (arith, find-remove reg id other, eq_iff k id, eq_iff k other, eq_iff id other)
