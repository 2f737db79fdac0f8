-- ===== src/Clc/Aggregate.antt =====
-- clc.go: the verdict of an admission over the decisions of its operations.
use aic_verifier.Prelude.{
  String, Bool, true, false, Option, none, some, List, [], ◌∷◌, ◌++◌, join, str_eq, if◌then◌else◌,
}
use aic_verifier.Clc.{Verdict, OperationDecision, allow, deny, allow_unresolved}

abbrev is_unresolved : Verdict → Bool
is_unresolved allow = false
is_unresolved deny = false
is_unresolved allow_unresolved = true

abbrev pub Aggregate : Type 0
Aggregate = Option Verdict × String × List String

-- the loop: the verdict, the reasons and what is left to resolve so far
unfoldable pub roll_up :
    List OperationDecision
    → Verdict × List String × List String
    → Verdict × List String × List String
roll_up [] acc = acc
roll_up (od ∷ ods) (v, reasons, left) = roll_up ods (
    if is_unresolved od.verdict
    then (
      allow_unresolved,
      (if str_eq od.reason "" then reasons else reasons ++ od.reason ∷ []),
      left ++ od.unresolved,
    )
    else (v, reasons, left))

-- no verdict for no operations
unfoldable pub aggregate_clc_decisions : List OperationDecision → Aggregate
unfolding roll_up
aggregate_clc_decisions [] = (none, "", [])
aggregate_clc_decisions (od ∷ ods) =
    let (v, reasons, left) = roll_up (od ∷ ods) (allow, [], []) in (some v, join "; " reasons, left)
