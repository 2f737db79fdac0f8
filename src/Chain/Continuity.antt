-- ===== src/Chain/Continuity.antt =====
-- The links of `AuditChain` in merkle.go: what `VerifyContinuity` finds.
use aic_verifier.Prelude.{
  ℕ, suc, ◌+◌, ◌≡◌, ◌≢◌, ◌↔◌, inl, inr, refl, ap, ◌∙◌, true, false, none, some, List, [], ◌∷◌,
  get_elem?, arith, bytes_equal, bytes_equal_refl, bytes_equal→eq, Bool-cases,
}
use aic_verifier.Merkle.{Bytes}
use aic_verifier.Chain.{SealedTree, AuditChain, check_links, verify_continuity}

-- Every batch after the first names the root of the one before it.
abbrev pub Linked : List SealedTree → Type 0
Linked [] = Unit
Linked (st ∷ []) = Unit
Linked (st ∷ next ∷ rest) = (next.previous ≡ st.root) × Linked (next ∷ rest)

check_links_sound :
    (i : ℕ) (st : SealedTree) (rest : List SealedTree)
    → check_links i st rest ≡ none
    → Linked (st ∷ rest)
unfolding check_links
check_links_sound i st [] h = tt
check_links_sound i st (next ∷ rest) h = elim (Bool-cases (bytes_equal next.previous st.root)) [
  | inl e ↦ (
    bytes_equal→eq next.previous st.root e,
    check_links_sound (i + 1) next rest (ground (arith, e)),
  )
  | inr d ↦ absurd (ground (arith, d))
]

check_links_complete :
    (i : ℕ) (st : SealedTree) (rest : List SealedTree)
    → Linked (st ∷ rest)
    → check_links i st rest ≡ none
unfolding check_links
check_links_complete i st [] h = refl
check_links_complete i st (next ∷ rest) h =
    let same : bytes_equal next.previous st.root ≡ true =
      ap (λ b. bytes_equal b st.root) h.0 ∙ bytes_equal_refl st.root in
    rw same (check_links_complete (i + 1) next rest h.1)

-- `VerifyContinuity` returns nil exactly on the chains whose batches are all linked.
pub verify_continuity_iff : (c : AuditChain) → (verify_continuity c ≡ none) ↔ Linked c.trees
unfolding verify_continuity
verify_continuity_iff c = go c.trees
  where
    go :
        (ts : List SealedTree)
        → ((elim ts [ [] ↦ none | st ∷ rest ↦ check_links 1 st rest ]) ≡ none) ↔ Linked ts
    go [] = ((λ h. tt), (λ h. refl))
    go (st ∷ rest) = (check_links_sound 1 st rest, check_links_complete 1 st rest)

-- A break at batch k of `ts`: the root before it is not the one that it names.
pub record BreakAt (ts : List SealedTree) (k : ℕ) : Type 0 where
  pub before : SealedTree
  pub at_break : SealedTree
  pub index : ℕ
  pub index_before : k ≡ suc index
  pub found_before : get_elem? ts index ≡ some before
  pub found : get_elem? ts k ≡ some at_break
  pub differs : at_break.previous ≢ before.root

check_links-break :
    (i : ℕ) (st : SealedTree) (rest : List SealedTree) (k : ℕ)
    → check_links i st rest ≡ some k
    → (j : ℕ) × (k ≡ i + j) × BreakAt (st ∷ rest) (suc j)
unfolding check_links
check_links-break i st [] k h = absurd (ground arith)
check_links-break i st (next ∷ rest) k h = elim (Bool-cases (bytes_equal next.previous st.root)) [
  | inr d ↦ (
    0,
    ground (arith, d),
    record {
      before = st;
      at_break = next;
      index = 0;
      index_before = refl;
      found_before = refl;
      found = refl;
      differs = λ e. differ next.previous st.root d e;
    },
  )
  | inl e ↦
      let (j, at, b) = check_links-break (i + 1) next rest k (ground (arith, e)) in
      (
        suc j,
        omega arith,
        record {
          before = b.before;
          at_break = b.at_break;
          index = suc b.index;
          index_before = ap suc b.index_before;
          found_before = b.found_before;
          found = b.found;
          differs = b.differs;
        },
      )
]
  where
    differ : (a b : Bytes) → bytes_equal a b ≡ false → a ≡ b → ⊥
    differ a b d p = cc (d, ap (bytes_equal a) p, bytes_equal_refl a)

-- The batch that `VerifyContinuity` reports does not name the root of the batch before it.
pub verify_continuity-break :
    (c : AuditChain) (k : ℕ) → verify_continuity c ≡ some k → BreakAt c.trees k
unfolding verify_continuity
verify_continuity-break c k h = go c.trees h
  where
    go :
        (ts : List SealedTree)
        → (elim ts [ [] ↦ none | st ∷ rest ↦ check_links 1 st rest ]) ≡ some k
        → BreakAt ts k
    go [] e = absurd (ground arith)
    go (st ∷ rest) e =
        let (j, at, b) = check_links-break 1 st rest k e in
        let same : suc j ≡ k = omega arith in rw same at b
