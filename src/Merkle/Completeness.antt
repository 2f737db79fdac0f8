-- ===== src/Merkle/Completeness.antt =====
-- merkle.go: `Proof` followed by `VerifyProofBounded`.
use aic_verifier.Prelude.{
  ℕ, zero, suc, ◌/◌, ◌≤◌, ◌<◌, ◌≡◌, refl, sym, ap, ◌∙◌, true, false, some, List, [], ◌∷◌, ◌++◌, map,
  length, get_elem?, arith, ltb, leb, Bool-cases, inl, inr, length-append, bytes_equal_refl,
  get_elem?-lt, lt→ltb, get_elem?-map, length-map,
}
use aic_verifier.Merkle.{
  Bytes, first_hash, Sha256, ProofStep, next_level, upper_levels, sibling_step, path, top_hash,
  hash_node, fold_step, fold_proof, ProofResult, proof, new_merkle_tree, tree_of, verify_proof,
  verify_proof_bounded, hash_leaf, to_result,
}
use aic_verifier.Merkle.Height.{length-next_level, ceil_log2, length-upper_levels}

sibling_step-suc-suc :
    (a b : Bytes) (rest : List Bytes) (i : ℕ)
    → sibling_step (a ∷ b ∷ rest) (suc (suc i)) ≡ sibling_step rest i
unfolding sibling_step
sibling_step-suc-suc a b rest zero = ground arith
sibling_step-suc-suc a b rest (suc i) = ground arith

not_ltb : (n k : ℕ) → k ≤ n → ltb n k ≡ false
not_ltb n k h = ground arith

not_leb : (n i : ℕ) → i < n → leb n i ≡ false
not_leb n i h = ground arith

module _ (sha : Sha256) where
  -- One step of the path takes a hash to the hash over it.
  pub sibling_step_lem :
      (hs : List Bytes) (i : ℕ) {x : Bytes}
      → get_elem? hs i ≡ some x
      → (st : List ProofStep) × (sibling_step hs i ≡ some st)
        × (get_elem? (next_level sha hs) (i / 2) ≡ some (fold_proof sha x st))
        × (length st ≤ 1)
  unfolding sibling_step next_level fold_proof fold_step
  sibling_step_lem [] i h = absurd (ground arith)
  sibling_step_lem (a ∷ []) zero h = ([], refl, h, omega arith)
  sibling_step_lem (a ∷ []) (suc i) h = absurd (ground arith)
  sibling_step_lem (a ∷ b ∷ rest) zero {x} h =
      (record { sibling = b; left = false } ∷ [], ground arith, ground arith, omega arith)
  sibling_step_lem (a ∷ b ∷ rest) (suc zero) {x} h =
      (record { sibling = a; left = true } ∷ [], refl, ground arith, omega arith)
  sibling_step_lem (a ∷ b ∷ rest) (suc (suc i)) h =
      let (st, found, up, short) = sibling_step_lem rest i h in
      let half : suc (suc i) / 2 ≡ suc (i / 2) = omega arith in
      (st, sibling_step-suc-suc a b rest i ∙ found, rw half up, short)

  fold_proof-append :
      (x : Bytes) (ps qs : List ProofStep)
      → fold_proof sha x (ps ++ qs) ≡ fold_proof sha (fold_proof sha x ps) qs
  unfolding fold_proof
  fold_proof-append x [] qs = refl
  fold_proof-append x (p ∷ ps) qs = fold_proof-append (fold_step sha x p) ps qs

  -- A path over the levels folds to the hash at the top.
  path_lem :
      (f : ℕ) (hs : List Bytes) (i : ℕ) {x : Bytes}
      → length hs ≤ suc f
      → get_elem? hs i ≡ some x
      → (p : List ProofStep) × (path hs (upper_levels sha f hs) i ≡ some p)
        × (top_hash hs (upper_levels sha f hs) ≡ fold_proof sha x p)
        × (length p ≤ length (upper_levels sha f hs))
  unfolding path upper_levels top_hash fold_proof
  path_lem zero [] i l h = absurd (ground arith)
  path_lem zero (a ∷ []) zero l h = ([], refl, ground arith, omega arith)
  path_lem zero (a ∷ []) (suc i) l h = absurd (ground arith)
  path_lem zero (a ∷ b ∷ rest) i l h = absurd (omega arith)
  path_lem (suc f) hs i {x} l h = elim (Bool-cases (ltb 1 (length hs))) [
    | inl more ↦
        let (st, found, up, short) = sibling_step_lem hs i h in
        let (p, path_found, top, p_short) =
          path_lem f (next_level sha hs) (i / 2) (ground (arith, length-next_level sha hs)) up in
        rw more (
          st ++ p,
          rw (found, path_found),
          top ∙ sym (fold_proof-append x st p),
          omega (arith, length-append st p),
        )
    | inr last ↦ rw last ([], refl, single hs i (ground arith) h, omega arith)
  ]
    where
      single :
          (ys : List Bytes) (j : ℕ) {y : Bytes}
          → length ys ≤ 1
          → get_elem? ys j ≡ some y
          → first_hash ys ≡ y
      single [] j l h = absurd (ground arith)
      single (a ∷ []) zero l h = ground arith
      single (a ∷ []) (suc j) l h = absurd (ground arith)
      single (a ∷ b ∷ r) j l h = absurd (omega arith)

  pub length-hash_node : (l r : Bytes) → length (hash_node sha l r) ≡ 32
  unfolding hash_node
  length-hash_node l r = sha.length-sum ((1 ∷ l) ++ r)

  pub length-fold_step : (x : Bytes) (p : ProofStep) → length (fold_step sha x p) ≡ 32
  unfolding fold_step hash_node
  length-fold_step x p =
      ground (arith, sha.length-sum ((1 ∷ p.sibling) ++ x), sha.length-sum ((1 ∷ x) ++ p.sibling))

  pub length-fold_proof :
      (x : Bytes) (ps : List ProofStep) → length x ≡ 32 → length (fold_proof sha x ps) ≡ 32
  unfolding fold_proof
  length-fold_proof x [] h = h
  length-fold_proof x (p ∷ ps) h = length-fold_proof (fold_step sha x p) ps (length-fold_step x p)

  pub length-hash_leaf : (leaf : Bytes) → length (hash_leaf sha leaf) ≡ 32
  unfolding hash_leaf
  length-hash_leaf leaf = sha.length-sum (0 ∷ leaf)

  pub verify_proof_self :
      (leaf root : Bytes) (ps : List ProofStep)
      → root ≡ fold_proof sha (hash_leaf sha leaf) ps
      → verify_proof sha leaf ps root ≡ true
  unfolding verify_proof
  verify_proof_self leaf root ps e =
      let size : length (fold_proof sha (hash_leaf sha leaf) ps) ≡ 32 =
        length-fold_proof (hash_leaf sha leaf) ps (length-hash_leaf leaf) in
      rw e (
        rw (lt→ltb 0 (length (fold_proof sha (hash_leaf sha leaf) ps)) (omega arith))
          (bytes_equal_refl (fold_proof sha (hash_leaf sha leaf) ps)))

  verify_proof_bounded_self :
      (leaf root : Bytes) (ps : List ProofStep) (n : ℕ)
      → root ≡ fold_proof sha (hash_leaf sha leaf) ps
      → length ps ≤ n
      → verify_proof_bounded sha leaf ps root n ≡ true
  unfolding verify_proof_bounded
  verify_proof_bounded_self leaf root ps n e short =
      rw (not_ltb n (length ps) short) (verify_proof_self leaf root ps e)

  proof-tree_of :
      (leaves hs : List Bytes) (i : ℕ) (p : List ProofStep)
      → i < length leaves
      → path hs (upper_levels sha (length hs) hs) i ≡ some p
      → proof (tree_of sha leaves hs) i ≡ ProofResult.ok p
  unfolding proof tree_of
  proof-tree_of leaves hs i p h found = rw (not_leb (length leaves) i h) (ap to_result found)

  pub root-tree_of :
      (leaves hs : List Bytes)
      → (tree_of sha leaves hs).root ≡ top_hash hs (upper_levels sha (length hs) hs)
  unfolding tree_of
  root-tree_of leaves hs = refl

  levels_bound :
      (hs : List Bytes) → length (upper_levels sha (length hs) hs) ≡ ceil_log2 (length hs)
  unfolding ceil_log2
  levels_bound hs = length-upper_levels sha (length hs) hs

  -- what a verifier needs of the leaf at an index
  pub record Proven (leaves : List Bytes) (i : ℕ) : Type 0 where
    pub leaf : Bytes
    pub steps : List ProofStep
    pub at_index : get_elem? leaves i ≡ some leaf
    pub found : proof (new_merkle_tree sha leaves) i ≡ ProofResult.ok steps
    pub verifies :
        verify_proof_bounded sha leaf steps
          (new_merkle_tree sha leaves).root
          (ceil_log2 (length leaves))
        ≡ true

  -- For every leaf of a batch, `Proof` returns a path without a panic, and the path verifies against
  -- the root of the tree within the length bound that `AuditChain.Verify` sets.
  pub proof_completeness : (leaves : List Bytes) (i : ℕ) → i < length leaves → Proven leaves i
  unfolding new_merkle_tree
  proof_completeness [] i h = elim h [ ]
  proof_completeness (l ∷ ls) i h =
      let (leaf, at_index) = get_elem?-lt (l ∷ ls) i h in
      let hs : List Bytes = map (hash_leaf sha) (l ∷ ls) in
      let (p, found, top, short) =
        path_lem (length hs) hs i (omega arith)
          (get_elem?-map (hash_leaf sha) (l ∷ ls) i at_index) in
      record {
        leaf = leaf;
        steps = p;
        at_index = at_index;
        found = proof-tree_of (l ∷ ls) hs i p h found;
        verifies =
            verify_proof_bounded_self leaf (tree_of sha (l ∷ ls) hs).root p
              (ceil_log2 (length (l ∷ ls))) (root-tree_of (l ∷ ls) hs ∙ top)
              (omega (
                arith,
                short,
                levels_bound hs,
                ap ceil_log2 (length-map (hash_leaf sha) (l ∷ ls)),
              ));
      }
