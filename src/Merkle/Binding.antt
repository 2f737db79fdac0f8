-- ===== src/Merkle/Binding.antt =====
-- merkle.go: the texts that `VerifyProof` hashes, and leaves that verify at one position.
use aic_verifier.Prelude.{
  ℕ, ◌<◌, ◌≡◌, ◌≢◌, ◌⊎◌, inl, inr, refl, sym, ap, ◌∙◌, Bool, true, false, some, List, [], ◌∷◌, ◌++◌,
  length, get_elem?, arith, Bool-cases, bytes_equal, bytes_equal_refl, bytes_equal→eq,
  length-append, Memᴰ, if◌then◌else◌,
}
use aic_verifier.Merkle.{
  Bytes, Sha256, ProofStep, ProofResult, hash_leaf, hash_node, new_merkle_tree, proof, fold_step,
  fold_proof, verify_proof, verify_proof_bounded,
}
use aic_verifier.Merkle.Height.{ceil_log2}
use aic_verifier.Merkle.Completeness.{length-hash_leaf, proof_completeness, length-fold_step}

-- a text of the one list and a text of the other that differ and have one digest
abbrev pub Collision : Sha256 → List Bytes → List Bytes → Type 0
Collision sha xs ys =
    (x : Bytes) × (y : Bytes) × (Memᴰ x xs × (Memᴰ y ys × ((x ≢ y) × (sha.sum x ≡ sha.sum y))))

module _ (sha : Sha256) where
  -- a collision among some of the texts is one among all
  pub Collision-wider :
      (xs ys us vs : List Bytes)
      → Collision sha xs ys
      → ((x : Bytes) → Memᴰ x xs → Memᴰ x us)
      → ((y : Bytes) → Memᴰ y ys → Memᴰ y vs)
      → Collision sha us vs
  Collision-wider xs ys us vs (x, y, (m, (n, c))) f g = (x, y, (f x m, (g y n, c)))

  only : (x a : Bytes) (cs : List Bytes) → Memᴰ x (a ∷ []) → Memᴰ x (a ∷ cs)
  only x a cs (Memᴰ.head e) = Memᴰ.head e
  only x a cs (Memᴰ.tail m) = elim m [ ]

  pub Collision-heads :
      (a b : Bytes) (cs ds : List Bytes)
      → Collision sha (a ∷ []) (b ∷ [])
      → Collision sha (a ∷ cs) (b ∷ ds)
  Collision-heads a b cs ds c =
      Collision-wider (a ∷ []) (b ∷ []) (a ∷ cs) (b ∷ ds) c (λ x. only x a cs) (λ y. only y b ds)

  pub Collision-tails :
      (a b : Bytes) (cs ds : List Bytes) → Collision sha cs ds → Collision sha (a ∷ cs) (b ∷ ds)
  Collision-tails a b cs ds c =
      Collision-wider cs ds (a ∷ cs) (b ∷ ds) c (λ x m. Memᴰ.tail m) (λ y m. Memᴰ.tail m)

  -- what a step of a proof hashes
  unfoldable pub step_text : Bytes → ProofStep → Bytes
  step_text hash step = if step.left then (1 ∷ step.sibling) ++ hash else (1 ∷ hash) ++ step.sibling

  unfoldable pub fold_texts : Bytes → List ProofStep → List Bytes
  fold_texts hash [] = []
  fold_texts hash (step ∷ steps) = step_text hash step ∷ fold_texts (fold_step sha hash step) steps

  -- what `VerifyProof` hashes
  unfoldable pub verify_texts : Bytes → List ProofStep → List Bytes
  verify_texts leaf steps = (0 ∷ leaf) ∷ fold_texts (hash_leaf sha leaf) steps

prefix_eq :
    (xs ys us vs : Bytes) → length xs ≡ length us → xs ++ ys ≡ us ++ vs → (xs ≡ us) × (ys ≡ vs)
prefix_eq [] ys [] vs l e = (refl, e)
prefix_eq [] ys (u ∷ us) vs l e = absurd (omega arith)
prefix_eq (x ∷ xs) ys [] vs l e = absurd (omega arith)
prefix_eq (x ∷ xs) ys (u ∷ us) vs l e =
    let head : x ≡ u = ground arith in
    let rest : xs ++ ys ≡ us ++ vs = ground arith in
    let (p, q) = prefix_eq xs ys us vs (omega arith) rest in (cc (head, p), q)

suffix_eq :
    (xs ys us vs : Bytes) → length ys ≡ length vs → xs ++ ys ≡ us ++ vs → (xs ≡ us) × (ys ≡ vs)
suffix_eq xs ys us vs l e =
    prefix_eq xs ys us vs (omega (arith, length-append xs ys, length-append us vs, ap length e)) e

abbrev pub sides : List ProofStep → List Bool
sides [] = []
sides (p ∷ ps) = p.left ∷ sides ps

module _ (sha : Sha256) where
  -- equal digests of two texts: the texts are equal, or they collide
  sum_binding : (x y : Bytes) → sha.sum x ≡ sha.sum y → (x ≡ y) ⊎ Collision sha (x ∷ []) (y ∷ [])
  sum_binding x y e = elim (Bool-cases (bytes_equal x y)) [
    | inl same ↦ inl (bytes_equal→eq x y same)
    | inr differ ↦ inr (x, y, (Memᴰ.head refl, (Memᴰ.head refl, ((λ p. differs x y differ p), e))))
  ]
    where
      differs : (a b : Bytes) → bytes_equal a b ≡ false → a ≡ b → ⊥
      differs a b d p = cc (d, ap (bytes_equal a) p, bytes_equal_refl a)

  pub leaf_binding :
      (a b : Bytes)
      → hash_leaf sha a ≡ hash_leaf sha b
      → (a ≡ b) ⊎ Collision sha ((0 ∷ a) ∷ []) ((0 ∷ b) ∷ [])
  unfolding hash_leaf
  leaf_binding a b e = elim (sum_binding (0 ∷ a) (0 ∷ b) e) [
    | inl p ↦ inl (ground arith)
    | inr c ↦ inr c
  ]

  -- The digest of a leaf is never that of an inner node, without a collision.
  pub leaf_node_separation :
      (leaf l r : Bytes)
      → hash_leaf sha leaf ≡ hash_node sha l r
      → Collision sha ((0 ∷ leaf) ∷ []) (((1 ∷ l) ++ r) ∷ [])
  unfolding hash_leaf hash_node
  leaf_node_separation leaf l r e =
      (0 ∷ leaf, (1 ∷ l) ++ r, (Memᴰ.head refl, (Memᴰ.head refl, ((λ p. ground arith), e))))

  pub node_binding_left :
      (l r l' r' : Bytes)
      → length l ≡ length l'
      → hash_node sha l r ≡ hash_node sha l' r'
      → ((l ≡ l') × (r ≡ r')) ⊎ Collision sha (((1 ∷ l) ++ r) ∷ []) (((1 ∷ l') ++ r') ∷ [])
  unfolding hash_node
  node_binding_left l r l' r' h e = elim (sum_binding ((1 ∷ l) ++ r) ((1 ∷ l') ++ r') e) [
    | inl p ↦ inl (prefix_eq l r l' r' h (ground arith))
    | inr c ↦ inr c
  ]

  node_binding_right :
      (l r l' r' : Bytes)
      → length r ≡ length r'
      → hash_node sha l r ≡ hash_node sha l' r'
      → ((l ≡ l') × (r ≡ r')) ⊎ Collision sha (((1 ∷ l) ++ r) ∷ []) (((1 ∷ l') ++ r') ∷ [])
  unfolding hash_node
  node_binding_right l r l' r' h e = elim (sum_binding ((1 ∷ l) ++ r) ((1 ∷ l') ++ r') e) [
    | inl p ↦ inl (suffix_eq l r l' r' h (ground arith))
    | inr c ↦ inr c
  ]

  fold_step_binding :
      (x y : Bytes) (p q : ProofStep)
      → length x ≡ 32
      → length y ≡ 32
      → p.left ≡ q.left
      → fold_step sha x p ≡ fold_step sha y q
      → (x ≡ y) ⊎ Collision sha (step_text sha x p ∷ []) (step_text sha y q ∷ [])
  unfolding fold_step step_text
  fold_step_binding x y p q hx hy side e = elim (Bool-cases p.left) [
    | inl left ↦
        let same : q.left ≡ true = sym side ∙ left in
        elim (node_binding_right p.sibling x q.sibling y (hx ∙ sym hy) (ground (arith, left))) [
          | inl s ↦ inl s.1
          | inr c ↦ inr (rw (left, same) c)
        ]
    | inr right ↦
        let same : q.left ≡ false = sym side ∙ right in
        elim (node_binding_left x p.sibling y q.sibling (hx ∙ sym hy) (ground (arith, right))) [
          | inl s ↦ inl s.0
          | inr c ↦ inr (rw (right, same) c)
        ]
  ]

  fold_binding :
      (x y : Bytes) (ps qs : List ProofStep)
      → length x ≡ 32
      → length y ≡ 32
      → sides ps ≡ sides qs
      → fold_proof sha x ps ≡ fold_proof sha y qs
      → (x ≡ y) ⊎ Collision sha (fold_texts sha x ps) (fold_texts sha y qs)
  unfolding fold_proof fold_texts
  fold_binding x y [] [] hx hy s e = inl e
  fold_binding x y [] (q ∷ qs) hx hy s e = absurd (ground arith)
  fold_binding x y (p ∷ ps) [] hx hy s e = absurd (ground arith)
  fold_binding x y (p ∷ ps) (q ∷ qs) hx hy s e =
      let sx = length-fold_step sha x p in
      let sy = length-fold_step sha y q in
      let tails : sides ps ≡ sides qs = ground arith in
      let heads : p.left ≡ q.left = ground arith in
      let xs = fold_texts sha (fold_step sha x p) ps in
      let ys = fold_texts sha (fold_step sha y q) qs in
      elim (fold_binding (fold_step sha x p) (fold_step sha y q) ps qs sx sy tails e) [
        | inr c ↦ inr (Collision-tails sha (step_text sha x p) (step_text sha y q) xs ys c)
        | inl same ↦ elim (fold_step_binding x y p q hx hy heads same) [
          | inl e ↦ inl e
          | inr c ↦ inr (Collision-heads sha (step_text sha x p) (step_text sha y q) xs ys c)
        ]
      ]

  pub fold_of_verify :
      (leaf root : Bytes) (ps : List ProofStep)
      → verify_proof sha leaf ps root ≡ true
      → fold_proof sha (hash_leaf sha leaf) ps ≡ root
  unfolding verify_proof
  fold_of_verify leaf root ps h =
      bytes_equal→eq (fold_proof sha (hash_leaf sha leaf) ps) root (ground arith)

  -- Two leaves that verify at one position (the same left and right turns) against one root are the
  -- same leaf, or a text hashed for the one and a text hashed for the other differ and have one digest.
  pub verify_binding :
      (leaf leaf' root : Bytes) (ps qs : List ProofStep)
      → sides ps ≡ sides qs
      → verify_proof sha leaf ps root ≡ true
      → verify_proof sha leaf' qs root ≡ true
      → (leaf ≡ leaf') ⊎ Collision sha (verify_texts sha leaf ps) (verify_texts sha leaf' qs)
  unfolding verify_texts
  verify_binding leaf leaf' root ps qs s v w =
      let xs = fold_texts sha (hash_leaf sha leaf) ps in
      let ys = fold_texts sha (hash_leaf sha leaf') qs in
      elim (fold_binding (hash_leaf sha leaf) (hash_leaf sha leaf') ps qs
        (length-hash_leaf sha leaf) (length-hash_leaf sha leaf') s
        (fold_of_verify leaf root ps v ∙ sym (fold_of_verify leaf' root qs w))) [
          | inr c ↦ inr (Collision-tails sha (0 ∷ leaf) (0 ∷ leaf') xs ys c)
          | inl same ↦ elim (leaf_binding leaf leaf' same) [
            | inl e ↦ inl e
            | inr c ↦ inr (Collision-heads sha (0 ∷ leaf) (0 ∷ leaf') xs ys c)
          ]
        ]

  pub bounded_verify :
      (leaf root : Bytes) (ps : List ProofStep) (n : ℕ)
      → verify_proof_bounded sha leaf ps root n ≡ true
      → verify_proof sha leaf ps root ≡ true
  unfolding verify_proof_bounded
  bounded_verify leaf root ps n h = ground arith

  -- A leaf that verifies at the position of index `i` of a batch is entry `i` of that batch, or a text
  -- hashed for the leaf and a text hashed for the entry differ and have one digest.
  pub entry_binding :
      (leaves : List Bytes) (i : ℕ) (leaf : Bytes) (ps qs : List ProofStep)
      → i < length leaves
      → proof (new_merkle_tree sha leaves) i ≡ ProofResult.ok ps
      → sides qs ≡ sides ps
      → verify_proof sha leaf qs (new_merkle_tree sha leaves).root ≡ true
      → (entry : Bytes) × ((get_elem? leaves i ≡ some entry)
          × ((entry ≡ leaf) ⊎ Collision sha (verify_texts sha entry ps) (verify_texts sha leaf qs)))
  entry_binding leaves i leaf ps qs h found s v =
      let own = proof_completeness sha leaves i h in
      let root = (new_merkle_tree sha leaves).root in
      let same_path : own.steps ≡ ps = ground (arith, own.found) in
      let verifies =
        bounded_verify own.leaf root own.steps (ceil_log2 (length leaves)) own.verifies in
      (
        own.leaf,
        (
          own.at_index,
          verify_binding own.leaf leaf root ps qs (sym s) (rw same_path at verifies) v,
        ),
      )
