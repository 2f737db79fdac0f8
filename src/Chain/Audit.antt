-- ===== src/Chain/Audit.antt =====
-- merkle.go: `AuditChain.Verify` and `VerifyJSON` on the batches of a chain.
use aic_verifier.Prelude.{
  ℕ, zero, suc, ◌<◌, ◌≡◌, ◌⊎◌, refl, sym, ap, ◌∙◌, true, none, some, List, [], ◌∷◌, ◌++◌, length,
  get_elem?, arith, get_elem?-append, get_elem?-append_last, Option-cases, inl, inr, Bool-cases,
}
use aic_verifier.Merkle.{
  Bytes, Sha256, ProofStep, ProofResult, proof, new_merkle_tree, verify_proof_bounded, hash_leaf,
  hash_node, fold_step, fold_proof,
}
use aic_verifier.Merkle.Height.{ceil_log2}
use aic_verifier.Merkle.Completeness.{proof_completeness}
use aic_verifier.Merkle.Binding.{
  fold_of_verify, bounded_verify, sides, entry_binding, Collision, verify_texts,
}
use aic_verifier.Hex.{hex_encode, hex_decode-hex_encode, AllBytes, AllBytes-of_get_elem?}
use aic_verifier.Chain.Sealing.{SealRequest, seal_all}
use aic_verifier.Chain.{
  ℤ, pos, SealedTree, AuditChain, ok, seal_checked, sealed_tree, get_tree, verify_batch, verify,
  max_proof, root_hex, link_error, ProofStepJson, decode_steps, verify_json, response,
}

max_proof_lem : (n : ℕ) → max_proof n ≡ ceil_log2 n
unfolding ceil_log2
max_proof_lem zero = refl
max_proof_lem (suc zero) = refl
max_proof_lem (suc (suc n)) = ground arith

module _ (sha : Sha256) where
  sum-AllBytes : (b : Bytes) → AllBytes (sha.sum b)
  sum-AllBytes b = AllBytes-of_get_elem? (sha.sum b) (sha.sum_bytes b)

  fold_step-AllBytes : (x : Bytes) (p : ProofStep) → AllBytes (fold_step sha x p)
  unfolding fold_step hash_node
  fold_step-AllBytes x p = elim (Bool-cases p.left) [
    | inl l ↦ rw l (sum-AllBytes ((1 ∷ p.sibling) ++ x))
    | inr r ↦ rw r (sum-AllBytes ((1 ∷ x) ++ p.sibling))
  ]

  fold_proof-AllBytes :
      (x : Bytes) (ps : List ProofStep) → AllBytes x → AllBytes (fold_proof sha x ps)
  unfolding fold_proof
  fold_proof-AllBytes x [] h = h
  fold_proof-AllBytes x (p ∷ ps) h =
      fold_proof-AllBytes (fold_step sha x p) ps (fold_step-AllBytes x p)

  hash_leaf-AllBytes : (leaf : Bytes) → AllBytes (hash_leaf sha leaf)
  unfolding hash_leaf
  hash_leaf-AllBytes leaf = sum-AllBytes (0 ∷ leaf)

  pub root-AllBytes : (leaves : List Bytes) → AllBytes (new_merkle_tree sha leaves).root
  root-AllBytes [] = unfold new_merkle_tree in tt
  root-AllBytes (l ∷ ls) =
      let own = proof_completeness sha (l ∷ ls) 0 (omega arith) in
      let root = (new_merkle_tree sha (l ∷ ls)).root in
      let top =
        fold_of_verify sha own.leaf root own.steps
          (bounded_verify sha own.leaf root own.steps (ceil_log2 (length (l ∷ ls))) own.verifies) in
      rw top at
        (fold_proof-AllBytes (hash_leaf sha own.leaf) own.steps (hash_leaf-AllBytes own.leaf))

  verify_batch_lem :
      (c : AuditChain) (now : ℕ) (entries : List Bytes) (p leaf : Bytes) (steps : List ProofStep)
      → verify_batch sha (sealed_tree sha c now entries p) leaf steps
        ≡ ok (
            verify_proof_bounded sha leaf steps
              (new_merkle_tree sha entries).root
              (ceil_log2 (length entries)))
  unfolding verify_batch root_hex
  verify_batch_lem c now entries p leaf steps =
      rw
        (
          hex_decode-hex_encode (new_merkle_tree sha entries).root (root-AllBytes entries),
          verify_batch,
        )
        (ap (λ n. ok (verify_proof_bounded sha leaf steps (new_merkle_tree sha entries).root n))
          (max_proof_lem (length entries)))

  -- the chain only grows: what is found at an index stays there
  pub seal_checked-get_tree :
      (c : AuditChain) (now : ℕ) (entries : List Bytes) (p : Bytes) (k : ℕ) (st : SealedTree)
      → get_tree c (pos k) ≡ some st
      → get_tree (seal_checked sha c now entries p).0 (pos k) ≡ some st
  unfolding get_tree seal_checked
  seal_checked-get_tree c now entries p k st h = elim (Option-cases (link_error c.trees p)) [
    | inr (e, refused) ↦ rw (refused, seal_checked) h
    | inl accepted ↦
        rw (accepted, seal_checked)
          (get_elem?-append c.trees (sealed_tree sha c now entries p ∷ []) k h)
  ]

  sealed_at :
      (c : AuditChain) (now : ℕ) (entries : List Bytes) (p : Bytes)
      → link_error c.trees p ≡ none
      → get_tree (seal_checked sha c now entries p).0 (pos (length c.trees))
        ≡ some (sealed_tree sha c now entries p)
  unfolding get_tree seal_checked
  sealed_at c now entries p accepted =
      rw (accepted, seal_checked) (get_elem?-append_last c.trees (sealed_tree sha c now entries p))

  verify_at :
      (c : AuditChain) (k : ℕ) (st : SealedTree) (leaf : Bytes) (steps : List ProofStep)
      → get_tree c (pos k) ≡ some st
      → verify sha c (pos k) leaf steps ≡ verify_batch sha st leaf steps
  unfolding verify
  verify_at c k st leaf steps h = ground (arith, h)

  seal_all-get_tree :
      (c : AuditChain) (rs : List SealRequest) (k : ℕ) (st : SealedTree)
      → get_tree c (pos k) ≡ some st
      → get_tree (seal_all sha c rs) (pos k) ≡ some st
  unfolding seal_all
  seal_all-get_tree c [] k st h = h
  seal_all-get_tree c (r ∷ rs) k st h =
      seal_all-get_tree (seal_checked sha c r.now r.entries r.previous_root).0 rs k st
        (seal_checked-get_tree c r.now r.entries r.previous_root k st h)

  -- what an auditor is given for an entry of a batch
  pub record Audited (c : AuditChain) (k : ℕ) (entries : List Bytes) (i : ℕ) : Type 0 where
    pub leaf : Bytes
    pub steps : List ProofStep
    pub at_index : get_elem? entries i ≡ some leaf
    pub found : proof (new_merkle_tree sha entries) i ≡ ProofResult.ok steps
    pub verifies : verify sha c (pos k) leaf steps ≡ ok true

  -- Once `SealChecked` has sealed a batch, every entry of it verifies by the path that `Proof` gives,
  -- under the batch's number, whatever is asked of `SealChecked` later.
  pub sealed_entries_verify :
      (c : AuditChain) (now : ℕ) (entries : List Bytes) (p : Bytes) (later : List SealRequest)
      (i : ℕ)
      → link_error c.trees p ≡ none
      → i < length entries
      → Audited (seal_all sha (seal_checked sha c now entries p).0 later) (length c.trees) entries i
  sealed_entries_verify c now entries p later i accepted h =
      let own = proof_completeness sha entries i h in
      let st = sealed_tree sha c now entries p in
      let sealed = (seal_checked sha c now entries p).0 in
      let there =
        seal_all-get_tree sealed later (length c.trees) st (sealed_at c now entries p accepted) in
      record {
        leaf = own.leaf;
        steps = own.steps;
        at_index = own.at_index;
        found = own.found;
        verifies =
            verify_at (seal_all sha sealed later) (length c.trees) st own.leaf own.steps there
            ∙ verify_batch_lem c now entries p own.leaf own.steps
            ∙ ap ok own.verifies;
      }

  -- What `Verify` accepts for a sealed batch at the position of index i is entry i of that batch, or a
  -- text hashed for the leaf and a text hashed for the entry differ and have one digest.
  pub verify_sound :
      (c c0 : AuditChain) (k now i : ℕ) (entries : List Bytes) (p leaf : Bytes)
      (ps qs : List ProofStep)
      → get_tree c (pos k) ≡ some (sealed_tree sha c0 now entries p)
      → i < length entries
      → proof (new_merkle_tree sha entries) i ≡ ProofResult.ok ps
      → sides qs ≡ sides ps
      → verify sha c (pos k) leaf qs ≡ ok true
      → (entry : Bytes) × ((get_elem? entries i ≡ some entry)
          × ((entry ≡ leaf) ⊎ Collision sha (verify_texts sha entry ps) (verify_texts sha leaf qs)))
  verify_sound c c0 k now i entries p leaf ps qs there h found turns v =
      let n = ceil_log2 (length entries) in
      let root = (new_merkle_tree sha entries).root in
      let same : ok (verify_proof_bounded sha leaf qs root n) ≡ ok true =
        sym (
          verify_at c k (sealed_tree sha c0 now entries p) leaf qs there
          ∙ verify_batch_lem c0 now entries p leaf qs)
        ∙ v in
      let bounded : verify_proof_bounded sha leaf qs root n ≡ true = cc same in
      entry_binding sha entries i leaf ps qs h found turns
        (bounded_verify sha leaf root qs n bounded)

abbrev pub AllSteps : List ProofStep → Type 0
AllSteps [] = Unit
AllSteps (q ∷ qs) = AllBytes q.sibling × AllSteps qs

-- a request as a client writes it
abbrev pub encode_steps : List ProofStep → List ProofStepJson
encode_steps [] = []
encode_steps (q ∷ qs) = record { sibling = hex_encode q.sibling; left = q.left } ∷ encode_steps qs

decode_steps-encode_steps :
    (qs : List ProofStep) → AllSteps qs → decode_steps (encode_steps qs) ≡ some qs
unfolding decode_steps
decode_steps-encode_steps [] h = refl
decode_steps-encode_steps (q ∷ qs) h =
    rw (hex_decode-hex_encode q.sibling h.0, decode_steps-encode_steps qs h.1)

module _ (sha : Sha256) where
  -- `VerifyJSON` of a request in hexadecimal answers as `Verify` of what was encoded.
  pub verify_json-encode :
      (c : AuditChain) (batch : ℤ) (leaf : Bytes) (steps : List ProofStep)
      → AllBytes leaf
      → AllSteps steps
      → verify_json sha c
          (record { batch = batch; leaf = hex_encode leaf; steps = encode_steps steps })
        ≡ response (verify sha c batch leaf steps)
  unfolding verify_json
  verify_json-encode c batch leaf steps hl hs =
      rw (hex_decode-hex_encode leaf hl, verify_json) (rw (decode_steps-encode_steps steps hs))
