-- ===== src/Merkle.antt =====
-- merkle.go: the Merkle tree of an audit batch, its audit paths and their verification.
pub mod Height
pub mod Completeness
pub mod Binding
pub mod Root
use aic_verifier.Prelude.{
  ℕ, zero, suc, ◌+◌, ◌-◌, ◌/◌, ◌%◌, ◌≡◌, Bool, true, false, ◌&&◌, Option, none, some, List, [], ◌∷◌,
  ◌++◌, map, length, get_elem?, ltb, leb, ◌==◌, bytes_equal, if◌then◌else◌,
}

abbrev pub Bytes : Type 0
Bytes = List ℕ

-- `crypto/sha256`, of which the code uses that a digest has 32 bytes.
pub record Sha256 : Type 0 where
  pub sum : Bytes → Bytes
  pub length-sum : (b : Bytes) → length (sum b) ≡ 32
  pub sum_bytes : (b : Bytes) (i x : ℕ) → get_elem? (sum b) i ≡ some x → leb x 255 ≡ true

-- `Left`: the sibling stands on the left
pub record ProofStep : Type 0 where
  pub sibling : Bytes
  pub left : Bool

pub record MerkleTree : Type 0 where
  pub leaves : List Bytes
  pub levels : List (List Bytes)
  pub root : Bytes

pub data ProofResult : Type 0 where
  ok : List ProofStep → ProofResult
  out_of_range : ProofResult
  -- an index of a slice that Go would panic at
  panics : ProofResult

infixl 5 ◌>>=◌
abbrev pub ◌>>=◌ {ℓ κ} : {A : Type ℓ} {B : Type κ} → Option A → (A → Option B) → Option B
none >>= f = none
some a >>= f = f a

-- the audit path step of one level: none where the slice index would panic
unfoldable pub sibling_step : List Bytes → ℕ → Option (List ProofStep)
sibling_step nodes idx =
    if idx % 2 == 0
    then (if ltb (idx + 1) (length nodes)
        then (get_elem? nodes (idx + 1) >>= λ s. some (record { sibling = s; left = false } ∷ []))
        else some [])
    else get_elem? nodes (idx - 1) >>= λ s. some (record { sibling = s; left = true } ∷ [])

-- the loop of `Proof`: `nodes` is the level at hand, `above` are the levels over it
unfoldable pub path : List Bytes → List (List Bytes) → ℕ → Option (List ProofStep)
path nodes [] idx = some []
path nodes (up ∷ above) idx = do
  step ← sibling_step nodes idx
  rest ← path up above (idx / 2)
  some (step ++ rest)

abbrev pub proof_levels : List (List Bytes) → ℕ → Option (List ProofStep)
proof_levels [] idx = some []
proof_levels (nodes ∷ above) idx = path nodes above idx

abbrev pub to_result : Option (List ProofStep) → ProofResult
to_result none = ProofResult.panics
to_result (some p) = ProofResult.ok p

unfoldable pub proof : MerkleTree → ℕ → ProofResult
unfolding path
proof m leaf_index =
    if leb (length m.leaves) leaf_index
    then ProofResult.out_of_range
    else to_result (proof_levels m.levels leaf_index)

-- `current[0]` of the last level
abbrev pub first_hash : List Bytes → Bytes
first_hash [] = []
first_hash (h ∷ hs) = h

unfoldable pub top_hash : List Bytes → List (List Bytes) → Bytes
top_hash nodes [] = first_hash nodes
top_hash nodes (up ∷ above) = top_hash up above

module _ (sha : Sha256) where
  unfoldable pub hash_leaf : Bytes → Bytes
  hash_leaf content = sha.sum (0 ∷ content)

  unfoldable pub hash_node : Bytes → Bytes → Bytes
  hash_node l r = sha.sum ((1 ∷ l) ++ r)

  -- one round of the loop over a level: pairs are hashed, a last odd node is passed up
  unfoldable pub next_level : List Bytes → List Bytes
  next_level [] = []
  next_level (a ∷ []) = a ∷ []
  next_level (a ∷ b ∷ rest) = hash_node a b ∷ next_level rest

  -- `for len(current) > 1`, on fuel: the levels over `current`
  unfoldable pub upper_levels : ℕ → List Bytes → List (List Bytes)
  upper_levels zero current = []
  upper_levels (suc fuel) current =
      let next = next_level current in
      let rest = next ∷ upper_levels fuel next in if ltb 1 (length current) then rest else []

  unfoldable pub tree_of : List Bytes → List Bytes → MerkleTree
  unfolding upper_levels top_hash
  tree_of leaves current =
      let above = upper_levels (length current) current in
      record { leaves = leaves; levels = current ∷ above; root = top_hash current above }

  unfoldable pub new_merkle_tree : List Bytes → MerkleTree
  unfolding tree_of
  new_merkle_tree [] = record { leaves = []; levels = []; root = [] }
  new_merkle_tree (leaf ∷ leaves) = tree_of (leaf ∷ leaves) (map hash_leaf (leaf ∷ leaves))

  unfoldable pub fold_step : Bytes → ProofStep → Bytes
  fold_step hash step =
      if step.left then hash_node step.sibling hash else hash_node hash step.sibling

  -- the loop of `VerifyProof`
  unfoldable pub fold_proof : Bytes → List ProofStep → Bytes
  fold_proof hash [] = hash
  fold_proof hash (step ∷ steps) = fold_proof (fold_step hash step) steps

  unfoldable pub verify_proof : Bytes → List ProofStep → Bytes → Bool
  verify_proof leaf steps root =
      let hash = fold_proof (hash_leaf leaf) steps in
      ltb 0 (length hash) && (ltb 0 (length root) && bytes_equal hash root)

  -- a negative bound, which no caller passes, switches the check of the length off
  unfoldable pub verify_proof_bounded : Bytes → List ProofStep → Bytes → ℕ → Bool
  unfolding verify_proof
  verify_proof_bounded leaf steps root max_proof_len =
      if ltb max_proof_len (length steps) then false else verify_proof leaf steps root
