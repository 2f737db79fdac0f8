-- ===== src/Chain.antt =====
-- merkle.go: `AuditChain`, the sequence of sealed batches. The mutex makes each method one step. The
-- clock's second and the outcome of `onSeal` are explicit.
pub mod Continuity
pub mod Sealing
pub mod Audit
use aic_verifier.Prelude.{
  ℕ, zero, suc, ◌+◌, ◌≡◌, Bool, true, false, Option, none, some, List, [], ◌∷◌, ◌++◌, length,
  get_elem?, ltb, bytes_equal, if◌then◌else◌,
}
use aic_verifier.Merkle.{
  Bytes, Sha256, ProofStep, MerkleTree, new_merkle_tree, verify_proof_bounded, ◌>>=◌,
}
use aic_verifier.Merkle.Height.{ceil_log2}
use aic_verifier.Hex.{hex_encode, hex_decode}

-- a Go `int`; `negsuc n` is -(n + 1)
pub data ℤ : Type 0 where
  pos : ℕ → ℤ
  negsuc : ℕ → ℤ

pub record SealedTree : Type 0 where
  pub batch_number : ℕ
  pub timestamp : ℕ
  pub previous : Bytes
  pub root : Bytes
  pub size : ℕ

pub record AuditChain : Type 0 where
  pub trees : List SealedTree
  pub batch_size : ℕ
  -- whether a callback is set, and the roots that it was called with
  pub has_on_seal : Bool
  pub notified : List Bytes

pub data SealError : Type 0 where
  missing_previous : ℕ → SealError
  continuity_broken : Bytes → Bytes → SealError

pub data VerifyError : Type 0 where
  batch_not_found invalid_root : VerifyError

pub data Result {ℓ κ} (E : Type ℓ) (A : Type κ) : Type (ℓ ⊔ κ) where
  ok : A → Result E A
  err : E → Result E A

abbrev positive_or : ℤ → ℕ → ℕ
positive_or (pos zero) d = d
positive_or (pos (suc n)) d = suc n
positive_or (negsuc n) d = d

unfoldable pub new_audit_chain : ℤ → Bool → AuditChain
new_audit_chain batch_size on_seal = record {
  trees = [];
  batch_size = positive_or batch_size 1000;
  has_on_seal = on_seal;
  notified = [];
}

-- `c.trees[len(c.trees)-1]`
abbrev pub last? {ℓ} : {A : Type ℓ} → List A → Option A
last? [] = none
last? (x ∷ []) = some x
last? (x ∷ y ∷ rest) = last? (y ∷ rest)

unfoldable pub root_hex : MerkleTree → Bytes
root_hex m = hex_encode m.root

abbrev pub is_empty : Bytes → Bool
is_empty [] = true
is_empty (_ ∷ _) = false

-- the links that `SealChecked` refuses
unfoldable pub link_error : List SealedTree → Bytes → Option SealError
link_error trees previous_root = elim (last? trees) [
  | none ↦ none
  | some latest ↦
      if is_empty previous_root
      then some (missing_previous (length trees))
      else if bytes_equal previous_root latest.root
      then none
      else some (continuity_broken previous_root latest.root)
]

-- the loop of `VerifyContinuity` from batch i; the index of the first break, if there is one
unfoldable pub check_links : ℕ → SealedTree → List SealedTree → Option ℕ
check_links i before [] = none
check_links i before (st ∷ rest) =
    let later = check_links (i + 1) st rest in
    if bytes_equal st.previous before.root then later else some i

unfoldable pub verify_continuity : AuditChain → Option ℕ
unfolding check_links
verify_continuity c = elim c.trees [ [] ↦ none | st ∷ rest ↦ check_links 1 st rest ]

unfoldable pub latest_root : AuditChain → Bytes
latest_root c = elim (last? c.trees) [ none ↦ [] | some st ↦ st.root ]

unfoldable pub latest_root_bytes : AuditChain → Option Bytes
latest_root_bytes c = last? c.trees >>= λ st. hex_decode st.root

unfoldable pub batch_count : AuditChain → ℕ
batch_count c = length c.trees

unfoldable pub get_tree : AuditChain → ℤ → Option SealedTree
get_tree c (pos n) = get_elem? c.trees n
get_tree c (negsuc n) = none

pub record ProofStepJson : Type 0 where
  pub sibling : Bytes
  pub left : Bool

pub record VerifyRequest : Type 0 where
  pub batch : ℤ
  pub leaf : Bytes
  pub steps : List ProofStepJson

pub data VerifyResponse : Type 0 where
  valid : Bool → VerifyResponse
  invalid_leaf invalid_sibling : VerifyResponse
  failed : VerifyError → VerifyResponse

unfoldable pub decode_steps : List ProofStepJson → Option (List ProofStep)
decode_steps [] = some []
decode_steps (p ∷ ps) = do
  sibling ← hex_decode p.sibling
  rest ← decode_steps ps
  some (record { sibling = sibling; left = p.left } ∷ rest)

abbrev pub max_proof : ℕ → ℕ
max_proof size = if ltb 1 size then ceil_log2 size else 0

abbrev pub response : Result VerifyError Bool → VerifyResponse
response (ok b) = valid b
response (err e) = failed e

module _ (sha : Sha256) where
  abbrev pub sealed_tree : AuditChain → ℕ → List Bytes → Bytes → SealedTree
  sealed_tree c now entries previous_root = record {
    batch_number = length c.trees;
    timestamp = now;
    previous = previous_root;
    root = root_hex (new_merkle_tree sha entries);
    size = length entries;
  }

  unfoldable pub seal : AuditChain → ℕ → List Bytes → Bytes → AuditChain × SealedTree
  seal c now entries previous_root =
      let st = sealed_tree c now entries previous_root in
      (
        record c {
          trees = c.trees ++ st ∷ [];
          notified =
              if c.has_on_seal
              then c.notified ++ (new_merkle_tree sha entries).root ∷ []
              else c.notified;
        },
        st,
      )

  unfoldable pub seal_checked :
      AuditChain → ℕ → List Bytes → Bytes → AuditChain × Result SealError SealedTree
  seal_checked c now entries previous_root = elim (link_error c.trees previous_root) [
    | some e ↦ (c, err e)
    | none ↦
        let st = sealed_tree c now entries previous_root in
        (
          record c {
            trees = c.trees ++ st ∷ [];
            notified =
                if c.has_on_seal
                then c.notified ++ (new_merkle_tree sha entries).root ∷ []
                else c.notified;
          },
          ok st,
        )
  ]

  unfoldable pub verify_batch : SealedTree → Bytes → List ProofStep → Result VerifyError Bool
  verify_batch st leaf steps = elim (hex_decode st.root) [
    | none ↦ err invalid_root
    | some root ↦ ok (verify_proof_bounded sha leaf steps root (max_proof st.size))
  ]

  unfoldable pub verify : AuditChain → ℤ → Bytes → List ProofStep → Result VerifyError Bool
  unfolding verify_batch get_tree
  verify c batch leaf steps = elim (get_tree c batch) [
    | none ↦ err batch_not_found
    | some st ↦ verify_batch st leaf steps
  ]

  unfoldable pub verify_json : AuditChain → VerifyRequest → VerifyResponse
  verify_json c req = elim (hex_decode req.leaf) [
    | none ↦ invalid_leaf
    | some leaf ↦ elim (decode_steps req.steps) [
      | none ↦ invalid_sibling
      | some steps ↦ response (verify c req.batch leaf steps)
    ]
  ]
