-- ===== src/Examples/Ledger.antt =====
-- The theorems on merkle.go and nonce_cache.go at concrete batches, chains and caches.
use aic_verifier.Prelude.{
  ◌≡◌, refl, true, false, none, some, List, [], ◌∷◌, ◌⊎◌, ◌↔◌, arith, length, get_elem?,
}
use aic_verifier.Merkle.{
  Bytes, ProofStep, sibling_step, path, proof, top_hash, hash_leaf, hash_node, next_level,
  upper_levels, tree_of, new_merkle_tree, fold_step, fold_proof, verify_proof, verify_proof_bounded,
}
use aic_verifier.Merkle.Completeness.{Proven, proof_completeness}
use aic_verifier.Merkle.Binding.{Collision, verify_texts}
use aic_verifier.Merkle.Root.{batch_texts, root_binding}
use aic_verifier.Hex.{hex_digit, hex_encode, from_hex_digit, hex_decode}
use aic_verifier.Merkle.Height.{ceil_log2}
use aic_verifier.Chain.{
  root_hex, pos, AuditChain, SealedTree, new_audit_chain, link_error, verify_continuity,
  seal_checked, sealed_tree, get_tree, verify, verify_batch,
}
use aic_verifier.Chain.Continuity.{Linked, verify_continuity_iff}
use aic_verifier.Chain.Sealing.{Numbered, SealRequest, seal_all, seal_all_continuous}
use aic_verifier.Chain.Audit.{Audited, sealed_entries_verify, verify_sound}
use aic_verifier.Examples.Setup.{toy_sha}

-- three entries, so that the last is passed up a level
abbrev batch : List Bytes
batch = (1 ∷ []) ∷ (2 ∷ []) ∷ (3 ∷ []) ∷ []

abbrev no_root : Bytes
no_root = []

abbrev second : Bytes
second = 2 ∷ []

abbrev batch_path : List ProofStep
batch_path =
    record { sibling = hash_leaf toy_sha (1 ∷ []); left = true }
    ∷ record { sibling = hash_leaf toy_sha (3 ∷ []); left = false }
    ∷ []

proof_completeness_example : Proven toy_sha batch 2
proof_completeness_example = proof_completeness toy_sha batch 2 (omega arith)

root_binding_example :
    (batch ≡ batch) ⊎ Collision toy_sha (batch_texts toy_sha batch) (batch_texts toy_sha batch)
root_binding_example = root_binding toy_sha batch batch refl refl

abbrev fresh_chain : AuditChain
fresh_chain = new_audit_chain (pos 0) false

abbrev first_tree : SealedTree
first_tree = sealed_tree toy_sha fresh_chain 5 batch []

-- the second batch does not name the root of the first
abbrev broken : AuditChain
broken = record fresh_chain { trees = first_tree ∷ first_tree ∷ [] }

abbrev one_batch : AuditChain
one_batch = record fresh_chain { trees = first_tree ∷ [] }

verify_continuity_iff_example : (verify_continuity one_batch ≡ none) ↔ Linked one_batch.trees
verify_continuity_iff_example = verify_continuity_iff one_batch

abbrev requests : List SealRequest
requests =
    record { now = 5; entries = batch; previous_root = [] }
    ∷ record { now = 6; entries = batch; previous_root = [] }
    ∷ []

seal_all_continuous_example :
    (verify_continuity (seal_all toy_sha (new_audit_chain (pos 0) false) requests) ≡ none)
    × Numbered 0 (seal_all toy_sha (new_audit_chain (pos 0) false) requests).trees
seal_all_continuous_example = seal_all_continuous toy_sha (pos 0) false requests

sealed_entries_verify_example :
    Audited toy_sha
      (seal_all toy_sha (seal_checked toy_sha fresh_chain 5 batch []).0 requests)
      (length fresh_chain.trees)
      batch
      2
unfolding link_error new_audit_chain
sealed_entries_verify_example =
    sealed_entries_verify toy_sha fresh_chain 5 batch [] requests 2 refl (omega arith)

verify_sound_example :
    (entry : Bytes) × ((get_elem? batch 1 ≡ some entry)
      × ((entry ≡ second)
          ⊎ Collision toy_sha
              (verify_texts toy_sha entry batch_path)
              (verify_texts toy_sha second batch_path)))
unfolding get_tree verify verify_batch verify_proof_bounded verify_proof fold_proof fold_step
    hash_node hash_leaf new_merkle_tree tree_of upper_levels top_hash next_level proof path
    sibling_step hex_decode root_hex hex_encode from_hex_digit hex_digit ceil_log2
verify_sound_example =
    verify_sound toy_sha one_batch fresh_chain 0 5 1 batch [] second batch_path batch_path refl
      (omega arith) refl refl refl
