-- ===== src/DelegationChain/Attested.antt =====
-- `VerifyDelegationChainWithCaps` of delegation_chain.go: signatures and capabilities together.
use aic_verifier.Prelude.{
  ℕ, ◌≤◌, ◌≡◌, ◌==◌, some, Option-cases, inl, inr, List, length, arith, if◌then◌else◌,
}
use aic_verifier.Model.{Cert, Capability, Pki}
use aic_verifier.DelegationAuth.{Crypto}
use aic_verifier.DelegationChain.{
  ChainVerifier, ok, default_max_chain_length, verify_chain, effective_delegation_capabilities,
  verify_delegation_chain_with_caps,
}
use aic_verifier.DelegationChain.Attenuation.{Attenuates, effective_iff}
use aic_verifier.DelegationChain.Signed.{SignedChain, verify_chain_sound}

module _ (p : Pki) (k : Crypto) where
  -- When a chain is accepted with its capabilities, each certificate's delegation is signed by the one
  -- above it, the first by the principal; the chain is within the depth and, if set, the length limit; and
  -- each level's capabilities are covered by the level above, the first by the principal's, with those of
  -- the last level as the outcome.
  pub verify_with_caps_sound :
      (chain : List Cert) (top : Cert) (caps out : List Capability) (max_depth max_chain_len : ℕ)
      → verify_delegation_chain_with_caps p k chain (some top) caps max_depth max_chain_len ≡ ok out
      → SignedChain p k top chain
        × (length chain ≤ max_depth)
        × (length chain ≤ (if max_chain_len == 0 then default_max_chain_length else max_chain_len))
        × Attenuates p caps chain out
  unfolding verify_delegation_chain_with_caps
  verify_with_caps_sound chain top caps out max_depth max_chain_len h =
      let limit = if max_chain_len == 0 then default_max_chain_length else max_chain_len in
      let v : ChainVerifier = record { max_depth = max_depth; max_chain_length = limit } in
      elim (Option-cases (verify_chain p k v chain (some top))) [
        | inr (e, failed) ↦
            absurd (ground (arith, rw (failed, verify_delegation_chain_with_caps) at h))
        | inl verified ↦
            let effective : effective_delegation_capabilities p chain caps limit ≡ ok out =
              rw (verified, verify_delegation_chain_with_caps) at h in
            let (depth, within, serials, signed) = verify_chain_sound p k v chain top verified in
            let (structure, attenuates) = (effective_iff p chain caps out limit).0 effective in
            (signed, depth, ground (arith, within), attenuates)
      ]
