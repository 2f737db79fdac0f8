-- ===== src/DelegationChain/Signed.antt =====
-- What `DelegationChainVerifier.Verify` accepts.
use aic_verifier.Prelude.{
  ℕ, zero, suc, ◌+◌, ◌≤◌, ◌<◌, ◌≡◌, ◌≢◌, inl, inr, ap, true, false, none, some, List, [], ◌∷◌, any,
  length, get_elem?, ltb, ◌==◌, arith, Bool-cases, Option-cases,
}
use aic_verifier.Model.{Cert, Aic, Pki, value}
use aic_verifier.DelegationAuth.{Crypto, verify_delegation_auth_with_agent}
use aic_verifier.DelegationChain.{
  ChainVerifier, check_serials, verify_chain_structure, chain_limit, verify_level, verify_levels,
  verify_chain,
}
use aic_verifier.DelegationChain.Attenuation.{level_aic-ok}

seen_free :
    (i : ℕ) (seen : List ℕ) (certs : List Cert) (j : ℕ) (b : Cert)
    → check_serials i seen certs ≡ none
    → get_elem? certs j ≡ some b
    → any (λ s. s == b.serial_number) seen ≡ false
unfolding check_serials
seen_free i seen [] j b h g = absurd (ground arith)
seen_free i seen (c ∷ rest) zero b h g =
    let same : c ≡ b = ground arith in
    let serial : c.serial_number ≡ b.serial_number = ap (λ (x : Cert). x.serial_number) same in
    rw (← serial) (ground arith)
seen_free i seen (c ∷ rest) (suc j) b h g =
    let later = seen_free (i + 1) (c.serial_number ∷ seen) rest j b (ground arith) g in ground arith

distinct_serials :
    (i : ℕ) (seen : List ℕ) (certs : List Cert) (j k : ℕ) (a b : Cert)
    → check_serials i seen certs ≡ none
    → j < k
    → get_elem? certs j ≡ some a
    → get_elem? certs k ≡ some b
    → a.serial_number ≢ b.serial_number
unfolding check_serials
distinct_serials i seen [] j k a b h l g g' e = absurd (ground arith)
distinct_serials i seen (c ∷ rest) j zero a b h l g g' e = absurd (omega arith)
distinct_serials i seen (c ∷ rest) zero (suc k) a b h l g g' e =
    let same : c.serial_number ≡ a.serial_number =
      ap (λ (x : Cert). x.serial_number) (some_eq c a g) in
    let free = seen_free (i + 1) (c.serial_number ∷ seen) rest k b (ground arith) g' in
    ground (arith, same, e)
  where
    some_eq : (x y : Cert) → some x ≡ some y → x ≡ y
    some_eq x y q = ground arith
distinct_serials i seen (c ∷ rest) (suc j) (suc k) a b h l g g' e =
    distinct_serials (i + 1) (c.serial_number ∷ seen) rest j k a b (ground arith) (omega arith) g g'
      e

module _ (p : Pki) (k : Crypto) where
  -- Each certificate carries an AIC whose delegation is signed by the certificate above it.
  abbrev pub SignedChain : Cert → List Cert → Type 0
  SignedChain signer [] = Unit
  SignedChain signer (cert ∷ rest) =
      ((aic : Aic) × (p.parse_aic cert ≡ value (some aic))
        × (p.is_present aic.delegation_authorization ≡ true)
        × (verify_delegation_auth_with_agent p k (some aic) (some signer) (some cert) ≡ none))
      × SignedChain cert rest

  verify_level-none :
      (i : ℕ) (signer cert : Cert)
      → verify_level p k i signer cert ≡ none
      → (aic : Aic) × (p.parse_aic cert ≡ value (some aic))
        × (p.is_present aic.delegation_authorization ≡ true)
        × (verify_delegation_auth_with_agent p k (some aic) (some signer) (some cert) ≡ none)
  unfolding verify_level
  verify_level-none i signer cert h = elim (level_aic-ok p i cert) [
    | inr (e, failed) ↦ absurd (ground (arith, failed))
    | inl (aic, parsed, found) ↦ elim (Bool-cases (p.is_present aic.delegation_authorization)) [
      | inr missing ↦ absurd (ground (arith, found, missing))
      | inl present ↦
          elim (Option-cases
            (verify_delegation_auth_with_agent p k (some aic) (some signer) (some cert))) [
              | inl signed ↦ (aic, parsed, present, signed)
              | inr (e, bad) ↦ absurd (ground (arith, found, present, bad))
            ]
    ]
  ]

  verify_levels-none :
      (i : ℕ) (signer : Cert) (chain : List Cert)
      → verify_levels p k i signer chain ≡ none
      → SignedChain signer chain
  unfolding verify_levels
  verify_levels-none i signer [] h = tt
  verify_levels-none i signer (cert ∷ rest) h =
      elim (Option-cases (verify_levels p k (i + 1) cert rest)) [
        | inr (e, bad) ↦ absurd (ground (arith, bad))
        | inl below ↦ (
          verify_level-none i signer cert (ground (arith, below)),
          verify_levels-none (i + 1) cert rest below,
        )
      ]

  verify_chain_structure-none :
      (chain : List Cert) (limit : ℕ)
      → verify_chain_structure chain limit ≡ none
      → 0 < limit
      → (length chain ≤ limit) × (check_serials 0 [] chain ≡ none)
  unfolding verify_chain_structure
  verify_chain_structure-none [] limit h l = absurd (ground arith)
  verify_chain_structure-none (c ∷ rest) limit h l = ground arith

  -- A verified chain is within the depth that the principal sets and within the anti-bomb limit, which
  -- a limit of 0 does not switch off; no serial number occurs twice; and each certificate's delegation
  -- is signed by the one above it, the first by the principal.
  pub verify_chain_sound :
      (v : ChainVerifier) (chain : List Cert) (top : Cert)
      → verify_chain p k v chain (some top) ≡ none
      → (length chain ≤ v.max_depth)
        × (length chain ≤ chain_limit v)
        × ((i j : ℕ) (a b : Cert)
            → i < j
            → get_elem? chain i ≡ some a
            → get_elem? chain j ≡ some b
            → a.serial_number ≢ b.serial_number)
        × SignedChain top chain
  unfolding verify_chain
  verify_chain_sound v [] top h = absurd (ground arith)
  verify_chain_sound v (c ∷ rest) top h =
      let depth : length (c ∷ rest) ≤ v.max_depth = ground arith in
      let not_deep : ltb v.max_depth (length (c ∷ rest)) ≡ false = ground arith in
      elim (Option-cases (verify_chain_structure (c ∷ rest) (chain_limit v))) [
        | inr (e, bad) ↦ absurd (ground (arith, not_deep, bad))
        | inl good ↦
            let shape =
              verify_chain_structure-none (c ∷ rest) (chain_limit v) good (limit_positive v) in
            (
              depth,
              shape.0,
              (λ i j a b. distinct_serials 0 [] (c ∷ rest) i j a b shape.1),
              verify_levels-none 0 top (c ∷ rest) (ground (arith, not_deep, good)),
            )
      ]
    where
      limit_positive : (w : ChainVerifier) → 0 < chain_limit w
      limit_positive w = ground arith
