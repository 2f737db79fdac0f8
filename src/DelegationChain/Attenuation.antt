-- ===== src/DelegationChain/Attenuation.antt =====
-- delegation_chain.go: the outcome of `EffectiveDelegationCapabilities`.
use aic_verifier.Prelude.{
  ℕ, ◌+◌, ◌≡◌, ◌≢◌, ◌↔◌, ◌⊎◌, inl, inr, refl, ap, Bool, true, Option, none, some, List, [], ◌∷◌,
  all, filter, arith, Bool-cases, Option-cases,
}
use aic_verifier.Model.{Cert, Capability, Aic, Pki, Fallible, value, error}
use aic_verifier.DelegationChain.{
  Result, ok, err, ◌>>=◌, ChainError, verify_chain_structure, covered_by, capability_subset,
  filter_covered, level_aic, effective_level, effective_loop, effective_delegation_capabilities,
}

filter-all {ℓ} : {A : Type ℓ} (f : A → Bool) (xs : List A) → all f xs ≡ true → filter f xs ≡ xs
filter-all f [] h = refl
filter-all f (x ∷ xs) h = elim (Bool-cases (f x)) [
  | inl passes ↦ rw (passes, filter) (ap (λ r. x ∷ r) (filter-all f xs (ground (arith, passes))))
  | inr fails ↦ absurd (ground (arith, fails))
]

module _ (p : Pki) where
  -- Each level declares something, and only what the level above it covers; `out` is what the last
  -- level declares.
  abbrev pub Attenuates : List Capability → List Cert → List Capability → Type 0
  Attenuates eff [] out = eff ≡ out
  Attenuates eff (cert ∷ rest) out =
      (aic : Aic) × (p.parse_aic cert ≡ value (some aic))
      × (aic.capabilities ≢ [])
      × (all (covered_by p eff) aic.capabilities ≡ true)
      × Attenuates aic.capabilities rest out

  effective_level_lem :
      (i : ℕ) (aic : Aic) (eff : List Capability)
      → all (covered_by p eff) aic.capabilities ≡ true
      → aic.capabilities ≢ []
      → effective_level p i aic eff ≡ ok aic.capabilities
  unfolding effective_level capability_subset filter_covered
  effective_level_lem i aic eff covered filled =
      rw (covered, effective_level)
        (rw (filter-all (covered_by p eff) aic.capabilities covered) (go aic.capabilities filled))
    where
      go :
          (cs : List Capability)
          → cs ≢ []
          → ◌≡◌ {A = Result (List Capability)}
              (elim cs [ [] ↦ err (ChainError.empty_effective i) | c ∷ r ↦ ok (c ∷ r) ])
              (ok cs)
      go [] h = absurd (h refl)
      go (c ∷ cs) h = refl

  effective_level-ok :
      (i : ℕ) (aic : Aic) (eff out : List Capability)
      → effective_level p i aic eff ≡ ok out
      → (all (covered_by p eff) aic.capabilities ≡ true)
        × (aic.capabilities ≢ [])
        × (out ≡ aic.capabilities)
  unfolding effective_level capability_subset filter_covered
  effective_level-ok i aic eff out h = elim (Bool-cases (all (covered_by p eff) aic.capabilities)) [
    | inr fails ↦ absurd (ground (arith, fails))
    | inl covered ↦
        let same = filter-all (covered_by p eff) aic.capabilities covered in
        let r = go aic.capabilities (rw (covered, same) at h) in (covered, r.0, r.1)
  ]
    where
      go :
          (cs : List Capability)
          → (elim cs [ [] ↦ err (ChainError.empty_effective i) | c ∷ r ↦ ok (c ∷ r) ]) ≡ ok out
          → (cs ≢ []) × (out ≡ cs)
      go [] h' = absurd (ground arith)
      go (c ∷ cs) h' = ((λ e. ground arith), ground arith)

  pub level_aic-ok :
      (i : ℕ) (cert : Cert)
      → ((aic : Aic) × (p.parse_aic cert ≡ value (some aic)) × (level_aic p i cert ≡ ok aic))
        ⊎ ((e : ChainError) × (level_aic p i cert ≡ err e))
  level_aic-ok i cert = go (p.parse_aic cert) refl
    where
      go :
          (r : Fallible (Option Aic))
          → p.parse_aic cert ≡ r
          → ((aic : Aic) × (p.parse_aic cert ≡ value (some aic)) × (level_aic p i cert ≡ ok aic))
            ⊎ ((e : ChainError) × (level_aic p i cert ≡ err e))
      go error e = inr (ChainError.parse_failed i, rw (e, level_aic))
      go (value none) e = inr (ChainError.no_aic i, rw (e, level_aic))
      go (value (some aic)) e = inl (aic, e, rw (e, level_aic))

  effective_loop_sound :
      (i : ℕ) (chain : List Cert) (eff out : List Capability)
      → effective_loop p i chain eff ≡ ok out
      → Attenuates eff chain out
  unfolding effective_loop
  effective_loop_sound i [] eff out h = ground arith
  effective_loop_sound i (cert ∷ rest) eff out h = elim (level_aic-ok i cert) [
    | inr (e, failed) ↦ absurd (ground (arith, failed))
    | inl (aic, parsed, found) ↦
        step aic parsed (effective_level p i aic eff) refl (rw found at h)
          (effective_loop_sound (i + 1) rest aic.capabilities out)
  ]
    where
      step :
          (aic : Aic)
          → p.parse_aic cert ≡ value (some aic)
          → (r : Result (List Capability)) → effective_level p i aic eff ≡ r
          → (r >>= λ next. effective_loop p (i + 1) rest next) ≡ ok out
          → (effective_loop p (i + 1) rest aic.capabilities ≡ ok out
              → Attenuates aic.capabilities rest out)
          → Attenuates eff (cert ∷ rest) out
      step aic parsed (err e) found h' ih = absurd (ground arith)
      step aic parsed (ok next) found h' ih =
          let (covered, filled, same) = effective_level-ok i aic eff next found in
          (aic, parsed, filled, covered, ih (rw same at h'))

  effective_loop_complete :
      (i : ℕ) (chain : List Cert) (eff out : List Capability)
      → Attenuates eff chain out
      → effective_loop p i chain eff ≡ ok out
  unfolding effective_loop
  effective_loop_complete i [] eff out h = ap ok h
  effective_loop_complete i (cert ∷ rest) eff out (aic, parsed, filled, covered, below) =
      rw (parsed, ◌>>=◌, effective_loop)
        (rw (effective_level_lem i aic eff covered filled, ◌>>=◌)
          (effective_loop_complete (i + 1) rest aic.capabilities out below))

  -- The computation succeeds with `out` exactly if the chain is well-formed and every level declares a
  -- non-empty set of capabilities that the level above covers; `out` is then exactly what the last
  -- level declares: nothing along the chain is silently dropped or added.
  pub effective_iff :
      (chain : List Cert) (caps out : List Capability) (limit : ℕ)
      → (effective_delegation_capabilities p chain caps limit ≡ ok out)
        ↔ ((verify_chain_structure chain limit ≡ none) × Attenuates caps chain out)
  unfolding effective_delegation_capabilities
  effective_iff chain caps out limit = elim (Option-cases (verify_chain_structure chain limit)) [
    | inr (e, bad) ↦ ((λ h. absurd (ground (arith, bad))), (λ h. absurd (ground (arith, bad, h.0))))
    | inl good ↦ (
      (λ h. (
        good,
        effective_loop_sound 0 chain caps out (rw (good, effective_delegation_capabilities) at h),
      )),
      (λ h.
          rw (good, effective_delegation_capabilities)
            (effective_loop_complete 0 chain caps out h.1)),
    )
  ]
