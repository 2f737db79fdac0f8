-- ===== src/DelegationAuth/Accepted.antt =====
-- What an accepted DelegationAuthorization has shown.
use aic_verifier.Prelude.{
  ℕ, ◌+◌, ◌-◌, ◌≤◌, ◌<◌, ltb, ◌≡◌, ◌≢◌, ◌⊎◌, ◌↔◌, inl, inr, refl, ap, Option, none, some, true,
  false, [], ◌∷◌, arith, ◌==◌, if◌then◌else◌, Bool-cases, Option-cases, bytes_equal, bytes_equal→eq,
}
use aic_verifier.Merkle.{Bytes}
use aic_verifier.Model.{Cert, Aic, Pki}
use aic_verifier.DelegationAuth.{
  Crypto, DelegationAuthTbs, check_signature, check_key_hash, check_tbs, verify_tbs_at, verify_tbs,
  verify_versions, agent_spki_of, verify_delegation_auth_with_agent, is_empty, check_da_freshness,
  within_age, max_duration, default_da_age_max,
}

module _ (p : Pki) (k : Crypto) (aic : Aic) (user : Cert) where
  -- the text at version v that the signature covers, encoded, and the agent's key with it at version 2
  pub record SignedAt (agent_spki : Bytes) (v : ℕ) : Type 0 where
    pub binding : Option Bytes
    pub der : Bytes
    pub encoded :
        k.marshal_tbs (record { version = v; aic = aic; agent_key_binding = binding }) ≡ some der
    pub signed :
        check_signature p k user.public_key aic.delegation_authorization.signature_algorithm
          (p.sha.sum der)
          aic.delegation_authorization.signature_value
        ≡ none
    pub key : check_key_hash p k aic user ≡ none
    pub bound :
        v ≡ 2 → (b : Bytes) × (k.make_agent_key_binding agent_spki ≡ some b) × (binding ≡ some b)

  check_tbs-none :
      (spki : Bytes) (v : ℕ) (b : Option Bytes)
      → (v ≡ 2 → (x : Bytes) × (k.make_agent_key_binding spki ≡ some x) × (b ≡ some x))
      → check_tbs p k aic user (record { version = v; aic = aic; agent_key_binding = b }) ≡ none
      → SignedAt spki v
  unfolding check_tbs
  check_tbs-none spki v b at h =
      let tbs : DelegationAuthTbs = record { version = v; aic = aic; agent_key_binding = b } in
      elim (Option-cases (k.marshal_tbs tbs)) [
        | inl failed ↦ absurd (ground (arith, failed))
        | inr (der, encoded) ↦
            let parts = split der (ground (arith, encoded)) in
            record {
              binding = b;
              der = der;
              encoded = encoded;
              signed = parts.0;
              key = parts.1;
              bound = at;
            }
      ]
    where
      split :
          (der : Bytes)
          → (elim (check_signature p k user.public_key
              aic.delegation_authorization.signature_algorithm
              (p.sha.sum der)
              aic.delegation_authorization.signature_value) [
                | some e ↦ some e
                | none ↦ check_key_hash p k aic user
              ])
            ≡ none
          → (check_signature p k user.public_key aic.delegation_authorization.signature_algorithm
                (p.sha.sum der)
                aic.delegation_authorization.signature_value
              ≡ none)
            × (check_key_hash p k aic user ≡ none)
      split der e = ground arith

  verify_tbs_at-none :
      (spki : Bytes) (v : ℕ) → verify_tbs_at p k aic user spki v ≡ none → SignedAt spki v
  unfolding verify_tbs_at
  verify_tbs_at-none spki v h = elim (Bool-cases (v == 2)) [
    | inr old ↦
        check_tbs-none spki v none (λ two. absurd (ground (arith, two))) (ground (arith, old))
    | inl two ↦ elim (Option-cases (k.make_agent_key_binding spki)) [
      | inl failed ↦ absurd (ground (arith, two, failed))
      | inr (b, made) ↦
          check_tbs-none spki v (some b) (λ _. (b, made, refl)) (ground (arith, two, made))
    ]
  ]

  verify_tbs-none :
      (spki : Bytes) (v : ℕ)
      → verify_tbs p k aic user spki v ≡ none
      → (v ≡ 2) × SignedAt spki 2 ⊎ (SignedAt spki 1 ⊎ SignedAt spki 0)
  unfolding verify_tbs
  verify_tbs-none spki v h = elim (Bool-cases (v == 2)) [
    | inl two ↦ inl (ground (arith, two), verify_tbs_at-none spki 2 (ground (arith, two)))
    | inr old ↦ elim (Option-cases (verify_tbs_at p k aic user spki 1)) [
      | inl first ↦ inr (inl (verify_tbs_at-none spki 1 first))
      | inr (e, failed) ↦ inr (inr (verify_tbs_at-none spki 0 (ground (arith, old, failed))))
    ]
  ]

  -- the versions at which an AIC of a given version may have been signed
  pub data SignedFor (spki : Bytes) : Type 0 where
    bound_to_agent :
        aic.version ≡ 0 ⊎ aic.version ≡ 2 → spki ≢ [] → SignedAt spki 2 → SignedFor spki
    unbound : aic.version ≡ 0 ⊎ aic.version ≡ 1 → SignedAt spki 1 ⊎ SignedAt spki 0 → SignedFor spki

  verify_tbs_two : (spki : Bytes) → verify_tbs p k aic user spki 2 ≡ none → SignedAt spki 2
  unfolding verify_tbs
  verify_tbs_two spki h = verify_tbs_at-none spki 2 h

  verify_tbs_one :
      (spki : Bytes) → verify_tbs p k aic user spki 1 ≡ none → SignedAt spki 1 ⊎ SignedAt spki 0
  unfolding verify_tbs
  verify_tbs_one spki h = elim (Option-cases (verify_tbs_at p k aic user spki 1)) [
    | inl first ↦ inl (verify_tbs_at-none spki 1 first)
    | inr (e, failed) ↦ inr (verify_tbs_at-none spki 0 (ground (arith, failed)))
  ]

  not_empty : (b : Bytes) → is_empty b ≡ false → b ≢ []
  not_empty b h e = cc (ap is_empty e, h)

  verify_versions-none : (spki : Bytes) → verify_versions p k aic user spki ≡ none → SignedFor spki
  unfolding verify_versions
  verify_versions-none spki h = elim (Bool-cases (aic.version == 0)) [
    | inl zero_version ↦ elim (Bool-cases (is_empty spki)) [
      | inl e ↦
          unbound (inl (ground (arith, zero_version)))
            (verify_tbs_one spki (ground (arith, zero_version, e)))
      | inr e ↦ elim (Option-cases (verify_tbs p k aic user spki 2)) [
        | inl second ↦
            bound_to_agent (inl (ground (arith, zero_version))) (not_empty spki e)
              (verify_tbs_two spki second)
        | inr (x, failed) ↦
            unbound (inl (ground (arith, zero_version)))
              (verify_tbs_one spki (ground (arith, zero_version, e, failed)))
      ]
    ]
    | inr other ↦ elim (Bool-cases (aic.version == 1)) [
      | inl one ↦
          unbound (inr (ground (arith, one))) (verify_tbs_one spki (ground (arith, other, one)))
      | inr not_one ↦ elim (Bool-cases (aic.version == 2)) [
        | inr not_two ↦ absurd (ground (arith, other, not_one, not_two))
        | inl two ↦ elim (Bool-cases (is_empty spki)) [
          | inl e ↦ absurd (ground (arith, other, not_one, two, e))
          | inr e ↦
              bound_to_agent (inr (ground (arith, two))) (not_empty spki e)
                (verify_tbs_two spki (ground (arith, other, not_one, two, e)))
        ]
      ]
    ]
  ]

  signed_key : (spki : Bytes) → SignedFor spki → check_key_hash p k aic user ≡ none
  signed_key spki (bound_to_agent v e s) = s.key
  signed_key spki (unbound v (inl s)) = s.key
  signed_key spki (unbound v (inr s)) = s.key

  check_key_hash-none :
      check_key_hash p k aic user ≡ none
      → aic.principal_uid.key_hash ≢ []
      → p.sha.sum user.raw_spki ≡ aic.principal_uid.key_hash
  unfolding check_key_hash
  check_key_hash-none h filled =
      bytes_equal→eq (p.sha.sum user.raw_spki) aic.principal_uid.key_hash
        (go aic.principal_uid.key_hash refl)
    where
      go :
          (b : Bytes)
          → aic.principal_uid.key_hash ≡ b
          → bytes_equal (p.sha.sum user.raw_spki) aic.principal_uid.key_hash ≡ true
      go [] e = absurd (filled e)
      go (x ∷ b) e = ground (arith, e)

  -- An accepted authorization carries a signature that the user's key verifies over the encoded text,
  -- at version 2 bound to the agent's key, at version 1 or 0 only if the AIC does not ask for version 2;
  -- and the key of the user's certificate has the principal's key hash, if the AIC names one.
  pub verify_with_agent_sound :
      (agent : Option Cert)
      → verify_delegation_auth_with_agent p k (some aic) (some user) agent ≡ none
      → (aic.delegation_authorization.signature_value ≢ [])
        × ((spki : Bytes) × (agent_spki_of p k agent ≡ some spki) × SignedFor spki)
        × (aic.principal_uid.key_hash ≢ [] → p.sha.sum user.raw_spki ≡ aic.principal_uid.key_hash)
  unfolding verify_delegation_auth_with_agent
  verify_with_agent_sound agent h =
      elim (Bool-cases (is_empty aic.delegation_authorization.signature_value)) [
        | inl e ↦ absurd (ground (arith, e))
        | inr e ↦ elim (Option-cases (agent_spki_of p k agent)) [
          | inl failed ↦ absurd (ground (arith, e, failed))
          | inr (spki, found) ↦
              let for_spki = verify_versions-none spki (ground (arith, e, found)) in
              (
                not_empty aic.delegation_authorization.signature_value e,
                (spki, found, for_spki),
                check_key_hash-none (signed_key spki for_spki),
              )
        ]
      ]

-- For a window that is a duration, one minute where none is configured: an authorization passes exactly if
-- its time is set and either differs from now by at most the window or lies 2^63 nanoseconds or more ahead.
pub check_da_freshness_iff :
    (timestamp : Option ℕ) (now max_age : ℕ)
    → max_age < max_duration
    → let window = if max_age == 0 then default_da_age_max else max_age in
      (check_da_freshness timestamp now max_age ≡ true) ↔ (
        (ts : ℕ) × (timestamp ≡ some ts)
        × (((now ≤ ts + window) × (ts ≤ now + window)) ⊎ (now + max_duration < ts)))
unfolding check_da_freshness within_age
check_da_freshness_iff none now max_age fits =
    ((λ h. absurd (ground (arith, h))), (λ (ts, same, h). absurd (ground (arith, same))))
check_da_freshness_iff (some ts) now max_age fits = (
  (λ h. (ts, refl, passes h)),
  (λ (t, same, h). let own : ts ≡ t = ground (arith, same) in ground (arith, own, h, fits)),
)
  where
    passes :
        check_da_freshness (some ts) now max_age ≡ true
        → let window = if max_age == 0 then default_da_age_max else max_age in
          ((now ≤ ts + window) × (ts ≤ now + window)) ⊎ (now + max_duration < ts)
    passes h = elim (Bool-cases (ltb max_duration (ts - now))) [
      | inl ahead ↦ inr (ground (arith, ahead))
      | inr near ↦ inl (ground (arith, near, h, fits))
    ]
