-- ===== src/Roles/Extraction.antt =====
-- The roles that policy.go extracts from a certificate, and the grants that they give.
use aic_verifier.Prelude.{
  ℕ, suc, ◌+◌, ◌≤◌, ◌≡◌, refl, ap, ◌∙◌, sym, String, Bool, true, false, ◌||◌, some, List, [], ◌∷◌,
  ◌++◌, any, contains, filter, str_eq, eq_iff, Bool-cases, inl, inr, arith, if◌then◌else◌,
}
use aic_verifier.Model.{Cert, Pki}
use aic_verifier.Capability.{match_capability}
use aic_verifier.Roles.{
  AuthorizationPolicy, collect, extract_roles, mapped_roles, extract_policy_roles, has_grant,
  role_grants, grant_set, intersect_grants,
}

any-append {ℓ} :
    {A : Type ℓ} (q : A → Bool) (xs ys : List A) → any q (xs ++ ys) ≡ any q xs || any q ys
any-append q [] ys = refl
any-append q (x ∷ xs) ys = ground (arith, any-append q xs ys)

-- how often a role occurs
abbrev pub occurrences : String → List String → ℕ
occurrences r [] = 0
occurrences r (x ∷ xs) = if str_eq r x then suc (occurrences r xs) else occurrences r xs

occurrences-append :
    (r : String) (xs ys : List String)
    → occurrences r (xs ++ ys) ≡ occurrences r xs + occurrences r ys
occurrences-append r [] ys = omega arith
occurrences-append r (x ∷ xs) ys = ground (arith, occurrences-append r xs ys)

occurrences-absent : (r : String) (xs : List String) → contains xs r ≡ false → occurrences r xs ≡ 0
occurrences-absent r [] h = refl
occurrences-absent r (x ∷ xs) h = ground (arith, occurrences-absent r xs)

collect-contains :
    (r : String) (seen cs : List String)
    → contains (collect seen cs) r ≡ contains seen r || contains cs r
unfolding collect
collect-contains r seen [] = ground arith
collect-contains r seen (c ∷ cs) = elim (Bool-cases (contains seen c)) [
  | inl old ↦
      rw (old, collect)
        (collect-contains r seen cs ∙ (elim (Bool-cases (str_eq r c)) [
          | inl same ↦
              let held : contains seen r ≡ true = ap (contains seen) ((eq_iff r c).0 same) ∙ old in
              ground (arith, held)
          | inr apart ↦ ground (arith, apart)
        ]))
  | inr new ↦
      rw (new, collect)
        (collect-contains r (seen ++ c ∷ []) cs
          ∙ ground (arith, any-append (str_eq r) seen (c ∷ [])))
]

collect-occurrences :
    (r : String) (seen cs : List String)
    → occurrences r seen ≤ 1
    → occurrences r (collect seen cs) ≤ 1
unfolding collect
collect-occurrences r seen [] h = h
collect-occurrences r seen (c ∷ cs) h = elim (Bool-cases (contains seen c)) [
  | inl old ↦ rw (old, collect) (collect-occurrences r seen cs h)
  | inr new ↦
      rw (new, collect)
        (collect-occurrences r (seen ++ c ∷ []) cs (elim (Bool-cases (str_eq r c)) [
          | inl same ↦
              let free : contains seen r ≡ false = ap (contains seen) ((eq_iff r c).0 same) ∙ new in
              ground
                (arith, same, occurrences-append r seen (c ∷ []), occurrences-absent r seen free)
          | inr apart ↦ ground (arith, apart, h, occurrences-append r seen (c ∷ []))
        ]))
]

-- Under a policy, a role is extracted exactly if the policy maps one of the certificate's OUs to it or it
-- stands in an OU with the gateway's prefix, and no role is extracted twice.
pub extract_policy_roles_lem :
    (trim : String → String) (cert : Cert) (policy : AuthorizationPolicy) (role : String)
    → (contains (extract_policy_roles trim cert (some policy)) role
        ≡ contains (mapped_roles trim policy cert) role || contains (extract_roles trim cert) role)
      × (occurrences role (extract_policy_roles trim cert (some policy)) ≤ 1)
unfolding extract_policy_roles
extract_policy_roles_lem trim cert policy role =
    let mapped = mapped_roles trim policy cert in
    let own = extract_roles trim cert in
    (
      collect-contains role (collect [] mapped) own
          ∙ ap (λ b. b || contains own role) (collect-contains role [] mapped),
      collect-occurrences role (collect [] mapped) own
          (collect-occurrences role [] mapped (omega arith)),
    )

module _ (p : Pki) where
  any-grant_set :
      (policy : AuthorizationPolicy) (roles : List String) (id : String)
      → any (match_capability p id) (grant_set p policy roles)
        ≡ any (λ role. has_grant p policy role id) roles
  unfolding grant_set has_grant
  any-grant_set policy [] id = refl
  any-grant_set policy (role ∷ roles) id =
      any-append (match_capability p id) (role_grants policy role) (grant_set p policy roles)
      ∙ ap (λ b. has_grant p policy role id || b) (any-grant_set policy roles id)

  filter_same :
      (q r : String → Bool) (ids : List String)
      → ((id : String) → q id ≡ r id)
      → filter q ids ≡ filter r ids
  filter_same q r [] h = refl
  filter_same q r (id ∷ ids) h = ground (arith, h id, filter_same q r ids h)

  filter_none :
      (q : String → Bool) (ids : List String) → ((id : String) → q id ≡ false) → filter q ids ≡ []
  filter_none q [] h = refl
  filter_none q (id ∷ ids) h = rw (h id, filter) (filter_none q ids h)

  -- The grants of an agent under its roles are, in order, the capabilities that some role grants.
  pub intersect_grants_lem :
      (policy : AuthorizationPolicy) (roles ids : List String)
      → intersect_grants p policy roles ids
        ≡ filter (λ id. any (λ role. has_grant p policy role id) roles) ids
  unfolding intersect_grants
  intersect_grants_lem policy [] ids = sym (filter_none (λ id. false) ids (λ id. refl))
  intersect_grants_lem policy (role ∷ roles) ids =
      filter_same (λ id. any (match_capability p id) (grant_set p policy (role ∷ roles)))
        (λ id. any (λ r. has_grant p policy r id) (role ∷ roles)) ids
        (any-grant_set policy (role ∷ roles))
