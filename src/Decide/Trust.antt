-- ===== src/Decide/Trust.antt =====
-- decide.go: how the credential of a request that reaches the pipeline came to be trusted.
use aic_verifier.Prelude.{
  ℕ, ◌≡◌, refl, ap, sym, ◌∙◌, String, Bool, true, false, none, some, List, [], ◌∷◌, ◌⊎◌, inl, inr,
  arith, str_eq, Bool-cases, Option-cases,
}
use aic_verifier.Model.{Cert, Fallible, value, error}
use aic_verifier.Decide.{RequestView, Authenticator}
use aic_verifier.Decide.Credential.{
  Credential, presents, allows_mtls, allows_bearer, of_bearer, resolve_bearer, resolve_chain,
  preverified, resolve_credential, check_chain_trust,
}

presents_eq : {c d : Credential} → presents c ≡ presents d → c ≡ d
presents_eq h = ground (arith, h)

module _ (a : Authenticator) (now : ℕ) (view : RequestView) where
  -- the chain that a carrier with a verified certificate brings: that certificate alone where none is
  -- presented, else the one that is presented
  abbrev pub Brought : Cert → Credential → Type 0
  Brought cert c =
      ((view.cert_chain ≡ []) × ((c.leaf ≡ cert) × (c.rest ≡ [])))
      ⊎ (view.cert_chain ≡ c.leaf ∷ c.rest)

  -- how the credential came to be trusted: the carrier states a verified certificate, or the pool has
  -- verified the chain, or the verifier of bearer tokens has made it, over a secure transport; only the
  -- last is a bearer credential
  pub data Trusted (c : Credential) : Type 0 where
    by_carrier :
        (cert : Cert)
        → view.verified_cert ≡ some cert
        → c.bearer ≡ false
        → Brought cert c
        → Trusted c
    by_pool :
        (verify : Cert → List Cert → Bool)
        → a.tls_cas ≡ some verify
        → verify c.leaf c.rest ≡ true
        → view.verified_cert ≡ none
        → view.cert_chain ≡ c.leaf ∷ c.rest
        → allows_mtls a.auth_mode ≡ true
        → c.bearer ≡ false
        → Trusted c
    by_bearer :
        (verify : String → ℕ → Fallible Cert)
        → a.verifier ≡ some verify
        → view.transport_secure ≡ true
        → verify view.bearer_token now ≡ value c.leaf
        → allows_bearer a.auth_mode ≡ true
        → c.bearer ≡ true
        → c.rest ≡ []
        → view.verified_cert ≡ none
        → Trusted c

  -- the token and its verifier
  abbrev Carried : Credential → Type 0
  Carried c =
      (verify : String → ℕ → Fallible Cert) × ((a.verifier ≡ some verify)
        × ((view.transport_secure ≡ true)
            × (((verify view.bearer_token now ≡ value c.leaf) × ((c.bearer ≡ true) × (c.rest ≡ [])))
                × (allows_bearer a.auth_mode ≡ true))))

  of_bearer-presents :
      (r : Fallible Cert) (c : Credential)
      → of_bearer r ≡ presents c
      → (r ≡ value c.leaf) × ((c.bearer ≡ true) × (c.rest ≡ []))
  of_bearer-presents error c h = absurd (ground (arith, h))
  of_bearer-presents (value cert) c h =
      let made = presents_eq h in
      (
        ap (λ (d : Credential). value d.leaf) made,
        (sym (ap (λ (d : Credential). d.bearer) made), sym (ap (λ (d : Credential). d.rest) made)),
      )

  resolve_bearer-Carried : (c : Credential) → resolve_bearer a now view ≡ presents c → Carried c
  unfolding resolve_bearer
  resolve_bearer-Carried c h = elim (Bool-cases (allows_bearer a.auth_mode)) [
    | inr never ↦ absurd (ground (arith, h, never))
    | inl mode ↦ elim (Bool-cases (str_eq view.bearer_token "")) [
      | inl missing ↦ absurd (ground (arith, h, mode, missing))
      | inr present ↦ elim (Option-cases a.verifier) [
        | inl without ↦ absurd (ground (arith, h, mode, present, without))
        | inr (verify, configured) ↦ elim (Bool-cases view.transport_secure) [
          | inr plain ↦ absurd (ground (arith, h, mode, present, configured, plain))
          | inl secure ↦ (
            verify,
            (
              configured,
              (
                secure,
                (
                  of_bearer-presents (verify view.bearer_token now) c
                      (ground (arith, h, mode, present, configured, secure)),
                  mode,
                ),
              ),
            ),
          )
        ]
      ]
    ]
  ]

  Carried-Trusted : (c : Credential) → view.verified_cert ≡ none → Carried c → Trusted c
  Carried-Trusted c unverified (verify, (configured, (secure, ((ok, (bearer, alone)), mode)))) =
      by_bearer verify configured secure ok mode bearer alone unverified

  preverified-Brought :
      (cert : Cert) (chain : List Cert) (c : Credential)
      → view.cert_chain ≡ chain
      → preverified a now view cert chain ≡ presents c
      → (c.bearer ≡ false) × Brought cert c
  preverified-Brought cert [] c e h =
      let made = presents_eq h in
      (
        sym (ap (λ (d : Credential). d.bearer) made),
        inl (
          e,
          (sym (ap (λ (d : Credential). d.leaf) made), sym (ap (λ (d : Credential). d.rest) made)),
        ),
      )
  preverified-Brought cert (leaf ∷ rest) c e h =
      let made = presents_eq h in
      (
        sym (ap (λ (d : Credential). d.bearer) made),
        inr (e ∙ ap (λ (d : Credential). d.leaf ∷ d.rest) made),
      )

  pool-Trusted :
      (c : Credential)
      → view.verified_cert ≡ none
      → c.bearer ≡ false
      → view.cert_chain ≡ c.leaf ∷ c.rest
      → allows_mtls a.auth_mode ≡ true
      → check_chain_trust a now view c ≡ none
      → Trusted c
  unfolding check_chain_trust
  pool-Trusted c unverified certificate chain mode h = elim (Option-cases a.tls_cas) [
    | inl without ↦ absurd (ground (arith, h, unverified, certificate, without))
    | inr (verify, configured) ↦ elim (Bool-cases (verify c.leaf c.rest)) [
      | inr broken ↦ absurd (ground (arith, h, unverified, certificate, configured, broken))
      | inl ok ↦ by_pool verify configured ok unverified chain mode certificate
    ]
  ]

  resolve_chain-Trusted :
      (chain : List Cert) (c : Credential)
      → view.cert_chain ≡ chain
      → view.verified_cert ≡ none
      → resolve_chain a now view chain ≡ presents c
      → check_chain_trust a now view c ≡ none
      → Trusted c
  unfolding resolve_chain
  resolve_chain-Trusted [] c e unverified h k =
      Carried-Trusted c unverified (resolve_bearer-Carried c h)
  resolve_chain-Trusted (leaf ∷ rest) c e unverified h k =
      elim (Bool-cases (allows_mtls a.auth_mode)) [
        | inr bearer ↦
            Carried-Trusted c unverified (resolve_bearer-Carried c (ground (arith, h, bearer)))
        | inl mode ↦
            let shown : record { leaf = leaf; rest = rest; bearer = false } ≡ c =
              presents_eq (ground (arith, h, mode)) in
            pool-Trusted c unverified (sym (ap (λ (d : Credential). d.bearer) shown))
              (e ∙ ap (λ (d : Credential). d.leaf ∷ d.rest) shown) mode k
      ]

  pub credential-Trusted :
      (c : Credential)
      → resolve_credential a now view ≡ presents c
      → check_chain_trust a now view c ≡ none
      → Trusted c
  unfolding resolve_credential
  credential-Trusted c h k = elim (Option-cases view.verified_cert) [
    | inr (cert, verified) ↦
        let (own, chain) =
          preverified-Brought cert view.cert_chain c refl
            (rw (verified, resolve_credential) at h) in
        by_carrier cert verified own chain
    | inl unverified ↦
        resolve_chain-Trusted view.cert_chain c refl unverified (ground (arith, h, unverified)) k
  ]
