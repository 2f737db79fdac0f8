-- ===== src/Decide/Credential.antt =====
-- decide.go: the credential of a request, and the verification of its chain.
use aic_verifier.Prelude.{
  ℕ, Bool, true, false, not, Option, none, some, List, [], ◌∷◌, str_eq, is_some, if◌then◌else◌,
}
use aic_verifier.Model.{Cert, Fallible, value, error}
use aic_verifier.Decide.{
  RequestView, AuthMode, mtls_only, bearer_only, mtls_or_bearer, Authenticator, AuthError,
  no_credential, chain_invalid, no_ca_configured, no_verifier, bearer_needs_tls, invalid_bearer,
}

-- the chain with its leaf in front, and whether it is made from a bearer token
pub record Credential : Type 0 where
  pub leaf : Cert
  pub rest : List Cert
  pub bearer : Bool

pub data Resolution : Type 0 where
  presents : Credential → Resolution
  fails : AuthError → Resolution

abbrev pub allows_mtls : AuthMode → Bool
allows_mtls mtls_only = true
allows_mtls bearer_only = false
allows_mtls mtls_or_bearer = true

abbrev pub allows_bearer : AuthMode → Bool
allows_bearer mtls_only = false
allows_bearer bearer_only = true
allows_bearer mtls_or_bearer = true

abbrev pub of_bearer : Fallible Cert → Resolution
of_bearer error = fails invalid_bearer
of_bearer (value cert) = presents (record { leaf = cert; rest = []; bearer = true })

module _ (a : Authenticator) (now : ℕ) (view : RequestView) where
  unfoldable pub resolve_bearer : Resolution
  resolve_bearer =
      if not (allows_bearer a.auth_mode)
      then fails no_credential
      else if str_eq view.bearer_token ""
      then fails no_credential
      else elim a.verifier [
        | none ↦ fails no_verifier
        | some verify ↦
            if not view.transport_secure
            then fails bearer_needs_tls
            else of_bearer (verify view.bearer_token now)
      ]

  unfoldable pub resolve_chain : List Cert → Resolution
  unfolding resolve_bearer
  resolve_chain [] = resolve_bearer
  resolve_chain (leaf ∷ rest) =
      if allows_mtls a.auth_mode
      then presents (record { leaf = leaf; rest = rest; bearer = false })
      else resolve_bearer

  -- a credential that the carrier has verified; its chain is the one presented, if there is one
  abbrev pub preverified : Cert → List Cert → Resolution
  preverified cert [] = presents (record { leaf = cert; rest = []; bearer = false })
  preverified cert (leaf ∷ rest) = presents (record { leaf = leaf; rest = rest; bearer = false })

  unfoldable pub resolve_credential : Resolution
  unfolding resolve_chain
  resolve_credential = elim view.verified_cert [
    | some cert ↦ preverified cert view.cert_chain
    | none ↦ resolve_chain view.cert_chain
  ]

  -- `clientCert`: the verified one where there is one
  abbrev pub client_of : Credential → Cert
  client_of c = elim view.verified_cert [ some cert ↦ cert | none ↦ c.leaf ]

  -- none where the chain may go on to the pipeline
  unfoldable pub check_chain_trust : Credential → Option AuthError
  check_chain_trust c =
      if c.bearer then none else if is_some view.verified_cert then none else elim a.tls_cas [
        | none ↦ some no_ca_configured
        | some verify ↦ if verify c.leaf c.rest then none else some chain_invalid
      ]
