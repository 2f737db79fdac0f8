-- ===== src/DelegationChain.antt =====
-- delegation_chain.go and the chain verifier of decision.go: chains of delegated agents.
pub mod Attenuation
pub mod Signed
pub mod Attested
use Prim.Native.Char.{code}
use Prim.Native.String.{◌++◌ as append}
use aic_verifier.Prelude.{
  ℕ, zero, suc, ◌+◌, String, Bool, true, false, ◌&&◌, ◌||◌, not, Option, none, some, List, [], ◌∷◌,
  length, any, all, filter, ltb, leb, ◌==◌, starts_with, if◌then◌else◌,
}
use aic_verifier.Merkle.{Bytes}
use aic_verifier.Model.{Cert, Capability, Aic, Pki, Fallible, value, error}
use aic_verifier.Capability.{match_capability}
use aic_verifier.DelegationAuth.{Crypto, DaError, verify_delegation_auth_with_agent}

abbrev pub default_max_chain_length : ℕ
default_max_chain_length = 8

pub data ChainError : Type 0 where
  nil_verifier empty_chain nil_top_principal top_parse_failed top_without_aic : ChainError
  depth_exceeded length_exceeded : ℕ → ℕ → ChainError
  duplicate_serial : ℕ → ℕ → ChainError
  parse_failed no_aic empty_authorization not_subset empty_effective : ℕ → ChainError
  bad_signature : ℕ → DaError → ChainError

pub data Result {ℓ} (A : Type ℓ) : Type ℓ where
  ok : A → Result A
  err : ChainError → Result A

infixl 5 ◌>>=◌
abbrev pub ◌>>=◌ {ℓ κ} : {A : Type ℓ} {B : Type κ} → Result A → (A → Result B) → Result B
ok a >>= f = f a
err e >>= f = err e

-- the loop over the certificates with the set of the serial numbers seen; none is success. A chain
-- holds no nil certificates here.
unfoldable pub check_serials : ℕ → List ℕ → List Cert → Option ChainError
check_serials i seen [] = none
check_serials i seen (cert ∷ rest) =
    let later = check_serials (i + 1) (cert.serial_number ∷ seen) rest in
    if any (λ s. s == cert.serial_number) seen
    then some (duplicate_serial cert.serial_number i)
    else later

unfoldable pub verify_chain_structure : List Cert → ℕ → Option ChainError
unfolding check_serials
verify_chain_structure [] max_chain_len = some empty_chain
verify_chain_structure (cert ∷ rest) max_chain_len =
    if not (max_chain_len == 0) && ltb max_chain_len (length (cert ∷ rest))
    then some (length_exceeded (length (cert ∷ rest)) max_chain_len)
    else check_serials 0 [] (cert ∷ rest)

pub record ChainVerifier : Type 0 where
  pub max_depth : ℕ
  pub max_chain_length : ℕ

abbrev pub chain_limit : ChainVerifier → ℕ
chain_limit v = if v.max_chain_length == 0 then default_max_chain_length else v.max_chain_length

abbrev pub contains_star : String → Bool
contains_star String.[] = false
contains_star (String.◌∷◌ c s) = code c == 42 || contains_star s

module _ (p : Pki) where
  unfoldable pub capability_covered : Capability → Capability → Bool
  capability_covered leaf ancestor =
      let leaf_id = p.full_id leaf in
      let anc_id = p.full_id ancestor in
      if match_capability p leaf_id anc_id
      then true
      else not (contains_star anc_id) && starts_with leaf_id (append anc_id ":")

  abbrev pub covered_by : List Capability → Capability → Bool
  covered_by superset s = any (capability_covered s) superset

  -- no capability is a subset of anything; the loop answers false over an empty superset
  unfoldable pub capability_subset : List Capability → List Capability → Bool
  capability_subset subset superset = all (covered_by superset) subset

  unfoldable pub filter_covered : List Capability → List Capability → List Capability
  filter_covered leaf ancestor = filter (covered_by ancestor) leaf

  abbrev pub level_aic : ℕ → Cert → Result Aic
  level_aic i cert = elim (p.parse_aic cert) [
    | error ↦ err (parse_failed i)
    | value none ↦ err (no_aic i)
    | value (some aic) ↦ ok aic
  ]

  -- one round of the loop: the effective capabilities below a level
  unfoldable pub effective_level : ℕ → Aic → List Capability → Result (List Capability)
  effective_level i aic eff =
      if not (capability_subset aic.capabilities eff)
      then err (not_subset i)
      else elim (filter_covered aic.capabilities eff) [
        | [] ↦ err (empty_effective i)
        | c ∷ cs ↦ ok (c ∷ cs)
      ]

  unfoldable pub effective_loop : ℕ → List Cert → List Capability → Result (List Capability)
  effective_loop i [] eff = ok eff
  effective_loop i (cert ∷ rest) eff = level_aic i cert >>= λ aic.
      effective_level i aic eff >>= λ next. effective_loop (i + 1) rest next

  unfoldable pub effective_delegation_capabilities :
      List Cert → List Capability → ℕ → Result (List Capability)
  effective_delegation_capabilities chain principal_caps max_chain_len =
      elim (verify_chain_structure chain max_chain_len) [
        | some e ↦ err e
        | none ↦ effective_loop 0 chain principal_caps
      ]

  -- the principal's own AIC gives the capabilities to start from
  unfoldable pub effective_delegation_capabilities_from_aic :
      List Cert → Option Cert → ℕ → Result (List Capability)
  effective_delegation_capabilities_from_aic chain none max_chain_len = err nil_top_principal
  effective_delegation_capabilities_from_aic chain (some top) max_chain_len =
      elim (p.parse_aic top) [
        | error ↦ err top_parse_failed
        | value none ↦ err top_without_aic
        | value (some aic) ↦ effective_delegation_capabilities chain aic.capabilities max_chain_len
      ]

  module _ (k : Crypto) where
    -- one round of the loop of `Verify`
    unfoldable pub verify_level : ℕ → Cert → Cert → Option ChainError
    verify_level i signer cert = elim (level_aic i cert) [
      | err e ↦ some e
      | ok aic ↦
          if not (p.is_present aic.delegation_authorization)
          then some (empty_authorization i)
          else elim (verify_delegation_auth_with_agent p k (some aic) (some signer) (some cert)) [
            | none ↦ none
            | some e ↦ some (bad_signature i e)
          ]
    ]

    -- the loop runs from the bottom of the chain up
    unfoldable pub verify_levels : ℕ → Cert → List Cert → Option ChainError
    unfolding verify_level
    verify_levels i signer [] = none
    verify_levels i signer (cert ∷ rest) = elim (verify_levels (i + 1) cert rest) [
      | some e ↦ some e
      | none ↦ verify_level i signer cert
    ]

    unfoldable pub verify_chain : ChainVerifier → List Cert → Option Cert → Option ChainError
    verify_chain v [] top = some empty_chain
    verify_chain v (cert ∷ rest) none = some nil_top_principal
    verify_chain v (cert ∷ rest) (some top) =
        if ltb v.max_depth (length (cert ∷ rest))
        then some (depth_exceeded (length (cert ∷ rest)) v.max_depth)
        else elim (verify_chain_structure (cert ∷ rest) (chain_limit v)) [
          | some e ↦ some e
          | none ↦ verify_levels 0 top (cert ∷ rest)
        ]

    unfoldable pub verify_delegation_chain : List Cert → Option Cert → ℕ → Option ChainError
    verify_delegation_chain chain top max_depth =
        verify_chain (record { max_depth = max_depth; max_chain_length = default_max_chain_length })
          chain top

    unfoldable pub verify_delegation_chain_with_caps :
        List Cert → Option Cert → List Capability → ℕ → ℕ → Result (List Capability)
    verify_delegation_chain_with_caps chain top principal_caps max_depth max_chain_len =
        let limit = if max_chain_len == 0 then default_max_chain_length else max_chain_len in
        elim (verify_chain (record { max_depth = max_depth; max_chain_length = limit }) chain top) [
          | some e ↦ err e
          | none ↦ effective_delegation_capabilities chain principal_caps limit
        ]
