-- ===== src/Roles.antt =====
-- rbac.go and policy.go: the roles of a certificate, and the grants that roles give. A map is an
-- association list; `strings.TrimSpace` is a parameter.
pub mod Extraction
use aic_verifier.Prelude.{
  ℕ, String, Bool, true, false, not, ◌&&◌, ◌||◌, Option, none, some, List, [], ◌∷◌, ◌++◌, map, any,
  contains, filter, str_eq, starts_with, if◌then◌else◌,
}
use aic_verifier.Model.{Cert, Pki}
use aic_verifier.Capability.{match_capability}

-- the grants of each role, and the role of each OU
pub record AuthorizationPolicy : Type 0 where
  pub roles : List (String × List String)
  pub ou_mapping : List (String × String)

unfoldable pub lookup {ℓ} : {A : Type ℓ} → List (String × A) → String → Option A
lookup [] key = none
lookup ((k, x) ∷ rest) key = if str_eq k key then some x else lookup rest key

unfoldable pub role_grants : AuthorizationPolicy → String → List String
unfolding lookup
role_grants policy role = elim (lookup policy.roles role) [ none ↦ [] | some grants ↦ grants ]

unfoldable pub role_by_ou : AuthorizationPolicy → String → String
unfolding lookup
role_by_ou policy ou = elim (lookup policy.ou_mapping ou) [ none ↦ "" | some role ↦ role ]

abbrev pub role_wild : String
role_wild = "gateway:*"

abbrev pub role_prefix : String
role_prefix = "gateway:"

abbrev pub role_admin : String
role_admin = "gateway:admin"

unfoldable pub is_admin_ou : String → Bool
is_admin_ou ou = str_eq ou role_admin || str_eq ou "admin"

unfoldable pub signer_has_admin_ou : Cert → Bool
signer_has_admin_ou cert = any is_admin_ou cert.organizational_unit

abbrev pub role_allowed : String → String → Bool
role_allowed role allow =
    str_eq role allow || (str_eq allow role_wild && starts_with role role_prefix)

unfoldable pub check_role : List String → List String → Bool
check_role roles allowed =
    any (λ role. str_eq role role_wild || any (role_allowed role) allowed) roles

unfoldable pub has_delegated_agent_ou : Cert → Bool
has_delegated_agent_ou cert = any (λ ou. str_eq ou "Delegated-Agent") cert.organizational_unit

-- each candidate that was not seen before is appended
unfoldable pub collect : List String → List String → List String
collect seen [] = seen
collect seen (c ∷ cs) = collect (if contains seen c then seen else seen ++ c ∷ []) cs

module _ (trim_space : String → String) where
  unfoldable pub extract_roles : Cert → List String
  extract_roles cert =
      filter (λ role. starts_with role role_prefix) (map trim_space cert.organizational_unit)

  -- the roles that the policy gives to the OUs of a certificate
  unfoldable pub mapped_roles : AuthorizationPolicy → Cert → List String
  mapped_roles policy cert =
      filter (λ role. not (str_eq role ""))
        (map (λ ou. role_by_ou policy (trim_space ou)) cert.organizational_unit)

  unfoldable pub extract_policy_roles : Cert → Option AuthorizationPolicy → List String
  extract_policy_roles cert none = extract_roles cert
  extract_policy_roles cert (some policy) =
      collect (collect [] (mapped_roles policy cert)) (extract_roles cert)

module _ (p : Pki) where
  unfoldable pub has_grant : AuthorizationPolicy → String → String → Bool
  has_grant policy role capability = any (match_capability p capability) (role_grants policy role)

  -- the set of the grants of all the roles
  unfoldable pub grant_set : AuthorizationPolicy → List String → List String
  grant_set policy [] = []
  grant_set policy (role ∷ roles) = role_grants policy role ++ grant_set policy roles

  unfoldable pub intersect_grants : AuthorizationPolicy → List String → List String → List String
  intersect_grants policy [] ids = []
  intersect_grants policy (role ∷ roles) ids =
      filter (λ id. any (match_capability p id) (grant_set policy (role ∷ roles))) ids
