-- ===== src/Capability.antt =====
-- policy.go and decision.go: the matching of capability identifiers.
use Prim.Native.String.{len, slice, ◌++◌}
use aic_verifier.Prelude.{
  ◌-◌, String, Bool, true, false, ◌&&◌, ◌||◌, not, List, [], ◌∷◌, any, filter, leb, str_eq,
  starts_with, if◌then◌else◌,
}
use aic_verifier.Model.{Capability, Pki}

-- the last two bytes of the pattern are ":*"
abbrev is_prefix_pattern : String → Bool
is_prefix_pattern pattern =
    leb 2 (len pattern) && str_eq (slice pattern (len pattern - 2) (len pattern)) ":*"

module _ (p : Pki) where
  unfoldable pub match_capability : String → String → Bool
  match_capability id pattern =
      if str_eq id pattern
      then true
      else if str_eq pattern "*"
      then true
      else if p.file_match id pattern
      then true
      else if is_prefix_pattern pattern
      then starts_with id (slice pattern 0 (len pattern - 1))
      else false

  -- the scheme and the identifier of a declaration, joined
  abbrev pub qualified : Capability → String
  qualified cap = cap.scheme_id ++ (":" ++ cap.capability_id)

  abbrev pub matches_one : String → Capability → Bool
  matches_one req cap =
      match_capability req cap.capability_id
      || (not (str_eq cap.scheme_id "") && match_capability req (qualified cap))

  unfoldable pub aic_capability_matches : List Capability → String → Bool
  aic_capability_matches caps req = any (matches_one req) caps

  unfoldable pub required_cap_unserved : List String → Capability → Bool
  required_cap_unserved required cap = any (λ req. matches_one req cap) required

  unfoldable pub effective_capabilities : List Capability → List String → List Capability
  effective_capabilities declared grants =
      filter (λ c. any (aic_capability_matches (c ∷ [])) grants) declared
