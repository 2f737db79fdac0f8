-- ===== src/Constraints/Evaluators.antt =====
-- constraints.go: the built-in evaluators. JSON, `bytes.TrimSpace`, addresses, networks and time zones are
-- parameters; the order in which a map is run through is that of its list. True stands for nil.
use aic_verifier.Prelude.{
  ℕ, String, Bool, true, false, not, ◌&&◌, ◌||◌, Option, none, some, List, [], ◌∷◌, any, leb, ◌==◌,
  str_eq, bytes_equal, if◌then◌else◌,
}
use aic_verifier.Merkle.{Bytes}
use aic_verifier.Parameters.{Number, natural, negative}
use aic_verifier.Constraints.{Evaluator, ConstraintRegistry}
use aic_verifier.Constraints.Window.{parse_time_parts, in_window}

pub record WindowParams : Type 0 where
  pub start : Bytes
  pub end : Bytes
  pub tz : String

pub record GeoParams : Type 0 where
  pub resolver : String
  pub regions : Bytes

-- an address, as the set of the networks that contain it
abbrev pub Ip : Type 0
Ip = String → Bool

-- the instant of hours and minutes on the day of an instant
abbrev pub Zone : Type 0
Zone = ℕ → ℕ → ℕ → ℕ

pub record ConstraintLib : Type 0 where
  pub trim_space : Bytes → Bytes
  -- `json.Unmarshal` into the parameters of each constraint: none for an error
  pub unmarshal_cidr_object : Bytes → Option (List String)
  pub unmarshal_strings : Bytes → Option (List String)
  pub unmarshal_max : Bytes → Option Number
  pub unmarshal_value : Bytes → Option Number
  pub is_flag : Bytes → Bool
  pub unmarshal_window : Bytes → Option WindowParams
  pub unmarshal_geo : Bytes → Option GeoParams
  pub unmarshal_table : Bytes → Option (List (String × List String))
  pub parse_ip : String → Option Ip
  -- `net.ParseCIDR` succeeds
  pub is_cidr : String → Bool
  pub utc : Zone
  pub load_location : String → Option Zone
  -- the registered resolvers of regions, and the region of an address
  pub lookup_geo_resolver : String → Option (String → Option String)

abbrev pub max_concurrent_min : ℕ
max_concurrent_min = 1

abbrev pub max_concurrent_max : ℕ
max_concurrent_max = 1024

abbrev pub hard_timeout_min : ℕ
hard_timeout_min = 60

abbrev pub hard_timeout_max : ℕ
hard_timeout_max = 86400

abbrev pub idle_timeout_min : ℕ
idle_timeout_min = 30

abbrev pub idle_timeout_max : ℕ
idle_timeout_max = 3600

-- a number between two bounds
abbrev pub within : ℕ → ℕ → Number → Bool
within low high negative = false
within low high (natural n) = leb low n && leb n high

module _ (lib : ConstraintLib) where
  -- the loop over the networks stops at the first that contains the address or is none
  unfoldable pub in_networks : Ip → List String → Bool
  in_networks ip [] = false
  in_networks ip (net ∷ nets) =
      let rest = in_networks ip nets in
      if not (lib.is_cidr net) then false else if ip net then true else rest

  abbrev pub is_object : Bytes → Bool
  is_object [] = false
  is_object (b ∷ bs) = b == b'{'

  unfoldable pub parse_cidr_param : Bytes → Option (List String)
  parse_cidr_param raw =
      if is_object (lib.trim_space raw)
      then lib.unmarshal_cidr_object (lib.trim_space raw)
      else lib.unmarshal_strings (lib.trim_space raw)

  abbrev pub from_networks : String → List String → Bool
  from_networks client_ip [] = true
  from_networks client_ip (net ∷ nets) =
      if str_eq client_ip ""
      then false
      else elim (lib.parse_ip client_ip) [ none ↦ false | some ip ↦ in_networks ip (net ∷ nets) ]

  unfoldable pub cidr_evaluator : Evaluator
  unfolding in_networks parse_cidr_param
  cidr_evaluator c client_ip now = elim (parse_cidr_param c.parameters) [
    | none ↦ false
    | some nets ↦ from_networks client_ip nets
  ]

  -- none for an error; 0 where there are no parameters
  unfoldable pub parse_max_concurrent_param : Bytes → Option ℕ
  parse_max_concurrent_param raw =
      if bytes_equal (lib.trim_space raw) []
      then some 0
      else elim (lib.unmarshal_max (lib.trim_space raw)) [
        | none ↦ none
        | some negative ↦ none
        | some (natural n) ↦
            if leb max_concurrent_min n && leb n max_concurrent_max then some n else none
      ]

  unfoldable pub max_concurrent_evaluator : Evaluator
  unfolding parse_max_concurrent_param
  max_concurrent_evaluator c client_ip now = elim (parse_max_concurrent_param c.parameters) [
    | none ↦ false
    | some n ↦ true
  ]

  abbrev pub zone_of : String → Option Zone
  zone_of tz = if str_eq tz "" then some lib.utc else lib.load_location tz

  abbrev pub at_times : Option Zone → Option (ℕ × ℕ) → Option (ℕ × ℕ) → ℕ → Bool
  at_times place none end now = false
  at_times place (some start) none now = false
  at_times none (some start) (some end) now = false
  at_times (some zone) (some (h, m)) (some (h', m')) now =
      in_window (zone now h m) (zone now h' m') now

  unfoldable pub time_window_evaluator : Evaluator
  unfolding parse_time_parts in_window
  time_window_evaluator c client_ip now = elim (lib.unmarshal_window c.parameters) [
    | none ↦ false
    | some w ↦
        if bytes_equal w.start [] || bytes_equal w.end []
        then false
        else at_times (zone_of w.tz) (parse_time_parts w.start) (parse_time_parts w.end) now
  ]

  -- the outcome of a region's networks: none to go on to the next region
  unfoldable pub in_region : Ip → List String → Option Bool
  in_region ip [] = none
  in_region ip (net ∷ nets) =
      let rest = in_region ip nets in
      if not (lib.is_cidr net) then some false else if ip net then some true else rest

  unfoldable pub in_table : Ip → List (String × List String) → Bool
  unfolding in_region
  in_table ip [] = false
  in_table ip ((region, nets) ∷ table) =
      let rest = in_table ip table in elim (in_region ip nets) [ none ↦ rest | some b ↦ b ]

  abbrev pub in_regions : Option (List String) → Option String → Bool
  in_regions none region = false
  in_regions (some allowed) none = false
  in_regions (some allowed) (some region) = any (λ a. str_eq a region) allowed

  unfoldable pub geo_resolve : String → String → Ip → Bytes → Bool
  unfolding in_table
  geo_resolve resolver client_ip ip regions =
      if str_eq resolver "inline"
      then elim (lib.unmarshal_table regions) [ none ↦ false | some table ↦ in_table ip table ]
      else elim (lib.lookup_geo_resolver resolver) [
        | none ↦ false
        | some resolve ↦ in_regions (lib.unmarshal_strings regions) (resolve client_ip)
      ]

  unfoldable pub geo_fence_evaluator : Evaluator
  unfolding geo_resolve
  geo_fence_evaluator c client_ip now = elim (lib.unmarshal_geo c.parameters) [
    | none ↦ false
    | some g ↦
        if bytes_equal g.regions []
        then false
        else if str_eq client_ip ""
        then false
        else elim (lib.parse_ip client_ip) [
          | none ↦ false
          | some ip ↦
              geo_resolve (if str_eq g.resolver "" then "inline" else g.resolver) client_ip ip
                g.regions
        ]
  ]

  unfoldable pub hard_timeout_evaluator : Evaluator
  hard_timeout_evaluator c client_ip now = elim (lib.unmarshal_value c.parameters) [
    | none ↦ false
    | some n ↦ within hard_timeout_min hard_timeout_max n
  ]

  unfoldable pub idle_timeout_evaluator : Evaluator
  idle_timeout_evaluator c client_ip now = elim (lib.unmarshal_value c.parameters) [
    | none ↦ false
    | some n ↦ within idle_timeout_min idle_timeout_max n
  ]

  unfoldable pub read_only_evaluator : Evaluator
  read_only_evaluator c client_ip now = lib.is_flag c.parameters

  unfoldable pub audit_required_evaluator : Evaluator
  audit_required_evaluator c client_ip now = true

  -- the registry after `ResetConstraints`
  unfoldable pub builtin_constraints : ConstraintRegistry
  builtin_constraints =
      ("network:cidr", cidr_evaluator)
      ∷ ("time:window", time_window_evaluator)
      ∷ ("session:max-concurrent", max_concurrent_evaluator)
      ∷ ("session:hard-timeout", hard_timeout_evaluator)
      ∷ ("session:idle-timeout", idle_timeout_evaluator)
      ∷ ("op:readonly", read_only_evaluator)
      ∷ ("op:audit:required", audit_required_evaluator)
      ∷ ("geo-fence", geo_fence_evaluator)
      ∷ []
