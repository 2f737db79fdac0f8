-- ===== src/Risk.antt =====
-- riskmonitor.go: the violations of each agent in a sliding window, and the rules that act on them. The
-- mutex makes each call one step. Times and windows are seconds; one that the code reads as unset when it
-- is not positive is given as 0. `strings.EqualFold` is a parameter.
pub mod Enforcement
pub mod Due
use aic_verifier.Prelude.{
  ℕ, ◌+◌, ◌≤◌, ◌≡◌, refl, sym, ap, ◌∙◌, String, Bool, true, false, not, ◌&&◌, ◌||◌, Option, none,
  some, List, [], ◌∷◌, ◌++◌, length, any, all, filter, ltb, leb, ◌==◌, str_eq, arith, Bool-cases,
  inl, inr, if◌then◌else◌, is_some, filter-filter, eq_iff, ◌≢◌, length-append, suc,
}

pub record RiskViolation : Type 0 where
  pub agent_id : String
  pub signal : String
  -- 0 for the time of the call
  pub at_time : ℕ

pub record RiskRule : Type 0 where
  pub signals : List String
  pub threshold : ℕ
  pub window_seconds : ℕ
  pub action : String
  pub reason : String

-- a call of the enforcement callback
pub record Action : Type 0 where
  pub agent_id : String
  pub action : String
  pub reason : String

pub record RiskMonitor : Type 0 where
  pub rules : List RiskRule
  pub violations : List (String × List RiskViolation)
  pub actions : List Action

unfoldable pub new_risk_monitor : List RiskRule → RiskMonitor
new_risk_monitor rules = record { rules = rules; violations = []; actions = [] }

unfoldable pub set_rules : RiskMonitor → List RiskRule → RiskMonitor
set_rules m rules = record { rules = rules; violations = []; actions = m.actions }

-- the map's read, nil for a missing key
unfoldable pub violations_of : List (String × List RiskViolation) → String → List RiskViolation
violations_of [] agent = []
violations_of ((k, vs) ∷ rest) agent =
    let later = violations_of rest agent in if str_eq k agent then vs else later

unfoldable pub drop_agent :
    List (String × List RiskViolation) → String → List (String × List RiskViolation)
drop_agent [] agent = []
drop_agent ((k, vs) ∷ rest) agent =
    let later = drop_agent rest agent in if str_eq k agent then later else (k, vs) ∷ later

unfoldable pub violations_count : RiskMonitor → String → ℕ
violations_count m agent = length (violations_of m.violations agent)

abbrev pub window_of : RiskRule → ℕ
window_of rule = if rule.window_seconds == 0 then 60 else rule.window_seconds

abbrev pub threshold_of : RiskRule → ℕ
threshold_of rule = if rule.threshold == 0 then 1 else rule.threshold

unfoldable pub in_window : ℕ → ℕ → RiskViolation → Bool
in_window now window v = not (ltb (v.at_time + window) now)

abbrev pub action_of : RiskRule → String
action_of rule = if str_eq rule.action "" then "disconnect" else rule.action

unfoldable pub no_rules : List RiskRule → Bool
no_rules [] = true
no_rules (_ ∷ _) = false

-- what a call leaves behind: the violations kept, or an action and no violations of the agent
unfoldable pub enforce :
    RiskMonitor → String → Option RiskRule × List RiskViolation → RiskMonitor × Bool
enforce m agent (none, kept) =
    (record m { violations = (agent, kept) ∷ drop_agent m.violations agent }, false)
enforce m agent (some rule, kept) = (
  record m {
    violations = drop_agent m.violations agent;
    actions =
        m.actions
        ++ record { agent_id = agent; action = action_of rule; reason = rule.reason } ∷ [];
  },
  true,
)

module _ (equal_fold : String → String → Bool) where
  unfoldable pub signal_in : List String → String → Bool
  signal_in list sig = any (λ s. str_eq s "*" || equal_fold s sig) list

  -- matched, and enough violations kept; those kept need not match
  unfoldable pub rule_hit : RiskRule → List RiskViolation → Bool
  rule_hit rule kept =
      any (λ (v : RiskViolation). signal_in rule.signals v.signal) kept
      && leb (threshold_of rule) (length kept)

  -- the loop over the rules: the rule that fires, if one does, and what is kept of the violations
  unfoldable pub run_rules :
      ℕ → List RiskRule → List RiskViolation → Option RiskRule × List RiskViolation
  run_rules now [] vs = (none, vs)
  run_rules now (rule ∷ rules) vs =
      let kept = filter (in_window now (window_of rule)) vs in
      let rest = run_rules now rules kept in if rule_hit rule kept then (some rule, kept) else rest

  unfoldable pub record_violation : RiskMonitor → ℕ → RiskViolation → RiskMonitor × Bool
  unfolding run_rules
  record_violation m clock v =
      let now = if v.at_time == 0 then clock else v.at_time in
      let seen = violations_of m.violations v.agent_id ++ record v { at_time = now } ∷ [] in
      if no_rules m.rules then (m, false) else enforce m v.agent_id (run_rules now m.rules seen)
