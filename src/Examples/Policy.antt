-- ===== src/Examples/Policy.antt =====
-- The theorems on the risk monitor and on the roles at concrete rules and policies.
use aic_verifier.Prelude.{◌≡◌, refl, ◌↔◌, false, true, [], ◌∷◌, ◌++◌, Memᴰ, str_eq, arith}
use aic_verifier.Model.{Cert}
use aic_verifier.Risk.{
  RiskMonitor, RiskRule, RiskViolation, violations_of, record_violation, run_rules, rule_hit,
  signal_in, in_window, enforce, drop_agent, no_rules,
}
use aic_verifier.Risk.Due.{Due, record_violation_iff}
use aic_verifier.Roles.{AuthorizationPolicy}
use aic_verifier.Examples.Setup.{agent}

-- a long window first, then a short one
abbrev watch : RiskMonitor
watch = record {
  rules =
      record {
        signals = "overflow" ∷ [];
        threshold = 3;
        window_seconds = 600;
        action = "revoke";
        reason = "slow";
      }
      ∷ record {
        signals = "*" ∷ [];
        threshold = 2;
        window_seconds = 0;
        action = "";
        reason = "fast";
      }
      ∷ [];
  violations =
      ("agent", record { agent_id = "agent"; signal = "overflow"; at_time = 100 } ∷ []) ∷ [];
  actions = [];
}

abbrev overflow : RiskViolation
overflow = record { agent_id = "agent"; signal = "overflow"; at_time = 0 }

record_violation_iff_example : ((record_violation str_eq watch 130 overflow).1 ≡ true) ↔ (
    (rule : RiskRule) × Memᴰ rule watch.rules
    × Due str_eq 130
        (violations_of watch.violations "agent" ++ record overflow { at_time = 130 } ∷ [])
        rule)
record_violation_iff_example =
    record_violation_iff str_eq watch 130 600 overflow (omega arith, (omega arith, tt))

-- three signals within the first rule's window, of which the second rule's shorter window drops the first
abbrev pruning : RiskMonitor
pruning = record {
  rules =
      record {
        signals = "overflow" ∷ [];
        threshold = 3;
        window_seconds = 60;
        action = "revoke";
        reason = "";
      }
      ∷ record {
        signals = "overflow" ∷ [];
        threshold = 3;
        window_seconds = 10;
        action = "";
        reason = "";
      }
      ∷ [];
  violations = [];
  actions = [];
}

third_not_counted :
    (record_violation str_eq
      (record_violation str_eq (record_violation str_eq pruning 100 overflow).0 120 overflow).0
      140
      overflow).1
    ≡ false
unfolding record_violation run_rules rule_hit signal_in in_window enforce violations_of drop_agent
    no_rules
third_not_counted = refl

abbrev operator : Cert
operator = record agent { organizational_unit = "Ops" ∷ "gateway:read" ∷ "Platform" ∷ [] }

abbrev grants : AuthorizationPolicy
grants = record {
  roles = ("operator", "read" ∷ "write" ∷ []) ∷ [];
  ou_mapping = ("Ops", "operator") ∷ ("Platform", "operator") ∷ [];
}
