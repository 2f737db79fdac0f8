-- ===== src/Risk/Enforcement.antt =====
-- When `RecordViolation` of riskmonitor.go enforces a rule, and what it leaves of the violations counted.
use aic_verifier.Prelude.{
  ℕ, ◌≤◌, ◌≡◌, refl, sym, ap, ◌∙◌, String, Bool, true, false, Option, none, some, List, [], ◌∷◌,
  ◌++◌, length, any, filter, ◌==◌, str_eq, arith, Bool-cases, inl, inr, if◌then◌else◌, is_some,
  filter-filter, eq_iff, ◌≢◌, length-append, suc,
}
use aic_verifier.Risk.{
  RiskViolation, RiskRule, Action, RiskMonitor, violations_of, drop_agent, violations_count,
  window_of, in_window, action_of, no_rules, enforce, rule_hit, run_rules, record_violation,
}

enforce-is_some :
    (m : RiskMonitor) (agent : String) (r : Option RiskRule × List RiskViolation)
    → (enforce m agent r).1 ≡ is_some r.0
unfolding enforce
enforce-is_some m agent (none, kept) = refl
enforce-is_some m agent (some rule, kept) = refl

str_apart : (a b : String) → a ≢ b → str_eq a b ≡ false
str_apart a b apart = elim (Bool-cases (str_eq a b)) [
  | inl same ↦ absurd (apart ((eq_iff a b).0 same))
  | inr differ ↦ differ
]

any-no_rules :
    (q : RiskRule → Bool) (rules : List RiskRule) → no_rules rules ≡ true → any q rules ≡ false
unfolding no_rules
any-no_rules q [] h = refl
any-no_rules q (r ∷ rules) h = absurd (ground arith)

violations_of-drop_agent :
    (vs : List (String × List RiskViolation)) (agent other : String)
    → violations_of (drop_agent vs agent) other
      ≡ (if str_eq agent other then [] else violations_of vs other)
unfolding violations_of drop_agent
violations_of-drop_agent [] agent other = elim (Bool-cases (str_eq agent other)) [
  | inl same ↦ rw same refl
  | inr apart ↦ rw apart refl
]
violations_of-drop_agent ((k, x) ∷ vs) agent other = ground (
  arith,
  violations_of-drop_agent vs agent other,
  eq_iff k agent,
  eq_iff k other,
  eq_iff agent other,
)

violations_of-enforce :
    (m : RiskMonitor) (agent other : String) (r : Option RiskRule × List RiskViolation)
    → str_eq agent other ≡ false
    → violations_of (enforce m agent r).0.violations other ≡ violations_of m.violations other
unfolding enforce violations_of
violations_of-enforce m agent other (none, kept) apart =
    rw apart (violations_of-drop_agent m.violations agent other ∙ rw apart refl)
violations_of-enforce m agent other (some rule, kept) apart =
    violations_of-drop_agent m.violations agent other ∙ rw apart refl

enforce-fired :
    (m : RiskMonitor) (agent : String) (r : Option RiskRule × List RiskViolation)
    → (enforce m agent r).1 ≡ true
    → (violations_count (enforce m agent r).0 agent ≡ 0)
      × (length (enforce m agent r).0.actions ≡ suc (length m.actions))
unfolding enforce violations_count
enforce-fired m agent (none, kept) h = absurd (ground arith)
enforce-fired m agent (some rule, kept) h =
    let own : str_eq agent agent ≡ true = (eq_iff agent agent).1 refl in
    let gone : violations_of (drop_agent m.violations agent) agent ≡ [] =
      ground (arith, own, violations_of-drop_agent m.violations agent agent) in
    let taken : Action = record {
      agent_id = agent;
      action = action_of rule;
      reason = rule.reason;
    } in
    (ap length gone, omega (arith, length-append m.actions (taken ∷ [])))

module _ (equal_fold : String → String → Bool) where
  -- the windows never grow along the rules, starting from a bound
  abbrev pub Narrowing : ℕ → List RiskRule → Type 0
  Narrowing w [] = Unit
  Narrowing w (rule ∷ rules) = (window_of rule ≤ w) × Narrowing (window_of rule) rules

  in_window-wider :
      (now w w' : ℕ) (v : RiskViolation)
      → w' ≤ w
      → in_window now w v ≡ false
      → in_window now w' v ≡ false
  unfolding in_window
  in_window-wider now w w' v h old = ground (arith, old)

  -- a rule's verdict over the stored violations
  abbrev pub rule_holds : ℕ → List RiskViolation → RiskRule → Bool
  rule_holds now history rule =
      rule_hit equal_fold rule (filter (in_window now (window_of rule)) history)

  run_rules-holds :
      (now w : ℕ) (rules : List RiskRule) (history vs : List RiskViolation)
      → Narrowing w rules
      → ((w' : ℕ) → w' ≤ w → filter (in_window now w') vs ≡ filter (in_window now w') history)
      → is_some ((run_rules equal_fold now rules vs).0) ≡ any (rule_holds now history) rules
  unfolding run_rules
  run_rules-holds now w [] history vs narrow same = refl
  run_rules-holds now w (rule ∷ rules) history vs narrow same =
      let kept = same (window_of rule) narrow.0 in
      let later =
        run_rules-holds now (window_of rule) rules history
          (filter (in_window now (window_of rule)) vs) narrow.1
          (λ w' h.
            filter-filter (in_window now (window_of rule)) (in_window now w') vs
              (λ v old. in_window-wider now (window_of rule) w' v h old)
            ∙ same w' (omega (arith, narrow.0, h))) in
      let verdict : rule_hit equal_fold rule (filter (in_window now (window_of rule)) vs)
          ≡ rule_holds now history rule =
        ap (rule_hit equal_fold rule) kept in
      elim (Bool-cases (rule_hit equal_fold rule (filter (in_window now (window_of rule)) vs))) [
        | inl hit ↦ ground (arith, hit, verdict)
        | inr miss ↦ ground (arith, miss, verdict, later)
      ]

  pub record_violation-any :
      (m : RiskMonitor) (clock w : ℕ) (v : RiskViolation)
      → Narrowing w m.rules
      → let now = if v.at_time == 0 then clock else v.at_time in
        (record_violation equal_fold m clock v).1
        ≡ any
            (rule_holds now
              (violations_of m.violations v.agent_id ++ record v { at_time = now } ∷ []))
            m.rules
  unfolding record_violation
  record_violation-any m clock w v narrow =
      let now = if v.at_time == 0 then clock else v.at_time in
      let seen = violations_of m.violations v.agent_id ++ record v { at_time = now } ∷ [] in
      elim (Bool-cases (no_rules m.rules)) [
        | inl without ↦
            rw (without, record_violation)
              (sym (any-no_rules (rule_holds now seen) m.rules without))
        | inr rules ↦
            rw (rules, record_violation)
              (enforce-is_some m v.agent_id (run_rules equal_fold now m.rules seen)
                ∙ run_rules-holds now w m.rules seen seen narrow (λ w' h. refl))
      ]

  -- A violation of one agent leaves what is counted for every other agent as it was; when it triggers an
  -- enforcement, nothing stays counted for the agent, and one action is carried out.
  pub record_violation-others :
      (m : RiskMonitor) (clock : ℕ) (v : RiskViolation)
      → ((other : String)
          → v.agent_id ≢ other
          → violations_of (record_violation equal_fold m clock v).0.violations other
            ≡ violations_of m.violations other)
        × ((record_violation equal_fold m clock v).1 ≡ true
            → (violations_count (record_violation equal_fold m clock v).0 v.agent_id ≡ 0)
              × (length (record_violation equal_fold m clock v).0.actions ≡ suc (length m.actions)))
  unfolding record_violation
  record_violation-others m clock v =
      let now = if v.at_time == 0 then clock else v.at_time in
      let seen = violations_of m.violations v.agent_id ++ record v { at_time = now } ∷ [] in
      elim (Bool-cases (no_rules m.rules)) [
        | inl without ↦ (
          (λ other apart. rw (without, record_violation) refl),
          (λ fired. absurd (ground (arith, rw (without, record_violation) at fired))),
        )
        | inr rules ↦ (
          (λ other apart.
              rw (rules, record_violation)
                (violations_of-enforce m v.agent_id other (run_rules equal_fold now m.rules seen)
                  (str_apart v.agent_id other apart))),
          (λ fired.
              rw (rules, record_violation)
                (enforce-fired m v.agent_id (run_rules equal_fold now m.rules seen)
                  (rw (rules, record_violation) at fired))),
        )
      ]
