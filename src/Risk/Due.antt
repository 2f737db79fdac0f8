-- ===== src/Risk/Due.antt =====
-- riskmonitor.go: when `RecordViolation` enforces a rule, in terms of the violations that it stores.
use mathlib.Core.List.{Sublistᴰ}
use aic_verifier.Prelude.{
  ℕ, ◌+◌, ◌≤◌, ◌≡◌, ◌↔◌, ◌⊎◌, ◌||◌, refl, sym, ap, ◌∙◌, inl, inr, String, Bool, true, List, [], ◌∷◌,
  ◌++◌, length, any, filter, Memᴰ, Memᴰ-filter, ◌==◌, str_eq, eq_iff, arith, Bool-cases,
  if◌then◌else◌,
}
use aic_verifier.Risk.{
  RiskViolation, RiskRule, RiskMonitor, violations_of, window_of, in_window, signal_in, rule_hit,
  record_violation,
}
use aic_verifier.Risk.Enforcement.{Narrowing, rule_holds, record_violation-any}

-- an item of a list that passes
abbrev Some {ℓ} : {A : Type ℓ} → (A → Bool) → List A → Type ℓ
Some {A = A} p xs = (x : A) × Memᴰ x xs × (p x ≡ true)

any-Some {ℓ} : {A : Type ℓ} (p : A → Bool) (xs : List A) → any p xs ≡ true → Some p xs
any-Some p [] h = absurd (ground (arith, h))
any-Some p (x ∷ xs) h = elim (Bool-cases (p x)) [
  | inl passes ↦ (x, Memᴰ.head refl, passes)
  | inr fails ↦
      let (y, m, passes) = any-Some p xs (ground (arith, h, fails)) in (y, Memᴰ.tail m, passes)
]

Some-any {ℓ} :
    {A : Type ℓ} (p : A → Bool) (x : A) (xs : List A) → Memᴰ x xs → p x ≡ true → any p xs ≡ true
Some-any p x [] m h = elim m [ ]
Some-any p x (y ∷ ys) m h = elim m [
  | Memᴰ.head same ↦ let own : p y ≡ true = ap p (sym same) ∙ h in ground (arith, own)
  | Memᴰ.tail n ↦ let later = Some-any p x ys n h in ground (arith, later)
]

module _ {ℓ} {A : Type ℓ} (p : A → Bool) where
  abbrev AllPass : List A → Type 0
  AllPass [] = Unit
  AllPass (x ∷ xs) = (p x ≡ true) × AllPass xs

  filter-AllPass : (xs : List A) → AllPass (filter p xs)
  filter-AllPass [] = tt
  filter-AllPass (x ∷ xs) = elim (Bool-cases (p x)) [
    | inl passes ↦ rw (passes, filter) (passes, filter-AllPass xs)
    | inr fails ↦ rw (fails, filter) (filter-AllPass xs)
  ]

  filter-Sublist : (xs : List A) → Sublistᴰ (filter p xs) xs
  filter-Sublist [] = Sublistᴰ.slnil
  filter-Sublist (x ∷ xs) = elim (Bool-cases (p x)) [
    | inl passes ↦ rw (passes, filter) (Sublistᴰ.cons-cons refl (filter-Sublist xs))
    | inr fails ↦ rw (fails, filter) (Sublistᴰ.cons (filter-Sublist xs))
  ]

  filter-one_more : (x : A) (xs : List A) → length (filter p xs) ≤ length (filter p (x ∷ xs))
  filter-one_more x xs = elim (Bool-cases (p x)) [
    | inl passes ↦ rw (passes, filter) (omega arith)
    | inr fails ↦ rw (fails, filter) (omega arith)
  ]

  -- a filter keeps at least as many as any sublist of items that pass
  length-filter : (ys xs : List A) → Sublistᴰ ys xs → AllPass ys → length ys ≤ length (filter p xs)
  length-filter [] xs sub h = omega arith
  length-filter (y ∷ ys) [] sub h = elim sub [ ]
  length-filter (y ∷ ys) (x ∷ xs) (Sublistᴰ.cons less) h =
      omega (arith, length-filter (y ∷ ys) xs less h, filter-one_more x xs)
  length-filter (y ∷ ys) (x ∷ xs) (Sublistᴰ.cons-cons same less) h =
      let passes : p x ≡ true = ap p (sym same) ∙ h.0 in
      let below = length-filter ys xs less h.1 in rw (passes, filter) (omega (arith, below))

  Memᴰ-kept : (x : A) (xs : List A) → Memᴰ x xs → p x ≡ true → Memᴰ x (filter p xs)
  Memᴰ-kept x [] m h = elim m [ ]
  Memᴰ-kept x (y ∷ ys) m h = elim m [
    | Memᴰ.head same ↦
        let own : p y ≡ true = ap p (sym same) ∙ h in rw (own, filter) (Memᴰ.head same)
    | Memᴰ.tail n ↦
        let later = Memᴰ-kept x ys n h in
        elim (Bool-cases (p y)) [
          | inl passes ↦ rw (passes, filter) (Memᴰ.tail later)
          | inr fails ↦ rw (fails, filter) later
        ]
  ]

module _ (equal_fold : String → String → Bool) where
  abbrev Within : ℕ → ℕ → List RiskViolation → Type 0
  Within now w [] = Unit
  Within now w (v ∷ vs) = (now ≤ v.at_time + w) × Within now w vs

  -- a rule is due over stored violations: one within its window has a signal of the rule, and so many as its
  -- threshold says are within its window
  pub record Due (now : ℕ) (stored : List RiskViolation) (rule : RiskRule) : Type 0 where
    pub matched : RiskViolation
    pub is_stored : Memᴰ matched stored
    pub is_recent : now ≤ matched.at_time + window_of rule
    pub signal : String
    pub of_rule : Memᴰ signal rule.signals
    pub same_signal : (signal ≡ "*") ⊎ (equal_fold signal matched.signal ≡ true)
    pub recent : List RiskViolation
    pub among : Sublistᴰ recent stored
    pub within : Within now (window_of rule) recent
    pub enough : rule.threshold ≤ length recent

  AllPass-Within :
      (now w : ℕ) (vs : List RiskViolation) → AllPass (in_window now w) vs → Within now w vs
  unfolding in_window
  AllPass-Within now w [] h = tt
  AllPass-Within now w (v ∷ vs) h = (ground (arith, h.0), AllPass-Within now w vs h.1)

  Within-AllPass :
      (now w : ℕ) (vs : List RiskViolation) → Within now w vs → AllPass (in_window now w) vs
  unfolding in_window
  Within-AllPass now w [] h = tt
  Within-AllPass now w (v ∷ vs) h = (ground (arith, h.0), Within-AllPass now w vs h.1)

  rule_holds-Due :
      (now : ℕ) (stored : List RiskViolation) (rule : RiskRule)
      → rule_holds equal_fold now stored rule ≡ true
      → Due now stored rule
  unfolding rule_hit signal_in in_window
  rule_holds-Due now stored rule h =
      let inside = in_window now (window_of rule) in
      let kept = filter inside stored in
      let (v, m, matches) =
        any-Some (λ (v : RiskViolation). signal_in equal_fold rule.signals v.signal) kept
          (ground (arith, h)) in
      let (old, recently) = Memᴰ-filter inside v stored m in
      let (s, n, same) =
        any-Some (λ s. str_eq s "*" || equal_fold s v.signal) rule.signals matches in
      record {
        matched = v;
        is_stored = old;
        is_recent = ground (arith, recently);
        signal = s;
        of_rule = n;
        same_signal = elim (Bool-cases (str_eq s "*")) [
          | inl any_signal ↦ inl ((eq_iff s "*").0 any_signal)
          | inr named ↦ inr (ground (arith, named, same))
        ];
        recent = kept;
        among = filter-Sublist inside stored;
        within = AllPass-Within now (window_of rule) kept (filter-AllPass inside stored);
        enough = ground (arith, h);
      }

  length-Memᴰ : (v : RiskViolation) (vs : List RiskViolation) → Memᴰ v vs → 1 ≤ length vs
  length-Memᴰ v [] m = elim m [ ]
  length-Memᴰ v (x ∷ vs) m = omega arith

  Due-rule_holds :
      (now : ℕ) (stored : List RiskViolation) (rule : RiskRule)
      → Due now stored rule
      → rule_holds equal_fold now stored rule ≡ true
  unfolding rule_hit signal_in in_window
  Due-rule_holds now stored rule d =
      let inside = in_window now (window_of rule) in
      let kept = Memᴰ-kept inside d.matched stored d.is_stored (ground (arith, d.is_recent)) in
      let signals =
        Some-any (λ s. str_eq s "*" || equal_fold s d.matched.signal) d.signal rule.signals
          d.of_rule
          (elim d.same_signal [
            | inl any_signal ↦ ground (arith, (eq_iff d.signal "*").1 any_signal)
            | inr named ↦ ground (arith, named)
          ]) in
      let matches =
        Some-any (λ (v : RiskViolation). signal_in equal_fold rule.signals v.signal) d.matched
          (filter inside stored) kept signals in
      let many =
        length-filter inside d.recent stored d.among
          (Within-AllPass now (window_of rule) d.recent d.within) in
      ground (arith, matches, many, d.enough, length-Memᴰ d.matched (filter inside stored) kept)

  -- Where no rule has a longer window than the one before it, a violation triggers an enforcement exactly
  -- if some rule is due over the violations that the monitor has stored for the agent and this one: one of
  -- them within the rule's window has one of its signals, and as many as its threshold are within that
  -- window. Earlier calls may have removed older violations from the stored ones.
  pub record_violation_iff :
      (m : RiskMonitor) (clock w : ℕ) (v : RiskViolation)
      → Narrowing equal_fold w m.rules
      → let now = if v.at_time == 0 then clock else v.at_time in
        ((record_violation equal_fold m clock v).1 ≡ true) ↔ (
          (rule : RiskRule) × Memᴰ rule m.rules
          × Due now (violations_of m.violations v.agent_id ++ record v { at_time = now } ∷ []) rule)
  record_violation_iff m clock w v narrow =
      let now = if v.at_time == 0 then clock else v.at_time in
      let stored = violations_of m.violations v.agent_id ++ record v { at_time = now } ∷ [] in
      let fires = record_violation-any equal_fold m clock w v narrow in
      (
        (λ h.
            let (rule, n, holds) =
              any-Some (rule_holds equal_fold now stored) m.rules (sym fires ∙ h) in
            (rule, n, rule_holds-Due now stored rule holds)),
        (λ (rule, n, due).
            fires
            ∙ Some-any (rule_holds equal_fold now stored) rule m.rules n
                (Due-rule_holds now stored rule due)),
      )
