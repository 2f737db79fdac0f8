-- ===== src/Constraints/Recheck.antt =====
-- constraints.go: `ConstraintRecheckLoop`, over what its `select` receives: ticks, each at its time, and the
-- closing of `done`.
use aic_verifier.Prelude.{
  ℕ, String, ◌≡◌, ◌↔◌, ◌⊎◌, refl, sym, ap, ◌∙◌, Bool, true, false, Option, none, some, List, [],
  ◌∷◌, Memᴰ, arith, Bool-cases, Option-cases, inl, inr, if◌then◌else◌,
}
use aic_verifier.Model.{Capability}
use aic_verifier.Constraints.{
  ConstraintRegistry, Evaluator, ConstraintError, find, is_constraint_scheme, check_constraints_reg,
}

pub data LoopEvent : Type 0 where
  done : LoopEvent
  tick : ℕ → LoopEvent

-- the errors given to the callback, and whether the loop has returned
pub record LoopEnd : Type 0 where
  pub reported : List ConstraintError
  pub returned : Bool

module _ (reg : ConstraintRegistry) (aic pa : List Capability) (client_ip : String)
    (has_callback : Bool) where
  abbrev pub on_violation : ConstraintError → LoopEnd
  on_violation e = record { reported = if has_callback then e ∷ [] else []; returned = true }

  abbrev pub recheck_pa : Option ConstraintError → LoopEnd → LoopEnd
  recheck_pa (some e) rest = on_violation e
  recheck_pa none rest = rest

  abbrev pub recheck_aic : Option ConstraintError → Option ConstraintError → LoopEnd → LoopEnd
  recheck_aic (some e) of_pa rest = on_violation e
  recheck_aic none of_pa rest = recheck_pa of_pa rest

  unfoldable pub constraint_recheck_loop : List LoopEvent → LoopEnd
  constraint_recheck_loop [] = record { reported = []; returned = false }
  constraint_recheck_loop (done ∷ es) = record { reported = []; returned = true }
  constraint_recheck_loop (tick now ∷ es) =
      recheck_aic (check_constraints_reg reg aic client_ip now)
        (check_constraints_reg reg pa client_ip now) (constraint_recheck_loop es)

  -- a constraint that is not of the namespace, or that its evaluator does not accept
  abbrev pub Breaks : ℕ → Capability → Type 0
  Breaks now c =
      (is_constraint_scheme c.scheme_id ≡ false)
      ⊎ ((ev : Evaluator) × (find reg c.capability_id ≡ some ev) × (ev c client_ip now ≡ false))

  abbrev pub Broken : ℕ → Type 0
  Broken now = (c : Capability) × (Memᴰ c aic ⊎ Memᴰ c pa) × Breaks now c

  -- a tick at which a constraint of either set is broken comes before any closing of `done`, and before any
  -- other such tick
  pub data BreaksFirst : List LoopEvent → Type 0 where
    here : {now : ℕ} {es : List LoopEvent} → Broken now → BreaksFirst (tick now ∷ es)
    later :
        {now : ℕ} {es : List LoopEvent}
        → ¬ (Broken now)
        → BreaksFirst es
        → BreaksFirst (tick now ∷ es)

  error-Breaks :
      (now : ℕ) (cs : List Capability) (e : ConstraintError)
      → check_constraints_reg reg cs client_ip now ≡ some e
      → (c : Capability) × Memᴰ c cs × Breaks now c
  unfolding check_constraints_reg
  error-Breaks now [] e h = absurd (ground (arith, h))
  error-Breaks now (c ∷ cs) e h = elim (Bool-cases (is_constraint_scheme c.scheme_id)) [
    | inr foreign ↦ (c, Memᴰ.head refl, inl foreign)
    | inl ours ↦ elim (Option-cases (find reg c.capability_id)) [
      | inl unknown ↦
          let (d, m, breaks) = error-Breaks now cs e (ground (arith, h, ours, unknown)) in
          (d, Memᴰ.tail m, breaks)
      | inr (ev, known) ↦ elim (Bool-cases (ev c client_ip now)) [
        | inr fails ↦ (c, Memᴰ.head refl, inr (ev, known, fails))
        | inl holds ↦
            let (d, m, breaks) = error-Breaks now cs e (ground (arith, h, ours, known, holds)) in
            (d, Memᴰ.tail m, breaks)
      ]
    ]
  ]

  none-Breaks :
      (now : ℕ) (cs : List Capability) (c : Capability)
      → check_constraints_reg reg cs client_ip now ≡ none
      → Memᴰ c cs
      → ¬ (Breaks now c)
  unfolding check_constraints_reg
  none-Breaks now [] c h m b = elim m [ ]
  none-Breaks now (d ∷ cs) c h (Memᴰ.head same) (inl foreign) =
      let own : is_constraint_scheme d.scheme_id ≡ false =
        ap (λ (x : Capability). is_constraint_scheme x.scheme_id) (sym same) ∙ foreign in
      absurd (ground (arith, h, own))
  none-Breaks now (d ∷ cs) c h (Memᴰ.head same) (inr (ev, known, fails)) =
      let own : find reg d.capability_id ≡ some ev =
        ap (λ (x : Capability). find reg x.capability_id) (sym same) ∙ known in
      let refused : ev d client_ip now ≡ false =
        ap (λ (x : Capability). ev x client_ip now) (sym same) ∙ fails in
      elim (Bool-cases (is_constraint_scheme d.scheme_id)) [
        | inl ours ↦ absurd (ground (arith, h, own, refused, ours))
        | inr foreign ↦ absurd (ground (arith, h, foreign))
      ]
  none-Breaks now (d ∷ cs) c h (Memᴰ.tail m) b =
      none-Breaks now cs c
        (elim (Bool-cases (is_constraint_scheme d.scheme_id)) [
          | inr foreign ↦ absurd (ground (arith, h, foreign))
          | inl ours ↦ elim (Option-cases (find reg d.capability_id)) [
            | inl unknown ↦ ground (arith, h, ours, unknown)
            | inr (ev, known) ↦ elim (Bool-cases (ev d client_ip now)) [
              | inl holds ↦ ground (arith, h, ours, known, holds)
              | inr fails ↦ absurd (ground (arith, h, ours, known, fails))
            ]
          ]
        ])
        m b

  quiet :
      (now : ℕ)
      → check_constraints_reg reg aic client_ip now ≡ none
      → check_constraints_reg reg pa client_ip now ≡ none
      → ¬ (Broken now)
  quiet now h k (c, inl m, b) = none-Breaks now aic c h m b
  quiet now h k (c, inr m, b) = none-Breaks now pa c k m b

  -- the loop has returned after one call back
  abbrev pub CalledBack : LoopEnd → Type 0
  CalledBack end = (e : ConstraintError) × (end ≡ record { reported = e ∷ []; returned = true })

  module _ (with_callback : has_callback ≡ true) where
    on_violation-CalledBack : (e : ConstraintError) → CalledBack (on_violation e)
    on_violation-CalledBack e =
        (e, ap (λ b. record { reported = if b then e ∷ [] else []; returned = true }) with_callback)

    silent : (end : LoopEnd) → end.reported ≡ [] → ¬ (CalledBack end)
    silent end nothing (e, same) =
        ground (arith, sym nothing ∙ ap (λ (x : LoopEnd). x.reported) same)

    -- Where there is a callback: the loop calls back once, with an error, and returns, exactly if a tick at
    -- which a constraint of either set is broken (not of the namespace, or known and not accepted for the
    -- client at that time) comes before `done` is closed.
    pub recheck_iff :
        (es : List LoopEvent) → CalledBack (constraint_recheck_loop es) ↔ BreaksFirst es
    unfolding constraint_recheck_loop
    recheck_iff [] = ((λ h. absurd (silent _ refl h)), (λ h. elim h [ ]))
    recheck_iff (done ∷ es) = ((λ h. absurd (silent _ refl h)), (λ h. elim h [ ]))
    recheck_iff (tick now ∷ es) =
        let below = recheck_iff es in
        elim (Option-cases (check_constraints_reg reg aic client_ip now)) [
          | inr (e, broken) ↦
              let (c, m, b) = error-Breaks now aic e broken in
              (
                (λ h. here (c, inl m, b)),
                (λ h. rw (broken, constraint_recheck_loop) (on_violation-CalledBack e)),
              )
          | inl aic_holds ↦ elim (Option-cases (check_constraints_reg reg pa client_ip now)) [
            | inr (e, broken) ↦
                let (c, m, b) = error-Breaks now pa e broken in
                (
                  (λ h. here (c, inr m, b)),
                  (λ h.
                      rw (aic_holds, constraint_recheck_loop)
                        (rw (broken, constraint_recheck_loop) (on_violation-CalledBack e))),
                )
            | inl pa_holds ↦
                let fine = quiet now aic_holds pa_holds in
                let goes_on : constraint_recheck_loop (tick now ∷ es) ≡ constraint_recheck_loop es =
                  ap
                    (λ r.
                      recheck_aic r (check_constraints_reg reg pa client_ip now)
                        (constraint_recheck_loop es))
                    aic_holds
                  ∙ ap (λ r. recheck_pa r (constraint_recheck_loop es)) pa_holds in
                (
                  (λ (e, h). later fine (below.0 (e, sym goes_on ∙ h))),
                  (λ h. elim h [
                    | here broken ↦ absurd (fine broken)
                    | later _ rest ↦ let (e, called) = below.1 rest in (e, goes_on ∙ called)
                  ]),
                )
          ]
        ]
