-- ===== src/BearerReplay/SingleUse.antt =====
-- jwt.go: `memReplayStore.CheckAndAdd` over a sequence of calls, and what the store keeps.
use aic_verifier.Prelude.{
  ℕ, ◌+◌, ◌≤◌, ◌≡◌, refl, ap, ◌∙◌, sym, String, true, false, Option, none, some, List, [], ◌∷◌,
  arith, length, ltb, leb, all, str_eq, eq_iff, Option-cases, Bool-cases, inl, inr,
}
use aic_verifier.BearerReplay.{
  Seen, MemReplayStore, ReplayError, nonce_replayed, first_use, delete, purge, still_full,
  keep_bounded, record_new, check_and_add,
}

abbrev pub Pair : Type 0
Pair = MemReplayStore × Option ReplayError

-- Pruning what has lapsed keeps the first use of a nonce whose lifetime lasts.
first_use-purge :
    (ttl now : ℕ) (nonce : String) (ts : ℕ) (l : Seen)
    → now ≤ ts + ttl
    → first_use nonce l ≡ some ts
    → first_use nonce (purge ttl now l) ≡ some ts
unfolding first_use purge
first_use-purge ttl now nonce ts [] live h = h
first_use-purge ttl now nonce ts ((k, t) ∷ l) live h = elim (Bool-cases (str_eq k nonce)) [
  | inl same ↦
      let own : t ≡ ts = ground (arith, same) in
      let fresh : ltb (t + ttl) now ≡ false = ground (arith, own) in
      rw fresh (rw same (ap some own))
  | inr apart ↦
      let later = first_use-purge ttl now nonce ts l live (ground (arith, apart)) in
      elim (Bool-cases (ltb (t + ttl) now)) [
        | inl old ↦ rw old later
        | inr kept ↦ rw kept (rw apart later)
      ]
]

first_use-delete :
    (other nonce : String) (ts : ℕ) (l : Seen)
    → str_eq other nonce ≡ false
    → first_use nonce l ≡ some ts
    → first_use nonce (delete other l) ≡ some ts
unfolding first_use delete
first_use-delete other nonce ts [] apart h = h
first_use-delete other nonce ts ((k, t) ∷ l) apart h = elim (Bool-cases (str_eq k nonce)) [
  | inl same ↦
      let key : k ≡ nonce = (eq_iff k nonce).0 same in
      elim (Bool-cases (str_eq k other)) [
        | inl hit ↦
            absurd
              (ground (arith, apart, (eq_iff other nonce).1 (sym ((eq_iff k other).0 hit) ∙ key)))
        | inr miss ↦ rw miss (rw same (ground (arith, same)))
      ]
  | inr differ ↦
      let later = first_use-delete other nonce ts l apart (ground (arith, differ)) in
      elim (Bool-cases (str_eq k other)) [
        | inl hit ↦ rw hit later
        | inr miss ↦ rw miss (rw differ later)
      ]
]

-- a marker that the store holds, of the given lifetime
abbrev pub Holds : String → ℕ → ℕ → MemReplayStore → Type 0
Holds nonce ts ttl s = (first_use nonce s.seen ≡ some ts) × (s.ttl ≡ ttl)

module _ (now : ℕ) (other nonce : String) (ts : ℕ) where
  still_full-Holds :
      (ttl : ℕ) (s : MemReplayStore) (left : Seen)
      → str_eq other nonce ≡ false
      → first_use nonce left ≡ some ts
      → s.ttl ≡ ttl
      → Holds nonce ts ttl (still_full other s left).0
  unfolding still_full
  still_full-Holds ttl s left apart h e = elim (Bool-cases (ltb s.max (length left))) [
    | inl full ↦ rw (full, still_full) (first_use-delete other nonce ts left apart h, e)
    | inr room ↦ rw (room, still_full) (h, e)
  ]

  keep_bounded-Holds :
      (s : MemReplayStore) (l : Seen)
      → str_eq other nonce ≡ false
      → now ≤ ts + s.ttl
      → first_use nonce l ≡ some ts
      → Holds nonce ts s.ttl (keep_bounded now other s l).0
  unfolding keep_bounded
  keep_bounded-Holds s l apart live h = elim (Bool-cases (ltb s.max (length l))) [
    | inl over ↦
        rw (over, keep_bounded)
          (still_full-Holds s.ttl s (purge s.ttl now l) apart
            (first_use-purge s.ttl now nonce ts l live h) refl)
    | inr within ↦ rw (within, keep_bounded) (h, refl)
  ]

  -- No call within the marker's lifetime removes it.
  pub check_and_add-Holds :
      (s : MemReplayStore)
      → now ≤ ts + s.ttl
      → first_use nonce s.seen ≡ some ts
      → Holds nonce ts s.ttl (check_and_add now other s).0
  unfolding check_and_add record_new
  check_and_add-Holds s live h = elim (Bool-cases (str_eq other "")) [
    | inl nothing ↦ rw (nothing, check_and_add) (h, refl)
    | inr given ↦
        rw (given, check_and_add)
          (elim (Option-cases (first_use other s.seen)) [
            | inr (t, known) ↦ rw (known, record_new) (h, refl)
            | inl fresh ↦
                rw (fresh, record_new)
                  (elim (Bool-cases (str_eq other nonce)) [
                    | inl same ↦
                        let key : other ≡ nonce = (eq_iff other nonce).0 same in
                        absurd (cc (ap (λ k. first_use k s.seen) key, fresh, h))
                    | inr apart ↦
                        keep_bounded-Holds s ((other, now) ∷ s.seen) apart live
                          (unfold first_use in rw apart h)
                  ])
          ])
  ]

module _ (t : ℕ) (nonce : String) (s : MemReplayStore) where
  recorded-Holds :
      (l : Seen)
      → first_use nonce l ≡ some t
      → (keep_bounded t nonce s l).1 ≡ none
      → Holds nonce t s.ttl (keep_bounded t nonce s l).0
  unfolding keep_bounded still_full
  recorded-Holds l h = elim (Bool-cases (ltb s.max (length l))) [
    | inr within ↦ rw (within, keep_bounded) (λ _. (h, refl))
    | inl over ↦
        rw (over, keep_bounded)
          (elim (Bool-cases (ltb s.max (length (purge s.ttl t l)))) [
            | inl full ↦ rw (full, still_full) (λ refused. absurd (ground (arith, refused)))
            | inr room ↦
                rw (room, still_full)
                  (λ _. (first_use-purge s.ttl t nonce t l (omega arith) h, refl))
          ])
  ]

  -- An accepted nonce is not empty, and the store holds its marker.
  pub accepted-Holds :
      (check_and_add t nonce s).1 ≡ none
      → (str_eq nonce "" ≡ false) × Holds nonce t s.ttl (check_and_add t nonce s).0
  unfolding check_and_add record_new
  accepted-Holds = elim (Bool-cases (str_eq nonce "")) [
    | inl nothing ↦ rw (nothing, check_and_add) (λ h. absurd (ground (arith, h)))
    | inr given ↦
        rw (given, check_and_add)
          (elim (Option-cases (first_use nonce s.seen)) [
            | inr (ts, known) ↦ rw (known, record_new) (λ h. absurd (ground (arith, h)))
            | inl fresh ↦
                rw (fresh, record_new)
                  (λ h. (
                    refl,
                    recorded-Holds ((nonce, t) ∷ s.seen)
                        (unfold first_use in rw ((eq_iff nonce nonce).1 refl) refl) h,
                  ))
          ])
  ]

-- a call of `CheckAndAdd`
pub record Call : Type 0 where
  pub now : ℕ
  pub nonce : String

unfoldable pub run_calls : List Call → MemReplayStore → MemReplayStore
run_calls [] s = s
run_calls (c ∷ cs) s = run_calls cs (check_and_add c.now c.nonce s).0

pub run_calls-Holds :
    (nonce : String) (ts ttl : ℕ) (cs : List Call) (s : MemReplayStore)
    → all (λ (c : Call). leb c.now (ts + ttl)) cs ≡ true
    → Holds nonce ts ttl s
    → Holds nonce ts ttl (run_calls cs s)
unfolding run_calls
run_calls-Holds nonce ts ttl [] s early h = h
run_calls-Holds nonce ts ttl (c ∷ cs) s early (h, e) =
    let live : c.now ≤ ts + s.ttl = ground (arith, early, e) in
    let (h', e') = check_and_add-Holds c.now c.nonce nonce ts s live h in
    run_calls-Holds nonce ts ttl cs (check_and_add c.now c.nonce s).0 (ground (arith, early))
      (h', e' ∙ e)

pub held_refused :
    (now t : ℕ) (nonce : String) (s : MemReplayStore)
    → str_eq nonce "" ≡ false
    → first_use nonce s.seen ≡ some t
    → (check_and_add now nonce s).1 ≡ some (nonce_replayed t)
unfolding check_and_add record_new
held_refused now t nonce s given h = rw (given, check_and_add) (rw (h, record_new) refl)

-- After a nonce is accepted at a time, and whatever calls are made at times up to that time plus the
-- lifetime of the store, a call with the same nonce is refused as a replay that names the first use.
pub single_use :
    (t now : ℕ) (nonce : String) (s : MemReplayStore) (between : List Call)
    → (check_and_add t nonce s).1 ≡ none
    → all (λ (c : Call). leb c.now (t + s.ttl)) between ≡ true
    → (check_and_add now nonce (run_calls between (check_and_add t nonce s).0)).1
      ≡ some (nonce_replayed t)
single_use t now nonce s between h early =
    let (given, held) = accepted-Holds t nonce s h in
    let kept = run_calls-Holds nonce t s.ttl between (check_and_add t nonce s).0 early held in
    held_refused now t nonce (run_calls between (check_and_add t nonce s).0) given kept.0
