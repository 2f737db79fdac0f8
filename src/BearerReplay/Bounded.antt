-- ===== src/BearerReplay/Bounded.antt =====
-- jwt.go: the size of the store of `memReplayStore` over a sequence of calls.
use aic_verifier.Prelude.{
  ℕ, ◌+◌, ◌≤◌, ◌≡◌, refl, String, true, false, List, [], ◌∷◌, arith, length, ltb, str_eq, eq_iff,
  if◌then◌else◌, Option-cases, Bool-cases, inl, inr, ◌∙◌, ◌==◌,
}
use aic_verifier.BearerReplay.{
  Seen, MemReplayStore, first_use, delete, purge, still_full, keep_bounded, record_new,
  check_and_add, new_replay_nonce_store,
}
use aic_verifier.BearerReplay.SingleUse.{Call, run_calls}

length-purge : (ttl now : ℕ) (l : Seen) → length (purge ttl now l) ≤ length l
unfolding purge
length-purge ttl now [] = omega arith
length-purge ttl now ((k, ts) ∷ l) = elim (Bool-cases (ltb (ts + ttl) now)) [
  | inl old ↦ rw old (omega (arith, length-purge ttl now l))
  | inr kept ↦ rw kept (omega (arith, length-purge ttl now l))
]

length-delete : (nonce : String) (l : Seen) → length (delete nonce l) ≤ length l
unfolding delete
length-delete nonce [] = omega arith
length-delete nonce ((k, ts) ∷ l) = elim (Bool-cases (str_eq k nonce)) [
  | inl hit ↦ rw hit (omega (arith, length-delete nonce l))
  | inr miss ↦ rw miss (omega (arith, length-delete nonce l))
]

-- The marker recorded last is not purged, so deleting it makes room.
length-delete-purge :
    (ttl now : ℕ) (nonce : String) (l : Seen)
    → length (delete nonce (purge ttl now ((nonce, now) ∷ l))) ≤ length l
unfolding delete purge
length-delete-purge ttl now nonce l =
    let fresh : ltb (now + ttl) now ≡ false = ground arith in
    let own : str_eq nonce nonce ≡ true = (eq_iff nonce nonce).1 refl in
    let shrunk = length-delete nonce (purge ttl now l) in
    rw fresh (rw own (omega (arith, shrunk, length-purge ttl now l)))

abbrev pub IsBounded : ℕ → MemReplayStore → Type 0
IsBounded n s = (s.max ≡ n) × (length s.seen ≤ n)

module _ (now : ℕ) (nonce : String) (s : MemReplayStore) (fits : length s.seen ≤ s.max) where
  still_full-IsBounded :
      IsBounded s.max (still_full nonce s (purge s.ttl now ((nonce, now) ∷ s.seen))).0
  unfolding still_full
  still_full-IsBounded =
      let left = purge s.ttl now ((nonce, now) ∷ s.seen) in
      elim (Bool-cases (ltb s.max (length left))) [
        | inl full ↦
            rw (full, still_full)
              (refl, omega (arith, fits, length-delete-purge s.ttl now nonce s.seen))
        | inr room ↦ rw (room, still_full) (refl, ground (arith, room))
      ]

  check_and_add-IsBounded : IsBounded s.max (check_and_add now nonce s).0
  unfolding check_and_add record_new keep_bounded
  check_and_add-IsBounded = elim (Bool-cases (str_eq nonce "")) [
    | inl nothing ↦ rw (nothing, check_and_add) (refl, fits)
    | inr given ↦
        rw (given, check_and_add)
          (elim (Option-cases (first_use nonce s.seen)) [
            | inr (ts, known) ↦ rw (known, record_new) (refl, fits)
            | inl fresh ↦
                rw (fresh, record_new)
                  (elim (Bool-cases (ltb s.max (length ((nonce, now) ∷ s.seen)))) [
                    | inl over ↦ rw (over, keep_bounded) still_full-IsBounded
                    | inr within ↦ rw (within, keep_bounded) (refl, ground (arith, within))
                  ])
          ])
  ]

pub run_calls-IsBounded :
    (n : ℕ) (cs : List Call) (s : MemReplayStore) → IsBounded n s → IsBounded n (run_calls cs s)
unfolding run_calls
run_calls-IsBounded n [] s h = h
run_calls-IsBounded n (c ∷ cs) s (m, fits) =
    let (m', fits') = check_and_add-IsBounded c.now c.nonce s (omega (arith, m, fits)) in
    run_calls-IsBounded n cs (check_and_add c.now c.nonce s).0 (m' ∙ m, omega (arith, m, fits'))

-- However it is called, a store made with a positive bound never holds more markers than that bound, and
-- one made with the bound zero never more than 65536.
pub replay_store_bounded :
    (ttl max : ℕ) (cs : List Call)
    → length (run_calls cs (new_replay_nonce_store ttl max)).seen
      ≤ (if max == 0 then 65_536 else max)
unfolding new_replay_nonce_store
replay_store_bounded ttl max cs =
    (run_calls-IsBounded (if max == 0 then 65_536 else max) cs (new_replay_nonce_store ttl max)
      (refl, omega arith)).1
