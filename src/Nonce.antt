-- ===== src/Nonce.antt =====
-- nonce_cache.go: the replay cache of DelegationAuthorization nonces. Each call of `CheckAndAdd` is one
-- `LoadOrStore`, so a run of the cache is a sequence of calls; times are in nanoseconds.
use aic_verifier.Prelude.{
  ℕ, ◌+◌, ◌≤◌, ◌≡◌, refl, ap, ◌∙◌, String, Bool, true, false, Option, none, some, List, [], ◌∷◌,
  arith, length, ltb, bytes_equal, bytes_equal_refl, bytes_equal→eq, str_eq, eq_iff, if◌then◌else◌,
  Option-cases, Bool-cases, inl, inr,
}
use aic_verifier.Merkle.{Bytes}

pub record NonceEntry : Type 0 where
  pub scope : String
  pub seen : ℕ

-- the `sync.Map`, from the nonce's bytes
abbrev pub NonceCache : Type 0
NonceCache = List (Bytes × NonceEntry)

unfoldable pub load : Bytes → NonceCache → Option NonceEntry
load key [] = none
load key ((k, e) ∷ rest) = if bytes_equal k key then some e else load key rest

unfoldable pub check_and_add : NonceCache → ℕ → String → Bytes → NonceCache × Bool
check_and_add nc now scope [] = (nc, false)
check_and_add nc now scope (b ∷ nonce) = elim (load (b ∷ nonce) nc) [
  | none ↦ ((b ∷ nonce, record { scope = scope; seen = now }) ∷ nc, true)
  | some e ↦ (nc, str_eq e.scope scope)
]

abbrev pub day : ℕ
day = 86_400_000_000_000

-- `e.seen.Before(deadline)` with the deadline a day before `now`
unfoldable pub cleanup : ℕ → NonceCache → NonceCache
cleanup now [] = []
cleanup now ((k, e) ∷ rest) =
    let kept = cleanup now rest in if ltb (e.seen + day) now then kept else (k, e) ∷ kept

unfoldable pub len : NonceCache → ℕ
len nc = length nc

-- Once a nonce is accepted for a certificate, the cache holds it under that certificate's scope.
pub load-check_and_add :
    (nc : NonceCache) (now : ℕ) (scope : String) (nonce : Bytes)
    → (check_and_add nc now scope nonce).1 ≡ true
    → (e : NonceEntry) × (load nonce (check_and_add nc now scope nonce).0 ≡ some e)
      × (e.scope ≡ scope)
unfolding check_and_add
load-check_and_add nc now scope [] h = absurd (ground arith)
load-check_and_add nc now scope (b ∷ n) h = elim (Option-cases (load (b ∷ n) nc)) [
  | inl fresh ↦
      rw (fresh, check_and_add)
        (record { scope = scope; seen = now }, unfold load in rw (bytes_equal_refl (b ∷ n)), refl)
  | inr (e, known) ↦
      let same : e.scope ≡ scope = (eq_iff e.scope scope).0 (ground (arith, known)) in
      rw (known, check_and_add) (e, known, same)
]

-- a stored entry is never replaced
pub load-kept :
    (nc : NonceCache) (now : ℕ) (scope : String) (nonce other : Bytes) (e : NonceEntry)
    → load other nc ≡ some e
    → load other (check_and_add nc now scope nonce).0 ≡ some e
unfolding check_and_add
load-kept nc now scope [] other e h = h
load-kept nc now scope (b ∷ n) other e h = elim (Option-cases (load (b ∷ n) nc)) [
  | inr (x, known) ↦ rw (known, check_and_add) h
  | inl fresh ↦
      rw (fresh, check_and_add)
        (elim (Bool-cases (bytes_equal (b ∷ n) other)) [
          | inl same ↦
              let key : b ∷ n ≡ other = bytes_equal→eq (b ∷ n) other same in
              absurd (cc (ap (λ k. load k nc) key, fresh, h))
          | inr apart ↦ unfold load in rw apart h
        ])
]

decided :
    (nc : NonceCache) (now : ℕ) (other : String) (b : ℕ) (n : Bytes) (e : NonceEntry)
    → load (b ∷ n) nc ≡ some e
    → (check_and_add nc now other (b ∷ n)).1 ≡ str_eq e.scope other
unfolding check_and_add
decided nc now other b n e h = rw (h, check_and_add)

-- a call of `CheckAndAdd`
pub record Call : Type 0 where
  pub now : ℕ
  pub scope : String
  pub nonce : Bytes

unfoldable pub run_calls : NonceCache → List Call → NonceCache
run_calls nc [] = nc
run_calls nc (c ∷ cs) = run_calls (check_and_add nc c.now c.scope c.nonce).0 cs

pub load-run_calls :
    (nc : NonceCache) (cs : List Call) (nonce : Bytes) (e : NonceEntry)
    → load nonce nc ≡ some e
    → load nonce (run_calls nc cs) ≡ some e
unfolding run_calls
load-run_calls nc [] nonce e h = h
load-run_calls nc (c ∷ cs) nonce e h =
    load-run_calls (check_and_add nc c.now c.scope c.nonce).0 cs nonce e
      (load-kept nc c.now c.scope c.nonce nonce e h)

-- After a nonce has been accepted for one certificate, and whatever calls come in between as long as
-- no clean-up runs, it is accepted again exactly for that certificate's scope.
pub replay_decided :
    (nc : NonceCache) (t now : ℕ) (scope other : String) (nonce : Bytes) (between : List Call)
    → (check_and_add nc t scope nonce).1 ≡ true
    → (check_and_add (run_calls (check_and_add nc t scope nonce).0 between) now other nonce).1
      ≡ str_eq scope other
replay_decided nc t now scope other [] between h = absurd (unfold check_and_add in ground arith)
replay_decided nc t now scope other (b ∷ n) between h =
    let (e, held, owner) = load-check_and_add nc t scope (b ∷ n) h in
    let kept = load-run_calls (check_and_add nc t scope (b ∷ n)).0 between (b ∷ n) e held in
    let after = run_calls (check_and_add nc t scope (b ∷ n)).0 between in
    decided after now other b n e kept ∙ ap (λ s. str_eq s other) owner

-- A clean-up keeps what was seen within the last day, so a replay stays refused for that long.
pub load-cleanup :
    (nc : NonceCache) (now : ℕ) (nonce : Bytes) (e : NonceEntry)
    → now ≤ e.seen + day
    → load nonce nc ≡ some e
    → load nonce (cleanup now nc) ≡ some e
unfolding load cleanup
load-cleanup [] now nonce e young h = h
load-cleanup ((k, x) ∷ rest) now nonce e young h = elim (Bool-cases (bytes_equal k nonce)) [
  | inl same ↦
      let own : x ≡ e = ground (arith, same) in
      let seen : x.seen ≡ e.seen = ap (λ (y : NonceEntry). y.seen) own in
      let fresh : ltb (x.seen + day) now ≡ false = ground (arith, seen) in
      rw fresh (rw same (ap some own))
  | inr apart ↦
      let later = load-cleanup rest now nonce e young (ground (arith, apart)) in
      elim (Bool-cases (ltb (x.seen + day) now)) [
        | inl old ↦ rw old later
        | inr kept ↦ rw kept (rw apart later)
      ]
]
