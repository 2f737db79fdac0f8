-- ===== src/BearerReplay.antt =====
-- jwt.go: `memReplayStore`, the store of the bearer tokens' one-time nonces. A call holds the lock, so a
-- run of the store is a sequence of calls. Times and durations are numbers, and a zero duration or bound
-- stands for what `NewReplayNonceStore` replaces by its default.
pub mod SingleUse
pub mod Bounded
use aic_verifier.Prelude.{
  ℕ, ◌+◌, String, Option, none, some, List, [], ◌∷◌, length, ltb, ◌==◌, str_eq, if◌then◌else◌,
}

-- the map from a nonce to the time of its first use, with no key twice
abbrev pub Seen : Type 0
Seen = List (String × ℕ)

pub record MemReplayStore : Type 0 where
  pub seen : Seen
  pub ttl : ℕ
  pub max : ℕ

pub data ReplayError : Type 0 where
  empty_nonce : ReplayError
  nonce_replayed : ℕ → ReplayError
  at_capacity : ℕ → ReplayError

-- in seconds
unfoldable pub new_replay_nonce_store : ℕ → ℕ → MemReplayStore
new_replay_nonce_store ttl max = record {
  seen = [];
  ttl = if ttl == 0 then 86_400 else ttl;
  max = if max == 0 then 65_536 else max;
}

unfoldable pub first_use : String → Seen → Option ℕ
first_use nonce [] = none
first_use nonce ((k, ts) ∷ rest) = if str_eq k nonce then some ts else first_use nonce rest

unfoldable pub delete : String → Seen → Seen
delete nonce [] = []
delete nonce ((k, ts) ∷ rest) =
    let kept = delete nonce rest in if str_eq k nonce then kept else (k, ts) ∷ kept

-- `ts.Before(now.Add(-ttl))`, with both sides moved by the duration
unfoldable pub purge : ℕ → ℕ → Seen → Seen
purge ttl now [] = []
purge ttl now ((k, ts) ∷ rest) =
    let kept = purge ttl now rest in if ltb (ts + ttl) now then kept else (k, ts) ∷ kept

-- after the purge, of what it has left
unfoldable pub still_full : String → MemReplayStore → Seen → MemReplayStore × Option ReplayError
still_full nonce s left =
    if ltb s.max (length left)
    then (record s { seen = delete nonce left }, some (at_capacity s.max))
    else (record s { seen = left }, none)

-- with the nonce recorded
unfoldable pub keep_bounded :
    ℕ → String → MemReplayStore → Seen → MemReplayStore × Option ReplayError
keep_bounded now nonce s recorded =
    if ltb s.max (length recorded)
    then still_full nonce s (purge s.ttl now recorded)
    else (record s { seen = recorded }, none)

unfoldable pub record_new :
    ℕ → String → MemReplayStore → Option ℕ → MemReplayStore × Option ReplayError
record_new now nonce s (some ts) = (s, some (nonce_replayed ts))
record_new now nonce s none = keep_bounded now nonce s ((nonce, now) ∷ s.seen)

-- the store after the call, and the error
unfoldable pub check_and_add : ℕ → String → MemReplayStore → MemReplayStore × Option ReplayError
check_and_add now nonce s =
    if str_eq nonce ""
    then (s, some empty_nonce)
    else record_new now nonce s (first_use nonce s.seen)
