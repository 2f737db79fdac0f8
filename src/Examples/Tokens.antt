-- ===== src/Examples/Tokens.antt =====
-- The theorems on the replay store of the bearer tokens at a store of two markers.
use aic_verifier.Prelude.{
  ℕ, ◌≤◌, ◌≡◌, refl, String, none, some, [], ◌∷◌, length, ◌==◌, if◌then◌else◌,
}
use aic_verifier.BearerReplay.{
  MemReplayStore, nonce_replayed, at_capacity, new_replay_nonce_store, check_and_add, first_use,
  delete, purge, keep_bounded, still_full, record_new,
}
use aic_verifier.BearerReplay.SingleUse.{Call, run_calls, single_use}
use aic_verifier.BearerReplay.Bounded.{replay_store_bounded}

abbrev small_store : MemReplayStore
small_store = record { seen = ("n-0", 5) ∷ []; ttl = 100; max = 2 }

abbrev call : ℕ → String → Call
call now nonce = record { now = now; nonce = nonce }

accepted : (check_and_add 90 "n-1" small_store).1 ≡ none
unfolding check_and_add record_new first_use keep_bounded
accepted = refl

-- The store is full at 95, and at 110 the first marker has lapsed.
third_refused :
    (check_and_add 95 "n-2" (check_and_add 90 "n-1" small_store).0).1 ≡ some (at_capacity 2)
unfolding check_and_add record_new first_use keep_bounded still_full purge delete
third_refused = refl

third_accepted : (check_and_add 110 "n-2" (check_and_add 90 "n-1" small_store).0).1 ≡ none
unfolding check_and_add record_new first_use keep_bounded still_full purge delete
third_accepted = refl

single_use_example :
    (check_and_add 300 "n-1" (
      run_calls
        (call 95 "n-2" ∷ call 110 "n-2" ∷ call 115 "n-1" ∷ [])
        (check_and_add 90 "n-1" small_store).0)).1
    ≡ some (nonce_replayed 90)
single_use_example =
    single_use 90 300 "n-1" small_store (call 95 "n-2" ∷ call 110 "n-2" ∷ call 115 "n-1" ∷ [])
      accepted refl

replay_store_bounded_example :
    length
      (run_calls
        (call 1 "n-1" ∷ call 2 "n-2" ∷ call 3 "n-3" ∷ [])
        (new_replay_nonce_store 100 2)).seen
    ≤ (if 2 == 0 then 65_536 else 2)
replay_store_bounded_example =
    replay_store_bounded 100 2 (call 1 "n-1" ∷ call 2 "n-2" ∷ call 3 "n-3" ∷ [])
