-- ===== src/AuditLog/Search.antt =====
-- audit.go: `FindStartOffsetByTime`, the binary search for the offset at which a query starts to read. Of
-- a read at an offset only the bytes from there on matter. The loop runs on fuel.
pub mod Lines
pub mod Sound
use aic_verifier.Prelude.{
  ℕ, zero, suc, ◌+◌, ◌-◌, ◌/◌, ◌<◌, ◌≤◌, ◌≡◌, refl, Bool, true, false, Option, none, some, List, [],
  ◌∷◌, length, drop, ltb, ◌==◌, arith, if◌then◌else◌, Option-cases, Bool-cases, inl, inr, ◌⊎◌,
}
use aic_verifier.Merkle.{Bytes}
use aic_verifier.AuditLog.{AuditEntry, LogLib, until_newline}

-- what one round does: `hi = (lo + hi) / 2`, or `lo` becomes the number
pub data Probe : Type 0 where
  lower : Probe
  upper : ℕ → Probe

pub Probe-cases : (p : Probe) → (p ≡ lower) ⊎ ((n : ℕ) × (p ≡ upper n))
Probe-cases lower = inl refl
Probe-cases (upper n) = inr (n, refl)

-- how many bytes stand up to and with the first newline, and the bytes after them
unfoldable pub skip_line : Bytes → ℕ × Bytes
skip_line [] = (0, [])
skip_line (b ∷ bs) =
    let later = skip_line bs in if b == 10 then (1, bs) else (suc (later.0), later.1)

module _ (lib : LogLib) (target : ℕ) where
  -- of a line that stops at an offset
  abbrev pub probe_time : ℕ → Option ℕ → Probe
  probe_time stop none = upper (stop + 1)
  probe_time stop (some t) = if ltb t target then upper (stop + 1) else lower

  abbrev pub probe_entry : ℕ → Option AuditEntry → Probe
  probe_entry stop none = upper (stop + 1)
  probe_entry stop (some e) = probe_time stop (lib.parse_time e.time)

  -- of a line that starts at an offset, in the round with the given middle
  abbrev pub probe_line : ℕ → ℕ → Bytes → Probe
  probe_line mid start [] = upper (mid + 1)
  probe_line mid start (b ∷ line) =
      probe_entry (start + length (b ∷ line)) (lib.unmarshal (b ∷ line))

  abbrev pub probe_rest : ℕ → ℕ → Bytes → Probe
  probe_rest mid start [] = lower
  probe_rest mid start (b ∷ bs) = probe_line mid start (until_newline (b ∷ bs))

  unfoldable pub probe : Bytes → ℕ → Probe
  probe file mid =
      let passed = skip_line (drop mid file) in probe_rest mid (mid + passed.0) passed.1

  -- none when the fuel runs out
  unfoldable pub search : Bytes → ℕ → ℕ → ℕ → Option ℕ
  search file zero lo hi = none
  search file (suc fuel) lo hi = elim (ltb lo hi) [
    | false ↦ some lo
    | true ↦ elim (probe file ((lo + hi) / 2)) [
      | lower ↦ search file fuel lo ((lo + hi) / 2)
      | upper next ↦ search file fuel next hi
    ]
  ]

  -- every round leaves a smaller interval, so the size of the file is enough fuel
  unfoldable pub find_start_offset : Bytes → Option ℕ
  find_start_offset file = search file (suc (length file)) 0 (length file)

  abbrev Above : ℕ → Probe → Type 0
  Above mid lower = Unit
  Above mid (upper next) = mid < next

  probe_time-Above : (mid stop : ℕ) (t : Option ℕ) → mid ≤ stop → Above mid (probe_time stop t)
  probe_time-Above mid stop none h = omega arith
  probe_time-Above mid stop (some t) h = elim (Bool-cases (ltb t target)) [
    | inl early ↦ rw early (omega arith)
    | inr late ↦ rw late tt
  ]

  probe_entry-Above :
      (mid stop : ℕ) (e : Option AuditEntry) → mid ≤ stop → Above mid (probe_entry stop e)
  probe_entry-Above mid stop none h = omega arith
  probe_entry-Above mid stop (some e) h = probe_time-Above mid stop (lib.parse_time e.time) h

  probe_line-Above : (mid start : ℕ) (l : Bytes) → mid ≤ start → Above mid (probe_line mid start l)
  probe_line-Above mid start [] h = omega arith
  probe_line-Above mid start (b ∷ l) h =
      probe_entry-Above mid (start + length (b ∷ l)) (lib.unmarshal (b ∷ l)) (omega arith)

  probe_rest-Above :
      (mid start : ℕ) (bs : Bytes) → mid ≤ start → Above mid (probe_rest mid start bs)
  probe_rest-Above mid start [] h = tt
  probe_rest-Above mid start (b ∷ bs) h = probe_line-Above mid start (until_newline (b ∷ bs)) h

  probe-Above : (file : Bytes) (mid : ℕ) → Above mid (probe file mid)
  unfolding probe
  probe-Above file mid =
      let passed = skip_line (drop mid file) in
      probe_rest-Above mid (mid + passed.0) passed.1 (omega arith)

  upper-lt : (mid next : ℕ) (p : Probe) → p ≡ upper next → Above mid p → mid < next
  upper-lt mid next lower e above = absurd (ground arith)
  upper-lt mid next (upper n) e above = ground (arith, e, above)

  search-some :
      (file : Bytes) (fuel lo hi : ℕ)
      → 0 < fuel
      → hi < lo + fuel
      → (r : ℕ) × (search file fuel lo hi ≡ some r)
  unfolding search
  search-some file zero lo hi some_fuel h = elim some_fuel [ ]
  search-some file (suc fuel) lo hi some_fuel h = elim (Bool-cases (ltb lo hi)) [
    | inr done ↦ (lo, rw (done, search) refl)
    | inl open_ ↦
        let mid = (lo + hi) / 2 in
        elim (Probe-cases (probe file mid)) [
          | inl shrunk ↦
              let (r, found) =
                search-some file fuel lo mid (ground (arith, open_)) (ground (arith, open_)) in
              (r, rw (open_, search) (rw (shrunk, search) found))
          | inr (next, raised) ↦
              let further : mid < next =
                upper-lt mid next (probe file mid) raised (probe-Above file mid) in
              let (r, found) =
                search-some file fuel next hi (ground (arith, open_))
                  (ground (arith, open_, further)) in
              (r, rw (open_, search) (rw (raised, search) found))
        ]
  ]

  -- The search ends on every file, whatever its bytes are: with as many rounds as the file has bytes, and
  -- one more, it finds an offset.
  pub search_ends : (file : Bytes) → (r : ℕ) × (find_start_offset file ≡ some r)
  unfolding find_start_offset
  search_ends file =
      search-some file (suc (length file)) 0 (length file) (omega arith) (omega arith)
