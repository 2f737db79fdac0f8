-- ===== src/Constraints/Window.antt =====
-- constraints.go and decision.go: times of day, and the window that the time-window constraint allows.
-- A text is given as its bytes; a zone as the instant of a time of day on the day of an instant.
use aic_verifier.Prelude.{
  ℕ, ◌+◌, ◌-◌, ◌*◌, ◌/◌, ◌%◌, ◌<◌, ◌≡◌, ◌≢◌, inl, inr, Bool, true, false, not, ◌&&◌, ◌||◌, Option,
  none, some, [], ◌∷◌, ltb, leb, ◌==◌, arith, Bool-cases, if◌then◌else◌,
}
use aic_verifier.Merkle.{Bytes}

-- a byte's difference wraps round
abbrev pub digit : ℕ → ℕ
digit b = (b + 256 - 48) % 256

abbrev pub in_day : ℕ → ℕ → Option (ℕ × ℕ)
in_day h m = if ltb 23 h || ltb 59 m then none else some (h, m)

-- hours and minutes of a text "HH:MM"; the bytes are not checked to be digits
unfoldable pub parse_time_parts : Bytes → Option (ℕ × ℕ)
parse_time_parts (a ∷ b ∷ c ∷ d ∷ e ∷ []) =
    if c == b':' then in_day (digit a * 10 + digit b) (digit d * 10 + digit e) else none
parse_time_parts s = none

-- the text of a time of day
abbrev pub time_text : ℕ → ℕ → Bytes
time_text h m = (48 + h / 10) ∷ (48 + h % 10) ∷ b':' ∷ (48 + m / 10) ∷ (48 + m % 10) ∷ []

two_digits : (n : ℕ) → n < 100 → digit (48 + n / 10) * 10 + digit (48 + n % 10) ≡ n
two_digits n h = omega arith

in_day-some : (h m : ℕ) → h < 24 → m < 60 → in_day h m ≡ some (h, m)
in_day-some h m a b = ground (arith, a, b)

in_day_bounds : (x y h m : ℕ) → in_day x y ≡ some (h, m) → (h < 24) × (m < 60)
in_day_bounds x y h m e = ground (arith, e)

read-text : (h m : ℕ) → h < 24 → m < 60 → parse_time_parts (time_text h m) ≡ some (h, m)
unfolding parse_time_parts
read-text h m a b =
    rw (two_digits h (omega arith)) (rw (two_digits m (omega arith)) (in_day-some h m a b))

read_bounds : (s : Bytes) (h m : ℕ) → parse_time_parts s ≡ some (h, m) → (h < 24) × (m < 60)
unfolding parse_time_parts
read_bounds [] h m e = absurd (ground (arith, e))
read_bounds (a ∷ []) h m e = absurd (ground (arith, e))
read_bounds (a ∷ b ∷ []) h m e = absurd (ground (arith, e))
read_bounds (a ∷ b ∷ c ∷ []) h m e = absurd (ground (arith, e))
read_bounds (a ∷ b ∷ c ∷ d ∷ []) h m e = absurd (ground (arith, e))
read_bounds (a ∷ b ∷ c ∷ d ∷ e ∷ f ∷ r) h m x = absurd (ground (arith, x))
read_bounds (a ∷ b ∷ c ∷ d ∷ e ∷ []) h m x = elim (Bool-cases (c == b':')) [
  | inr other ↦ absurd (ground (arith, x, other))
  | inl colon ↦
      in_day_bounds (digit a * 10 + digit b) (digit d * 10 + digit e) h m (ground (arith, x, colon))
]

non_digit :
    (k : ℕ)
    → k < 4
    → parse_time_parts (b'0' ∷ (58 + k) ∷ b':' ∷ b'0' ∷ b'0' ∷ []) ≡ some (10 + k, 0)
unfolding parse_time_parts
non_digit k a =
    let read : digit b'0' * 10 + digit (58 + k) ≡ 10 + k = omega arith in
    rw read (in_day-some (10 + k) 0 (omega arith) (omega arith))

-- Every time of day is read back from its text; whatever text is read gives a time of day; and any of
-- the four bytes after the digit 9, as the second byte of a text "0x:00", is read as the hours ten to
-- thirteen, so that texts that are no times are accepted.
pub parse_time_parts_lem :
    ((h m : ℕ) → h < 24 → m < 60 → parse_time_parts (time_text h m) ≡ some (h, m))
    × ((s : Bytes) (h m : ℕ) → parse_time_parts s ≡ some (h, m) → (h < 24) × (m < 60))
    × ((k : ℕ)
        → k < 4
        → parse_time_parts (b'0' ∷ (58 + k) ∷ b':' ∷ b'0' ∷ b'0' ∷ []) ≡ some (10 + k, 0))
parse_time_parts_lem = (read-text, read_bounds, non_digit)

-- `[start, end)`, over midnight where the end is before the start
unfoldable pub in_window : ℕ → ℕ → ℕ → Bool
in_window start end t =
    if leb start end then not (ltb t start) && ltb t end else not (ltb t start) || ltb t end

-- A window and the one from its end to its start split the times: just one of the two takes a time, where
-- start and end differ; a window with equal ends takes none; and a window takes its start, not its end.
pub in_window_lem :
    (start end t : ℕ)
    → (start ≢ end → in_window start end t ≡ not (in_window end start t))
      × (in_window start start t ≡ false)
      × (start ≢ end → (in_window start end start ≡ true) × (in_window start end end ≡ false))
unfolding in_window
in_window_lem start end t = (
  (λ apart. ground (arith, apart)),
  ground arith,
  (λ apart. (ground (arith, apart), ground (arith, apart))),
)
