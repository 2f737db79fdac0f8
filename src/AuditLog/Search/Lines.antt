-- ===== src/AuditLog/Search/Lines.antt =====
-- audit.go: where a round of `FindStartOffsetByTime` stands in a file of lines.
use aic_verifier.Prelude.{
  ℕ, zero, suc, ◌+◌, ◌≡◌, refl, ap, Bool, true, false, not, List, [], ◌∷◌, ◌++◌, length, drop, leb,
  all, ◌==◌, arith, ◌⊎◌, inl, inr, length-append,
}
use aic_verifier.Merkle.{Bytes}
use aic_verifier.AuditLog.{AuditEntry, until_newline}
use aic_verifier.AuditLog.Search.{skip_line}

-- a line, its entry and the time of it
pub record Logged : Type 0 where
  pub text : Bytes
  pub entry : AuditEntry
  pub at : ℕ

abbrev pub file_of : List Logged → Bytes
file_of [] = []
file_of (l ∷ ls) = l.text ++ 10 ∷ file_of ls

abbrev pub no_newline : Bytes → Bool
no_newline = all (λ b. not (b == 10))

abbrev pub InOrder : List Logged → Type 0
InOrder [] = Unit
InOrder (l ∷ ls) = (all (λ (x : Logged). leb l.at x.at) ls ≡ true) × InOrder ls

pub all-middle :
    (p : Logged → Bool) (pre : List Logged) (l : Logged) (post : List Logged)
    → all p (pre ++ l ∷ post) ≡ true
    → p l ≡ true
all-middle p [] l post h = ground (arith, h)
all-middle p (x ∷ pre) l post h = all-middle p pre l post (ground (arith, h))

skip_line-text :
    (w rest : Bytes) → no_newline w ≡ true → skip_line (w ++ 10 ∷ rest) ≡ (suc (length w), rest)
unfolding skip_line
skip_line-text [] rest h = refl
skip_line-text (b ∷ w) rest h =
    let here : (b == 10) ≡ false = ground (arith, h) in
    let below = skip_line-text w rest (ground (arith, h)) in
    rw (here, skip_line) (rw (below, skip_line) refl)

pub until_newline-text : (w rest : Bytes) → no_newline w ≡ true → until_newline (w ++ 10 ∷ rest) ≡ w
unfolding until_newline
until_newline-text [] rest h = refl
until_newline-text (b ∷ w) rest h =
    let here : (b == 10) ≡ false = ground (arith, h) in
    rw (here, until_newline) (ap (λ r. b ∷ r) (until_newline-text w rest (ground (arith, h))))

-- inside a line or at its newline, or behind it
abbrev Dropped : Bytes → Bytes → ℕ → Type 0
Dropped w rest m =
    ((v : Bytes) × (no_newline v ≡ true)
      × (drop m (w ++ 10 ∷ rest) ≡ v ++ 10 ∷ rest)
      × (m + length v ≡ length w))
    ⊎ ((n : ℕ) × (m ≡ length w + 1 + n) × (drop m (w ++ 10 ∷ rest) ≡ drop n rest))

drop-cases : (w rest : Bytes) (m : ℕ) → no_newline w ≡ true → Dropped w rest m
drop-cases w rest zero h = inl (w, h, refl, omega arith)
drop-cases [] rest (suc m) h = inr (m, omega arith, refl)
drop-cases (b ∷ w) rest (suc m) h = elim (drop-cases w rest m (ground (arith, h))) [
  | inl (v, clean, same, size) ↦ inl (v, clean, same, omega (arith, size))
  | inr (n, size, same) ↦ inr (n, omega (arith, size), same)
]

-- where a round stands: past the last line, or at the start of one
abbrev pub Located : List Logged → ℕ × Bytes → ℕ → Type 0
Located ls passed m =
    (passed.1 ≡ [])
    ⊎ ((pre : List Logged) × (l : Logged) × (post : List Logged) × (ls ≡ pre ++ l ∷ post)
        × (passed.1 ≡ file_of (l ∷ post))
        × (m + passed.0 ≡ length (file_of pre)))

abbrev pub clean : List Logged → Bool
clean = all (λ (l : Logged). no_newline l.text)

start_of_next :
    (l : Logged) (ls : List Logged) (v : Bytes) (m : ℕ)
    → m + length v ≡ length l.text
    → Located (l ∷ ls) (suc (length v), file_of ls) m
start_of_next l [] v m size = inl refl
start_of_next l (next ∷ ls) v m size =
    inr (l ∷ [], next, ls, refl, refl, (omega (arith, size, length-append l.text (10 ∷ []))))

pub locate :
    (ls : List Logged) (m : ℕ) → clean ls ≡ true → Located ls (skip_line (drop m (file_of ls))) m
locate [] zero h = inl (unfold skip_line in refl)
locate [] (suc m) h = inl (unfold skip_line in refl)
locate (l ∷ ls) m h = elim (drop-cases l.text (file_of ls) m (ground (arith, h))) [
  | inl (v, tidy, same, size) ↦
      rw same (rw (skip_line-text v (file_of ls) tidy) (start_of_next l ls v m size))
  | inr (n, size, same) ↦ rw same (elim (locate ls n (ground (arith, h))) [
    | inl done ↦ inl done
    | inr (pre, x, post, split, rest, place) ↦ inr (
      l ∷ pre,
      x,
      post,
      ap (λ t. l ∷ t) split,
      rest,
      omega (arith, size, place, length-append l.text (10 ∷ file_of pre)),
    )
  ])
]
