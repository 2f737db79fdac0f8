-- ===== src/AuditLog/Rotation/Segments.antt =====
-- audit.go: the abstract view of `RotatingFile`: a list of segments, the newest first, of which only so many
-- are kept.
use mathlib.Core.List.{append_assoc, append-nil}
use aic_verifier.Prelude.{
  ℕ, zero, suc, ◌+◌, ◌≡◌, refl, sym, ap, ◌∙◌, List, [], ◌∷◌, ◌++◌, length, take, ltb, if◌then◌else◌,
  Bool-cases, inl, inr,
}
use aic_verifier.Merkle.{Bytes}

-- the newest segment and the older ones, from the newest
abbrev pub Segments : Type 0
Segments = Bytes × List Bytes

-- one more write: into the newest segment, or into a new one when it would grow past the bound
unfoldable pub write_segments : ℕ → ℕ → Segments → Bytes → Segments
write_segments max_size max_bak (s, ss) p =
    if ltb max_size (length s + length p) then (p, take max_bak (s ∷ ss)) else (s ++ p, ss)

unfoldable pub all_segments : ℕ → ℕ → Segments → List Bytes → Segments
all_segments max_size max_bak segments [] = segments
all_segments max_size max_bak segments (p ∷ ps) =
    all_segments max_size max_bak (write_segments max_size max_bak segments p) ps

-- the bytes of segments, the oldest first
abbrev pub oldest_first : List Bytes → Bytes
oldest_first [] = []
oldest_first (s ∷ ss) = oldest_first ss ++ s

abbrev pub bytes_of : Segments → Bytes
bytes_of (s, ss) = oldest_first (s ∷ ss)

abbrev pub concat : List Bytes → Bytes
concat [] = []
concat (p ∷ ps) = p ++ concat ps

-- the second is the end of the first
abbrev pub EndsIn : Bytes → Bytes → Type 0
EndsIn bs end = (lost : Bytes) × (lost ++ end ≡ bs)

oldest_first-take : (n : ℕ) (ss : List Bytes) → EndsIn (oldest_first ss) (oldest_first (take n ss))
oldest_first-take zero ss = (oldest_first ss, append-nil (oldest_first ss))
oldest_first-take (suc n) [] = ([], refl)
oldest_first-take (suc n) (s ∷ ss) =
    let (lost, rest) = oldest_first-take n ss in
    (lost, sym (append_assoc lost (oldest_first (take n ss)) s) ∙ ap (λ b. b ++ s) rest)

write_segments-EndsIn :
    (max_size max_bak : ℕ) (segments : Segments) (p : Bytes)
    → EndsIn (bytes_of segments ++ p) (bytes_of (write_segments max_size max_bak segments p))
unfolding write_segments
write_segments-EndsIn max_size max_bak (s, ss) p =
    elim (Bool-cases (ltb max_size (length s + length p))) [
      | inl over ↦
          let (lost, rest) = oldest_first-take max_bak (s ∷ ss) in
          rw over (
            lost,
            sym (append_assoc lost (oldest_first (take max_bak (s ∷ ss))) p)
                ∙ ap (λ b. b ++ p) rest,
          )
      | inr room ↦ rw room ([], sym (append_assoc (oldest_first ss) s p))
    ]

pub all_segments-EndsIn :
    (max_size max_bak : ℕ) (ps : List Bytes) (segments : Segments)
    → EndsIn (bytes_of segments ++ concat ps) (bytes_of (all_segments max_size max_bak segments ps))
unfolding all_segments
all_segments-EndsIn max_size max_bak [] segments = ([], sym (append-nil (bytes_of segments)))
all_segments-EndsIn max_size max_bak (p ∷ ps) segments =
    let one = write_segments-EndsIn max_size max_bak segments p in
    let more =
      all_segments-EndsIn max_size max_bak ps (write_segments max_size max_bak segments p) in
    (
      one.0 ++ more.0,
      append_assoc one.0 more.0 (
            bytes_of
              (all_segments max_size max_bak (write_segments max_size max_bak segments p) ps))
          ∙ ap (λ b. one.0 ++ b) more.1
          ∙ sym (
              append_assoc one.0 (bytes_of (write_segments max_size max_bak segments p))
                (concat ps))
          ∙ ap (λ b. b ++ concat ps) one.1
          ∙ append_assoc (bytes_of segments) p (concat ps),
    )
