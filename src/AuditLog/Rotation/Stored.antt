-- ===== src/AuditLog/Rotation/Stored.antt =====
-- audit.go: what the file of `RotatingFile` and its backups hold.
use mathlib.Core.Path.{subst}
use aic_verifier.Prelude.{
  ℕ, zero, suc, ◌+◌, ◌<◌, ◌≡◌, refl, sym, ap, ◌∙◌, Bool, true, false, not, Option, none, some, List,
  [], ◌∷◌, ◌++◌, length, take, get_elem?, ltb, ◌==◌, arith, if◌then◌else◌, Bool-cases, Option-cases,
  inl, inr, length-append,
}
use aic_verifier.Merkle.{Bytes}
use aic_verifier.AuditLog.Rotation.{
  Files, RotatingFile, Answers, at_path, put, shift_one, shift, rotate, append_bytes, write_out,
  write,
}
use aic_verifier.AuditLog.Rotation.Segments.{
  Segments, write_segments, all_segments, concat, bytes_of, EndsIn, all_segments-EndsIn,
}

-- no call of the system fails
abbrev pub sound_system : Answers
sound_system = record {
  remove_fails = λ k. false;
  rename_fails = λ k. false;
  open_fails = false;
  write_error = none;
}

shift_one-moved : (n : ℕ) (files : Files) → shift_one sound_system n files (suc n) ≡ files n
unfolding shift_one
shift_one-moved n files =
    let apart : (n == suc n) ≡ false = ground arith in
    let own : (suc n == suc n) ≡ true = ground arith in
    rw apart (elim (Option-cases (files n)) [
      | inr (bs, there) ↦ rw there (rw own refl)
      | inl missing ↦ rw missing (rw own refl)
    ])

shift_one-other :
    (n : ℕ) (files : Files) (k : ℕ)
    → (k == suc n) ≡ false
    → (k == n) ≡ false
    → shift_one sound_system n files k ≡ files k
unfolding shift_one
shift_one-other n files k above below =
    let apart : (n == suc n) ≡ false = ground arith in
    rw apart (elim (Option-cases (files n)) [
      | inr (bs, there) ↦ rw there (rw above (rw below refl))
      | inl missing ↦ rw missing (rw above refl)
    ])

shift-other : (n : ℕ) (files : Files) (k : ℕ) → n < k → shift sound_system n files k ≡ files k
unfolding shift
shift-other zero files k h = refl
shift-other (suc n) files k h =
    shift-other n (shift_one sound_system n files) k (omega (arith, h))
    ∙ shift_one-other n files k (ground (arith, h)) (ground (arith, h))

-- Behind the shift each backup up to the given one is what the slot below it was; the others stay.
shift-moved : (n : ℕ) (files : Files) (k : ℕ) → k < n → shift sound_system n files (suc k) ≡ files k
unfolding shift
shift-moved zero files k h = elim h [ ]
shift-moved (suc n) files k h = elim (Bool-cases (ltb k n)) [
  | inl inside ↦
      let lt : k < n = ground (arith, inside) in
      shift-moved n (shift_one sound_system n files) k lt
      ∙ shift_one-other n files k (ground (arith, lt)) (ground (arith, lt))
  | inr last ↦
      let top : k ≡ n = ground (arith, last, h) in
      ap (λ j. shift sound_system (suc n) files (suc j)) top
      ∙ shift-other n (shift_one sound_system n files) (suc n) (omega arith)
      ∙ shift_one-moved n files
      ∙ ap files (sym top)
]

-- The newest segment is the file at the path, and each older one up to the last backup its slot.
abbrev pub Stored : Segments → RotatingFile → Type 0
Stored (s, ss) r =
    (r.is_open ≡ true)
    × (r.size ≡ length s)
    × (r.files 0 ≡ some s)
    × ((k : ℕ) → k < r.max_bak → r.files (suc k) ≡ get_elem? ss k)

get_elem?-take : (n k : ℕ) (xs : List Bytes) → k < n → get_elem? (take n xs) k ≡ get_elem? xs k
get_elem?-take zero k xs h = elim h [ ]
get_elem?-take (suc n) k [] h = refl
get_elem?-take (suc n) zero (x ∷ xs) h = refl
get_elem?-take (suc n) (suc k) (x ∷ xs) h = get_elem?-take n k xs (omega (arith, h))

put-suc : (f : Option Bytes) (files : Files) (k : ℕ) → put 0 f files (suc k) ≡ files (suc k)
put-suc f files k = let apart : (suc k == 0) ≡ false = ground arith in rw apart refl

at_path-some : (files : Files) (s : Bytes) → files 0 ≡ some s → at_path files ≡ s
unfolding at_path
at_path-some files s h = rw (h, at_path) refl

append_bytes-Stored :
    (s : Bytes) (ss : List Bytes) (r : RotatingFile) (p : Bytes)
    → Stored (s, ss) r
    → Stored (s ++ p, ss) (append_bytes r p)
append_bytes-Stored s ss r p (opened, size, path, backups) = (
  opened,
  omega (arith, size, length-append s p),
  ap (λ b. some (b ++ p)) (at_path-some r.files s path),
  (λ k h. put-suc (some (at_path r.files ++ p)) r.files k ∙ backups k h),
)

write_out-Stored :
    (s : Bytes) (ss : List Bytes) (r : RotatingFile) (p : Bytes)
    → Stored (s, ss) r
    → Stored (s ++ p, ss) (write_out sound_system r p).0 × ((write_out sound_system r p).1 ≡ false)
unfolding write_out
write_out-Stored s ss r p h =
    let out : Bool → RotatingFile × Bool =
      λ b. if not b then (r, true) else (append_bytes r p, false) in
    subst (λ (b : Bool). Stored (s ++ p, ss) (out b).0 × ((out b).1 ≡ false)) (sym h.0)
      (append_bytes-Stored s ss r p h, refl)

rotate-Stored :
    (s : Bytes) (ss : List Bytes) (r : RotatingFile)
    → Stored (s, ss) r
    → Stored ([], take r.max_bak (s ∷ ss)) (rotate sound_system r).0
unfolding rotate
rotate-Stored s ss r (opened, size, path, backups) =
    (refl, refl, refl, λ k h. put-suc (some []) (shift sound_system r.max_bak r.files) k ∙ slot k h)
  where
    slot :
        (k : ℕ)
        → k < r.max_bak
        → shift sound_system r.max_bak r.files (suc k) ≡ get_elem? (take r.max_bak (s ∷ ss)) k
    slot zero h =
        shift-moved r.max_bak r.files zero h ∙ path ∙ sym (get_elem?-take r.max_bak zero (s ∷ ss) h)
    slot (suc k) h =
        shift-moved r.max_bak r.files (suc k) h
        ∙ backups k (omega (arith, h))
        ∙ sym (get_elem?-take r.max_bak (suc k) (s ∷ ss) h)

-- One write keeps the bounds, succeeds, and acts on the segments as told.
write-Stored :
    (s : Bytes) (ss : List Bytes) (r : RotatingFile) (p : Bytes)
    → Stored (s, ss) r
    → Stored (write_segments r.max_size r.max_bak (s, ss) p) (write sound_system r p).0
      × ((write sound_system r p).1 ≡ false)
unfolding write write_segments rotate write_out
write-Stored s ss r p h = elim (Bool-cases (ltb r.max_size (length s + length p))) [
  | inl over ↦
      let grown : ltb r.max_size (r.size + length p) ≡ true =
        ap (λ n. ltb r.max_size (n + length p)) h.1 ∙ over in
      rw over (
        rw (grown, write)
          (write_out-Stored [] (take r.max_bak (s ∷ ss)) (rotate sound_system r).0 p
            (rotate-Stored s ss r h)))
  | inr room ↦
      let fits : ltb r.max_size (r.size + length p) ≡ false =
        ap (λ n. ltb r.max_size (n + length p)) h.1 ∙ room in
      rw room (rw (fits, write) (write_out-Stored s ss r p h))
]

abbrev SameBounds : RotatingFile → RotatingFile → Type 0
SameBounds r r' = (r'.max_size ≡ r.max_size) × (r'.max_bak ≡ r.max_bak)

write_out-SameBounds : (r : RotatingFile) (p : Bytes) → SameBounds r (write_out sound_system r p).0
unfolding write_out
write_out-SameBounds r p =
    let out : Bool → RotatingFile × Bool =
      λ b. if not b then (r, true) else (append_bytes r p, false) in
    elim r.is_open as (λ b. (((out b).0.max_size ≡ r.max_size) × ((out b).0.max_bak ≡ r.max_bak))) [
      | true ↦ (refl, refl)
      | false ↦ (refl, refl)
    ]

write-SameBounds : (r : RotatingFile) (p : Bytes) → SameBounds r (write sound_system r p).0
unfolding write rotate write_out
write-SameBounds r p = elim (Bool-cases (ltb r.max_size (r.size + length p))) [
  | inl over ↦ rw (over, write) (write_out-SameBounds (rotate sound_system r).0 p)
  | inr room ↦ rw (room, write) (write_out-SameBounds r p)
]

unfoldable pub write_all : RotatingFile → List Bytes → RotatingFile
write_all r [] = r
write_all r (p ∷ ps) = write_all (write sound_system r p).0 ps

write_all-Stored :
    (max_size max_bak : ℕ) (ps : List Bytes) (segments : Segments) (r : RotatingFile)
    → r.max_size ≡ max_size
    → r.max_bak ≡ max_bak
    → Stored segments r
    → Stored (all_segments max_size max_bak segments ps) (write_all r ps)
unfolding all_segments write_all
write_all-Stored max_size max_bak [] segments r size bak h = h
write_all-Stored max_size max_bak (p ∷ ps) segments r size bak h =
    let (same_size, same_bak) = write-SameBounds r p in
    let r' = (write sound_system r p).0 in
    let moved : Stored (write_segments max_size max_bak segments p) r' =
      subst (λ n. Stored (write_segments n max_bak segments p) r') size
        (subst (λ n. Stored (write_segments r.max_size n segments p) r') bak
          (write-Stored segments.0 segments.1 r p h).0) in
    write_all-Stored max_size max_bak ps (write_segments max_size max_bak segments p) r'
      (same_size ∙ size) (same_bak ∙ bak) moved

-- Where no call of the system fails: after any writes to a file that stores given segments, the file and its
-- backups store the segments that the list of writes yields; and these are, the oldest first, the end of
-- the bytes that were there before followed by those written.
pub rotation_refines :
    (r : RotatingFile) (segments : Segments) (ps : List Bytes)
    → Stored segments r
    → Stored (all_segments r.max_size r.max_bak segments ps) (write_all r ps)
      × EndsIn
          (bytes_of segments ++ concat ps)
          (bytes_of (all_segments r.max_size r.max_bak segments ps))
rotation_refines r segments ps h = (
  write_all-Stored r.max_size r.max_bak ps segments r refl refl h,
  all_segments-EndsIn r.max_size r.max_bak ps segments,
)
