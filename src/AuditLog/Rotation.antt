-- ===== src/AuditLog/Rotation.antt =====
-- audit.go: `RotatingFile`, the file with its numbered backups. Slot 0 is the file at the path, slot i the
-- one at the path with the ending `.i`. What the operating system answers is an argument.
pub mod Segments
pub mod Stored
use aic_verifier.Prelude.{
  ℕ, zero, suc, ◌+◌, Bool, true, false, not, ◌&&◌, Option, none, some, List, [], ◌∷◌, ◌++◌, length,
  take, ltb, ◌==◌, is_some, if◌then◌else◌,
}
use aic_verifier.Merkle.{Bytes}

abbrev pub Files : Type 0
Files = ℕ → Option Bytes

abbrev pub put : ℕ → Option Bytes → Files → Files
put i f files k = if k == i then f else files k

pub record RotatingFile : Type 0 where
  pub max_size : ℕ
  pub max_bak : ℕ
  -- whether the handle is open
  pub is_open : Bool
  pub size : ℕ
  pub files : Files

-- the answers of the system during one call of `Write`
pub record Answers : Type 0 where
  pub remove_fails : ℕ → Bool
  pub rename_fails : ℕ → Bool
  pub open_fails : Bool
  -- none for a complete write, else the number of bytes written before the error
  pub write_error : Option ℕ

unfoldable pub at_path : Files → Bytes
at_path files = elim (files 0) [ none ↦ [] | some bs ↦ bs ]

-- the file is made if there is none, and appended to
unfoldable pub new_rotating_file : ℕ → ℕ → Bool → Files → Option RotatingFile
new_rotating_file max_size max_bak open_fails files =
    if open_fails
    then none
    else some (record {
      max_size = max_size;
      max_bak = max_bak;
      is_open = true;
      size = length (at_path files);
      files = put 0 (some (at_path files)) files;
    })

-- `os.Remove(old)`, and `os.Rename(prev, old)` if there is a file at `prev`; the errors are printed
unfoldable pub shift_one : Answers → ℕ → Files → Files
shift_one a prev files =
    let removed : Files = if a.remove_fails (suc prev) then files else put (suc prev) none files in
    if is_some (removed prev) && not (a.rename_fails (suc prev))
    then put (suc prev) (removed prev) (put prev none removed)
    else removed

-- the loop from `maxBak` down to 1
unfoldable pub shift : Answers → ℕ → Files → Files
shift a zero files = files
shift a (suc i) files = shift a i (shift_one a i files)

-- true for an error; the handle is closed first, and stays closed then
unfoldable pub rotate : Answers → RotatingFile → RotatingFile × Bool
rotate a r =
    let moved = shift a r.max_bak r.files in
    if a.open_fails
    then (record r { is_open = false; files = moved }, true)
    else (record r { is_open = true; size = 0; files = put 0 (some []) moved }, false)

abbrev pub append_bytes : RotatingFile → Bytes → RotatingFile
append_bytes r p = record r {
  size = r.size + length p;
  files = put 0 (some (at_path r.files ++ p)) r.files;
}

unfoldable pub write_out : Answers → RotatingFile → Bytes → RotatingFile × Bool
write_out a r p = if not r.is_open then (r, true) else elim a.write_error [
  | none ↦ (append_bytes r p, false)
  | some n ↦ (append_bytes r (take n p), true)
]

abbrev pub write_rotated : Answers → Bytes → RotatingFile × Bool → RotatingFile × Bool
write_rotated a p (r, true) = (r, true)
write_rotated a p (r, false) = write_out a r p

-- the file after the call, and whether there was an error
unfoldable pub write : Answers → RotatingFile → Bytes → RotatingFile × Bool
write a r p =
    if ltb r.max_size (r.size + length p) then write_rotated a p (rotate a r) else write_out a r p

unfoldable pub close : RotatingFile → RotatingFile
close r = record r { is_open = false }
