-- ===== src/AuditLog/Reverse.antt =====
-- audit.go: `readAuditEntriesReverse`, which reads the file from its end in blocks. `scanBuf` is one array
-- that each block is read into; the slice `buf`, what stood in front of the first newline, may share it.
pub mod OneBlock
use aic_verifier.Prelude.{
  ℕ, zero, suc, ◌+◌, ◌-◌, ◌≤◌, ◌<◌, ◌≡◌, ◌⊎◌, refl, sym, ap, ◌∙◌, Bool, true, false, Option, none,
  some, List, [], ◌∷◌, ◌++◌, length, take, drop, ltb, leb, ◌==◌, arith, if◌then◌else◌, Bool-cases,
  Option-cases, inl, inr,
}
use mathlib.Core.List.{reverse}
use aic_verifier.Merkle.{Bytes}
use aic_verifier.AuditLog.{AuditEntry, AuditFilter, LogLib, entry_of, limit_reached, page}

-- a slice of bytes of its own, or the given number of bytes at the start of `scanBuf`
pub data Slice : Type 0 where
  owned : Bytes → Slice
  shared : ℕ → Slice

unfoldable pub content : Bytes → Slice → Bytes
content scan_buf (owned bs) = bs
content scan_buf (shared n) = take n scan_buf

-- `data[:n]`
unfoldable pub cut_to : ℕ → Slice → Slice
cut_to n (owned bs) = owned (take n bs)
cut_to n (shared k) = shared n

-- `append(scanBuf[:readSize], buf...)` once the block has been read into `scanBuf`: the array is written to
-- as far as it has room.
unfoldable pub join_slice : ℕ → ℕ → Bytes → Slice → Bytes × Slice
join_slice block size scan_buf buf =
    let joined : Bytes = take size scan_buf ++ content scan_buf buf in
    if leb (length joined) block
    then (joined ++ drop (length joined) scan_buf, shared (length joined))
    else (scan_buf, owned joined)

-- the bytes in front of the first newline, and the pieces that follow the newlines
unfoldable pub pieces : Bytes → Bytes × List Bytes
pieces [] = ([], [])
pieces (b ∷ bs) =
    let later = pieces bs in if b == 10 then ([], later.0 ∷ later.1) else (b ∷ later.0, later.1)

-- the entries, what is left to skip, and whether the limit has been reached
abbrev pub Collected : Type 0
Collected = List AuditEntry × (ℕ × Bool)

abbrev pub with_collected : AuditEntry → Collected → Collected
with_collected e (es, rest) = (e ∷ es, rest)

pub data Round : Type 0 where
  full : List AuditEntry → Round
  next : Bytes → Slice → ℕ → List AuditEntry → Round

pub Round-cases :
    (r : Round)
    → ((es : List AuditEntry) × (r ≡ full es))
      ⊎ ((scan_buf : Bytes) × (buf : Slice) × (left : ℕ) × (es : List AuditEntry) × (r
            ≡ next scan_buf buf left es))
Round-cases (full es) = inl (es, refl)
Round-cases (next scan_buf buf left es) = inr (scan_buf, buf, left, es, refl)

module _ (lib : LogLib) (filter : AuditFilter) where
  -- the loop over the pieces, the last of the block first; a piece begins with its newline
  unfoldable pub collect : List Bytes → ℕ → ℕ → Collected
  collect [] skip found = ([], (skip, false))
  collect (l ∷ ls) skip found = elim (entry_of lib filter (10 ∷ l)) [
    | none ↦ collect ls skip found
    | some e ↦ elim skip [
      | suc left ↦ collect ls left found
      | zero ↦ elim (limit_reached filter.limit (found + 1)) [
        | true ↦ (e ∷ [], (zero, true))
        | false ↦ with_collected e (collect ls zero (found + 1))
      ]
    ]
  ]

  -- what becomes of a block: the limit stops the loop, or the array, the slice `buf`, what is left to skip
  -- and the entries go into the next round
  abbrev pub after_pieces : Bytes × Slice → ℕ → List AuditEntry → Collected → Round
  after_pieces joined n entries (es, (left, true)) = full (entries ++ es)
  after_pieces joined n entries (es, (left, false)) =
      next joined.0 (cut_to n joined.1) left (entries ++ es)

  unfoldable pub take_pieces : Bytes × Slice → ℕ → List AuditEntry → Round
  take_pieces joined skip entries =
      let parts = pieces (content joined.0 joined.1) in
      after_pieces joined (length parts.0) entries (collect (reverse parts.1) skip (length entries))

  module _ (block : ℕ) (file : Bytes) where
    unfoldable pub block_size : ℕ → ℕ
    block_size pos = if ltb pos block then pos else block

    -- `ReadAt` into the array, and the slice `data`
    unfoldable pub load : ℕ → ℕ → Bytes → Slice → Bytes × Slice
    load size pos scan_buf buf =
        join_slice block size (take size (drop (pos - size) file) ++ drop size scan_buf) buf

    -- the loop over the blocks, down from an offset; none when the fuel runs out
    unfoldable pub read_back :
        ℕ → ℕ → Bytes → Slice → ℕ → List AuditEntry → Option (List AuditEntry)
    read_back zero pos scan_buf buf skip entries = none
    read_back (suc fuel) pos scan_buf buf skip entries = elim (ltb 0 pos) [
      | false ↦ some entries
      | true ↦ elim (take_pieces (load (block_size pos) pos scan_buf buf) skip entries) [
        | full es ↦ some es
        | next scan_buf' buf' left es ↦ read_back fuel (pos - block_size pos) scan_buf' buf' left es
      ]
    ]

abbrev zeros : ℕ → Bytes
zeros zero = []
zeros (suc n) = 0 ∷ zeros n

-- `make([]byte, 4096)`
abbrev pub scan_block : ℕ
scan_block = 4096

-- each round reads a byte at least
unfoldable pub read_audit_entries_reverse : LogLib → AuditFilter → Bytes → Option (List AuditEntry)
read_audit_entries_reverse lib filter file =
    read_back lib filter scan_block file (suc (length file)) (length file) (zeros scan_block)
      (owned []) filter.offset []
