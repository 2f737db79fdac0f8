-- ===== src/AuditLog/Reverse/OneBlock.antt =====
-- audit.go: what `readAuditEntriesReverse` returns for a file that one block holds, and that it ends.
use mathlib.Core.List.{reverse, append-nil}
use aic_verifier.Prelude.{
  ℕ, zero, suc, ◌+◌, ◌-◌, ◌≤◌, ◌<◌, ◌≡◌, refl, sym, ap, ◌∙◌, true, false, Option, none, some, List,
  [], ◌∷◌, ◌++◌, length, take, drop, ltb, leb, arith, Bool-cases, Option-cases, inl, inr,
}
use aic_verifier.Merkle.{Bytes}
use aic_verifier.AuditLog.{AuditEntry, AuditFilter, LogLib, entry_of, limit_reached, page}
use aic_verifier.AuditLog.Page.{
  drop-nil, remaining, remaining-nil, remaining-last, remaining-more, remaining-page,
}
use aic_verifier.AuditLog.Reverse.{
  Slice, owned, content, join_slice, pieces, collect, read_back, load, block_size, take_pieces,
  after_pieces, Collected, Round-cases, full, next, zeros, scan_block, read_audit_entries_reverse,
}

take-whole {ℓ} : {A : Type ℓ} (xs ys : List A) → take (length xs) (xs ++ ys) ≡ xs
take-whole [] ys = refl
take-whole (x ∷ xs) ys = ap (λ r. x ∷ r) (take-whole xs ys)

module _ (lib : LogLib) (filter : AuditFilter) where
  -- the entries that the filter takes, of pieces that begin with their newline
  unfoldable pub all_entries : List Bytes → List AuditEntry
  all_entries [] = []
  all_entries (l ∷ ls) =
      let rest = all_entries ls in
      elim (entry_of lib filter (10 ∷ l)) [ none ↦ rest | some e ↦ e ∷ rest ]

  collect_lem :
      (ls : List Bytes) (skip found : ℕ)
      → limit_reached filter.limit found ≡ false
      → (collect lib filter ls skip found).0
        ≡ remaining filter.limit found (drop skip (all_entries ls))
  unfolding collect all_entries
  collect_lem [] skip found open_ =
      sym (ap (remaining filter.limit found) (drop-nil skip) ∙ remaining-nil filter.limit found)
  collect_lem (l ∷ ls) (suc skip) found open_ = elim (Option-cases (entry_of lib filter (10 ∷ l))) [
    | inl skipped ↦ rw (skipped, collect, all_entries) (collect_lem ls (suc skip) found open_)
    | inr (e, taken) ↦ rw (taken, collect, all_entries) (collect_lem ls skip found open_)
  ]
  collect_lem (l ∷ ls) zero found open_ = elim (Option-cases (entry_of lib filter (10 ∷ l))) [
    | inl skipped ↦ rw (skipped, collect, all_entries) (collect_lem ls zero found open_)
    | inr (e, taken) ↦
        rw (taken, collect, all_entries)
          (elim (Bool-cases (limit_reached filter.limit (found + 1))) [
            | inl last ↦
                rw (last, collect)
                  (sym (remaining-last filter.limit found e (all_entries ls) open_ last))
            | inr more ↦
                rw (more, collect)
                  (ap (λ es. e ∷ es) (collect_lem ls zero (found + 1) more)
                    ∙ sym (remaining-more filter.limit found e (all_entries ls) more))
          ])
  ]

  module _ (block : ℕ) (file : Bytes) where
    -- an array that the whole file has been read into
    join_slice-whole :
        (rest : Bytes)
        → length file ≤ block
        → content
            (join_slice block (length file) (file ++ rest) (owned [])).0
            (join_slice block (length file) (file ++ rest) (owned [])).1
          ≡ file
    unfolding content join_slice
    join_slice-whole rest fits =
        let joined : take (length file) (file ++ rest) ++ [] ≡ file =
          append-nil (take (length file) (file ++ rest)) ∙ take-whole file rest in
        let room : leb (length file) block ≡ true = ground (arith, fits) in
        rw joined (rw room (take-whole file (drop (length file) (file ++ rest))))

    load-whole :
        (scan_buf : Bytes)
        → length file ≤ block
        → content
            (load lib filter block file (length file) (length file) scan_buf (owned [])).0
            (load lib filter block file (length file) (length file) scan_buf (owned [])).1
          ≡ file
    unfolding load
    load-whole scan_buf fits =
        let start : length file - length file ≡ 0 = omega arith in
        let all_of : take (length file) file ≡ file =
          ap (take (length file)) (sym (append-nil file)) ∙ take-whole file [] in
        rw start (rw all_of (join_slice-whole (drop (length file) scan_buf) fits))

    after_pieces-last :
        (joined : Bytes × Slice) (n fuel pos : ℕ) (c : Collected)
        → pos ≡ 0
        → (elim (after_pieces lib filter joined n [] c) as (λ _. Option (List AuditEntry)) [
          | full es ↦ some es
          | next scan_buf buf left es ↦
              read_back lib filter block file (suc fuel) pos scan_buf buf left es
        ])
          ≡ some c.0
    unfolding read_back
    after_pieces-last joined n fuel pos (es, (left, true)) last = refl
    after_pieces-last joined n fuel pos (es, (left, false)) last = rw last refl

    take_pieces-whole :
        (joined : Bytes × Slice) (fuel pos : ℕ)
        → content joined.0 joined.1 ≡ file
        → pos ≡ 0
        → (elim (take_pieces lib filter joined filter.offset [])
            as (λ _. Option (List AuditEntry)) [
              | full es ↦ some es
              | next scan_buf buf left es ↦
                  read_back lib filter block file (suc fuel) pos scan_buf buf left es
            ])
          ≡ some (collect lib filter (reverse (pieces file).1) filter.offset 0).0
    unfolding take_pieces
    take_pieces-whole joined fuel pos whole last =
        let parts = pieces (content joined.0 joined.1) in
        after_pieces-last joined (length parts.0) fuel pos
          (collect lib filter (reverse parts.1) filter.offset 0) last
        ∙ ap (λ bs. some (collect lib filter (reverse (pieces bs).1) filter.offset 0).0) whole

    read_back-whole :
        (fuel : ℕ) (scan_buf : Bytes)
        → 0 < length file
        → length file ≤ block
        → read_back lib filter block file
            (suc (suc fuel))
            (length file)
            scan_buf
            (owned [])
            filter.offset
            []
          ≡ some (page filter.limit filter.offset (all_entries (reverse (pieces file).1)))
    unfolding read_back
    read_back-whole fuel scan_buf some_bytes fits =
        let open_ : ltb 0 (length file) ≡ true = ground (arith, some_bytes) in
        let size : block_size lib filter block file (length file) ≡ length file =
          unfold block_size in ground (arith, fits) in
        rw (open_, read_back)
          (rw size (
            take_pieces-whole
              (load lib filter block file (length file) (length file) scan_buf (owned [])) fuel
              (length file - block_size lib filter block file (length file))
              (load-whole scan_buf fits) (omega (arith, size))
            ∙ ap some (
                collect_lem (reverse (pieces file).1) filter.offset 0 (ground arith)
                ∙ remaining-page filter.limit filter.offset
                    (all_entries (reverse (pieces file).1)))))

    -- each round moves down, so the loop ends
    read_back-some :
        (fuel pos : ℕ) (scan_buf : Bytes) (buf : Slice) (skip : ℕ) (entries : List AuditEntry)
        → 0 < block
        → pos < fuel
        → (es : List AuditEntry) × (read_back lib filter block file fuel pos scan_buf buf skip
              entries
            ≡ some es)
    unfolding read_back
    read_back-some zero pos scan_buf buf skip entries some_block h = elim h [ ]
    read_back-some (suc fuel) pos scan_buf buf skip entries some_block h =
        elim (Bool-cases (ltb 0 pos)) [
          | inr done ↦ (entries, rw (done, read_back) refl)
          | inl open_ ↦
              elim (Round-cases (
                take_pieces lib filter
                  (load lib filter block file (block_size lib filter block file pos) pos scan_buf
                    buf)
                  skip entries)) [
                    | inl (es, stopped) ↦ (es, rw (open_, read_back) (rw (stopped, read_back) refl))
                    | inr (scan_buf', buf', left, es, goes_on) ↦
                        let at : 0 < pos = ground (arith, open_) in
                        let size : 0 < block_size lib filter block file pos =
                          unfold block_size in ground (arith, open_) in
                        let (out, found) =
                          read_back-some fuel (pos - block_size lib filter block file pos) scan_buf'
                            buf' left es some_block (omega (arith, size, h, at)) in
                        (out, rw (open_, read_back) (rw (goes_on, read_back) found))
                  ]
        ]

  -- The reader ends on every file.
  pub reverse_ends :
      (file : Bytes)
      → (es : List AuditEntry) × (read_audit_entries_reverse lib filter file ≡ some es)
  unfolding read_audit_entries_reverse
  reverse_ends file =
      read_back-some scan_block file (suc (length file)) (length file) (zeros scan_block) (owned [])
        filter.offset [] (omega arith) (omega arith)

  -- Of a file that one block of 4096 bytes holds, the reader returns the entries that the filter takes, the last first,
  -- without those that the offset and the limit leave out; but never that of the first line, in front of
  -- which no newline stands.
  pub reverse_lem :
      (file : Bytes)
      → length file ≤ scan_block
      → read_audit_entries_reverse lib filter file
        ≡ some (page filter.limit filter.offset (all_entries (reverse (pieces file).1)))
  unfolding read_audit_entries_reverse read_back pieces all_entries
  reverse_lem [] fits = ap some (
      sym (ap (remaining filter.limit 0) (drop-nil filter.offset) ∙ remaining-nil filter.limit 0)
      ∙ remaining-page filter.limit filter.offset [])
  reverse_lem (b ∷ file) fits =
      read_back-whole scan_block (b ∷ file) (length file) (zeros scan_block) (omega arith) fits
