-- ===== src/AuditLog/Read.antt =====
-- audit.go: the loop of `ReadAuditEntries` over the lines of the file, which supervision_store.go has as well.
use aic_verifier.Prelude.{
  Option, ℕ, zero, suc, ◌+◌, ◌≡◌, sym, ap, ◌∙◌, Bool, true, false, none, some, List, [], ◌∷◌,
  length, drop, ltb, leb, all, arith, Bool-cases, Option-cases, inl, inr,
}
use aic_verifier.Merkle.{Bytes}
use aic_verifier.AuditLog.Page.{
  drop-nil, remaining, remaining-nil, remaining-last, remaining-more, remaining-page,
}
use aic_verifier.AuditLog.{limit_reached, page, scan_buffer}

-- the entries, and whether the scanner stopped at a line that is too long
abbrev pub Found {ℓ} : Type ℓ → Type ℓ
Found A = List A × Bool

abbrev pub with_entry {ℓ} : {A : Type ℓ} → A → Found A → Found A
with_entry e (es, stopped) = (e ∷ es, stopped)

module _ {ℓ} {A : Type ℓ} (entry : Bytes → Option A) (limit : ℕ) where
  unfoldable pub scan_lines : List Bytes → ℕ → ℕ → Found A
  scan_lines [] skip found = ([], false)
  scan_lines (l ∷ ls) skip found = elim (leb scan_buffer (length l)) [
    | true ↦ ([], true)
    | false ↦ elim (entry l) [
      | none ↦ scan_lines ls skip found
      | some e ↦ elim skip [
        | suc left ↦ scan_lines ls left found
        | zero ↦ elim (limit_reached limit (found + 1)) [
          | true ↦ (e ∷ [], false)
          | false ↦ with_entry e (scan_lines ls zero (found + 1))
        ]
      ]
    ]
  ]

  -- the entries of the lines that have one, in the order of the file
  unfoldable pub all_items : List Bytes → List A
  all_items [] = []
  all_items (l ∷ ls) = let rest = all_items ls in elim (entry l) [ none ↦ rest | some e ↦ e ∷ rest ]

  abbrev pub fits : Bytes → Bool
  fits l = ltb (length l) scan_buffer

  scan_lines_from :
      (ls : List Bytes) (skip found : ℕ)
      → all fits ls ≡ true
      → limit_reached limit found ≡ false
      → scan_lines ls skip found ≡ (remaining limit found (drop skip (all_items ls)), false)
  unfolding scan_lines all_items
  scan_lines_from [] skip found short open_ =
      ap (λ es. (es, false))
        (sym (ap (remaining limit found) (drop-nil skip) ∙ remaining-nil limit found))
  scan_lines_from (l ∷ ls) (suc skip) found short open_ =
      let fit : leb scan_buffer (length l) ≡ false = ground (arith, short) in
      let later : all fits ls ≡ true = ground (arith, short) in
      rw (fit, scan_lines)
        (elim (Option-cases (entry l)) [
          | inl skipped ↦
              rw (skipped, scan_lines, all_items) (scan_lines_from ls (suc skip) found later open_)
          | inr (e, taken) ↦
              rw (taken, scan_lines, all_items) (scan_lines_from ls skip found later open_)
        ])
  scan_lines_from (l ∷ ls) zero found short open_ =
      let fit : leb scan_buffer (length l) ≡ false = ground (arith, short) in
      let later : all fits ls ≡ true = ground (arith, short) in
      rw (fit, scan_lines)
        (elim (Option-cases (entry l)) [
          | inl skipped ↦
              rw (skipped, scan_lines, all_items) (scan_lines_from ls zero found later open_)
          | inr (e, taken) ↦
              rw (taken, scan_lines, all_items)
                (elim (Bool-cases (limit_reached limit (found + 1))) [
                  | inl last ↦
                      rw (last, scan_lines)
                        (ap (λ es. (es, false))
                          (sym (remaining-last limit found e (all_items ls) open_ last)))
                  | inr more ↦
                      rw (more, scan_lines)
                        (ap (with_entry e) (scan_lines_from ls zero (found + 1) later more)
                          ∙ ap (λ es. (es, false))
                              (sym (remaining-more limit found e (all_items ls) more)))
                ])
        ])

  -- The loop returns, of the entries that the filter takes, those that the offset and the limit leave,
  -- in the order of the file, where no line fills the buffer of the scanner.
  pub scan_lines_lem :
      (ls : List Bytes) (skip : ℕ)
      → all fits ls ≡ true
      → scan_lines ls skip 0 ≡ (page limit skip (all_items ls), false)
  scan_lines_lem ls skip short =
      scan_lines_from ls skip 0 short (ground arith)
      ∙ ap (λ es. (es, false)) (remaining-page limit skip (all_items ls))
