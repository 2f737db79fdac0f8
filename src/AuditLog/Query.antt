-- ===== src/AuditLog/Query.antt =====
-- audit.go: `ReadAuditEntries`. The file is opened twice, for the search and for the entries, and may have
-- grown in between; none for a file that cannot be opened.
use mathlib.Core.Path.{subst}
use aic_verifier.Prelude.{
  ℕ, ◌≡◌, ◌≢◌, refl, sym, ap, ◌∙◌, Bool, true, false, ◌&&◌, Option, none, some, List, [], ◌∷◌, ◌++◌,
  length, drop, ltb, leb, all, ◌==◌, str_eq, arith, if◌then◌else◌, Option-cases, inl, inr,
}
use mathlib.Core.List.{append_assoc}
use aic_verifier.Merkle.{Bytes}
use aic_verifier.AuditLog.{
  page, at_time, not_before, not_after, is_or_any, AuditEntry, AuditFilter, LogLib, split_lines,
  drop_cr, scan_buffer, entry_of, accepts, of_text, accepted,
}
use aic_verifier.AuditLog.Read.{Found, scan_lines, scan_lines_lem, all_items, fits}
use aic_verifier.AuditLog.Search.{find_start_offset, search_ends}
use aic_verifier.AuditLog.Search.Lines.{Logged, file_of, no_newline, InOrder}
use aic_verifier.AuditLog.Search.Sound.{Reads, AllRead, search_sound}
use aic_verifier.AuditLog.Reverse.{read_audit_entries_reverse}

module _ (lib : LogLib) (filter : AuditFilter) where
  -- the entry of a line that the filter takes
  abbrev pub line_entry : Bytes → Option AuditEntry
  line_entry l = entry_of lib filter (drop_cr l)

  abbrev pub offset_or_start : Option ℕ → ℕ
  offset_or_start none = 0
  offset_or_start (some off) = off

  unfoldable pub start_offset : Option ℕ → Option Bytes → ℕ
  start_offset none file = 0
  start_offset (some since) none = 0
  start_offset (some since) (some file) = offset_or_start (find_start_offset lib since file)

  abbrev pub without_error : Option (List AuditEntry) → Option (Found AuditEntry)
  without_error none = none
  without_error (some es) = some (es, false)

  abbrev pub read_reverse : Option Bytes → Option (Found AuditEntry)
  read_reverse none = none
  read_reverse (some file) = without_error (read_audit_entries_reverse lib filter file)

  abbrev pub read_forward : ℕ → Option Bytes → Option (Found AuditEntry)
  read_forward start none = none
  read_forward start (some file) =
      some (scan_lines line_entry filter.limit (split_lines (drop start file)) filter.offset 0)

  unfoldable pub read_audit_entries : Option Bytes → Option Bytes → Option (Found AuditEntry)
  read_audit_entries searched opened =
      if str_eq filter.sort "desc"
      then read_reverse opened
      else read_forward (start_offset filter.since searched) opened

pub split_lines-text :
    (w rest : Bytes) → no_newline w ≡ true → split_lines (w ++ 10 ∷ rest) ≡ w ∷ split_lines rest
unfolding split_lines
split_lines-text [] rest h = refl
split_lines-text (b ∷ w) rest h =
    let here : (b == 10) ≡ false = ground (arith, h) in
    let below = split_lines-text w rest (ground (arith, h)) in
    rw (here, split_lines) (rw below refl)

and-false : (a b c : Bool) → b ≡ false → (a && (b && c)) ≡ false
and-false a b c h = ground (arith, h)

drop-append : (xs ys : Bytes) → drop (length xs) (xs ++ ys) ≡ ys
drop-append [] ys = refl
drop-append (x ∷ xs) ys = drop-append xs ys

file_of-append :
    (pre post : List Logged) (more : Bytes)
    → file_of (pre ++ post) ++ more ≡ file_of pre ++ (file_of post ++ more)
file_of-append [] post more = refl
file_of-append (l ∷ pre) post more =
    append_assoc l.text (10 ∷ file_of (pre ++ post)) more
    ∙ ap (λ r. l.text ++ 10 ∷ r) (file_of-append pre post more)
    ∙ sym (append_assoc l.text (10 ∷ file_of pre) (file_of post ++ more))

module _ (lib : LogLib) (filter : AuditFilter) where
  -- The scanner hands on the line as it is.
  abbrev pub Scanned : Logged → Type 0
  Scanned l = (ltb (length l.text) scan_buffer ≡ true) × (lib.trim_space (drop_cr l.text) ≡ l.text)

  abbrev pub AllScanned : List Logged → Type 0
  AllScanned [] = Unit
  AllScanned (l ∷ ls) = Scanned l × AllScanned ls

  of_text-entry :
      (w : Bytes) → w ≢ [] → of_text lib filter w ≡ accepted lib filter (lib.unmarshal w)
  of_text-entry [] h = elim (h refl) [ ]
  of_text-entry (b ∷ w) h = refl

  -- The filter does not take a line that is earlier than the time it asks for.
  entry_of-early :
      (l : Logged) (since : ℕ)
      → Reads lib l
      → Scanned l
      → filter.since ≡ some since
      → ltb l.at since ≡ true
      → entry_of lib filter (drop_cr l.text) ≡ none
  unfolding entry_of accepts
  entry_of-early l since (_, some_text, decoded, timed) (_, same) asked early =
      let late : (not_before (some since) l.at && not_after filter.until l.at) ≡ false =
        ground (arith, early) in
      let out : at_time lib filter (lib.parse_time l.entry.time) ≡ false =
        ap (at_time lib filter) timed
        ∙ ap (λ s. not_before s l.at && not_after filter.until l.at) asked
        ∙ late in
      rw same (
        of_text-entry l.text some_text
        ∙ ap (accepted lib filter) decoded
        ∙ ap (λ b. if b then some l.entry else none)
            (and-false (is_or_any filter.action l.entry.action)
              (at_time lib filter (lib.parse_time l.entry.time))
              (is_or_any filter.client_cn l.entry.client_cn
                && (is_or_any filter.serial l.entry.client_serial
                    && is_or_any filter.mapping l.entry.mapping))
              out))

  scan_lines-early :
      (pre : List Logged) (since : ℕ) (rest : Bytes)
      → AllRead lib pre
      → AllScanned pre
      → filter.since ≡ some since
      → all (λ (x : Logged). ltb x.at since) pre ≡ true
      → scan_lines
          (line_entry lib filter)
          filter.limit
          (split_lines (file_of pre ++ rest))
          filter.offset
          0
        ≡ scan_lines (line_entry lib filter) filter.limit (split_lines rest) filter.offset 0
  unfolding scan_lines
  scan_lines-early [] since rest reads scans asked early = refl
  scan_lines-early (l ∷ pre) since rest (here, reads) (scan, scans) asked early =
      let fit : leb scan_buffer (length l.text) ≡ false = ground (arith, scan.0) in
      let skipped : entry_of lib filter (drop_cr l.text) ≡ none =
        entry_of-early l since here scan asked (ground (arith, early)) in
      ap (λ bs. scan_lines (line_entry lib filter) filter.limit (split_lines bs) filter.offset 0)
        (append_assoc l.text (10 ∷ file_of pre) rest)
      ∙ ap (λ ls. scan_lines (line_entry lib filter) filter.limit ls filter.offset 0)
          (split_lines-text l.text (file_of pre ++ rest) here.0)
      ∙ rw (fit, scan_lines)
          (rw (skipped, scan_lines)
            (scan_lines-early pre since rest reads scans asked (ground (arith, early))))

  AllRead-append : (pre post : List Logged) → AllRead lib (pre ++ post) → AllRead lib pre
  AllRead-append [] post h = tt
  AllRead-append (l ∷ pre) post h = (h.0, AllRead-append pre post h.1)

  AllScanned-append : (pre post : List Logged) → AllScanned (pre ++ post) → AllScanned pre
  AllScanned-append [] post h = tt
  AllScanned-append (l ∷ pre) post h = (h.0, AllScanned-append pre post h.1)

  module _ (ls : List Logged) (more : Bytes) (reads : AllRead lib ls) (scans : AllScanned ls)
      (sorted : InOrder ls) where
    from_offset :
        (since r : ℕ)
        → filter.since ≡ some since
        → find_start_offset lib since (file_of ls) ≡ some r
        → scan_lines
            (line_entry lib filter)
            filter.limit
            (split_lines (drop r (file_of ls ++ more)))
            filter.offset
            0
          ≡ scan_lines
              (line_entry lib filter)
              filter.limit
              (split_lines (file_of ls ++ more))
              filter.offset
              0
    from_offset since r asked found =
        let (pre, post, split, place, early) = search_sound lib since ls reads sorted r found in
        let whole : file_of ls ++ more ≡ file_of pre ++ (file_of post ++ more) =
          ap (λ x. file_of x ++ more) split ∙ file_of-append pre post more in
        let loop : Bytes → Found AuditEntry =
          λ bs. scan_lines (line_entry lib filter) filter.limit (split_lines bs) filter.offset 0 in
        ap (λ bs. loop (drop r bs)) whole
        ∙ ap (λ n. loop (drop n (file_of pre ++ (file_of post ++ more)))) place
        ∙ ap loop (drop-append (file_of pre) (file_of post ++ more))
        ∙ sym (
            ap loop whole
            ∙ scan_lines-early pre since (file_of post ++ more)
                (AllRead-append pre post (subst (AllRead lib) split reads))
                (AllScanned-append pre post (subst AllScanned split scans)) asked early)

    -- The binary search changes no answer: on a file of well-formed lines in the order of their times,
    -- which may have grown by any bytes since it was searched, a query in file order returns what
    -- reading from the start of the file returns.
    search_skips_nothing :
        str_eq filter.sort "desc" ≡ false
        → read_audit_entries lib filter (some (file_of ls)) (some (file_of ls ++ more))
          ≡ some (
              scan_lines
                (line_entry lib filter)
                filter.limit
                (split_lines (file_of ls ++ more))
                filter.offset
                0)
    unfolding read_audit_entries start_offset
    search_skips_nothing forward = rw forward (elim (Option-cases filter.since) [
      | inl unset ↦
          ap (λ t. read_forward lib filter (start_offset lib filter t (some (file_of ls))) grown)
            unset
      | inr (since, asked) ↦
          let (r, found) = search_ends lib since (file_of ls) in
          let start : start_offset lib filter filter.since (some (file_of ls)) ≡ r =
            ap (λ t. start_offset lib filter t (some (file_of ls))) asked
            ∙ ap (offset_or_start lib filter) found in
          ap (λ n. read_forward lib filter n grown) start
          ∙ ap some (from_offset since r asked found)
    ])
      where
        grown : Option Bytes
        grown = some (file_of ls ++ more)

    -- On a file of well-formed lines in the order of their times, which may have grown by any bytes since it
    -- was searched, and none of whose lines fills the scanner's buffer: a query in file order returns the
    -- entries of the whole file that the filter takes, in their order, without those that its offset and
    -- limit leave out. The binary search changes no answer.
    pub query_answers :
        str_eq filter.sort "desc" ≡ false
        → all (fits (line_entry lib filter) filter.limit) (split_lines (file_of ls ++ more)) ≡ true
        → read_audit_entries lib filter (some (file_of ls)) (some (file_of ls ++ more))
          ≡ some (
            page filter.limit filter.offset
                (all_items (line_entry lib filter) filter.limit (split_lines (file_of ls ++ more))),
            false,
          )
    query_answers forward short =
        search_skips_nothing forward
        ∙ ap some (
            scan_lines_lem (line_entry lib filter) filter.limit (split_lines (file_of ls ++ more))
              filter.offset short)
