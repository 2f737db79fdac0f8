-- ===== src/Supervision/Recorded.antt =====
-- supervision_store.go: what a query finds of the events that have been recorded.
use mathlib.Core.Path.{subst}
use mathlib.Core.List.{append_assoc, append-nil}
use aic_verifier.Prelude.{
  ℕ, ◌+◌, ◌≤◌, ◌≡◌, ◌≢◌, refl, sym, ap, ◌∙◌, Bool, true, false, not, Option, none, some, List, [],
  ◌∷◌, ◌++◌, map, length, ltb, all, filter, str_eq, arith, if◌then◌else◌, inl, inr, length-append,
  Bool-cases,
}
use aic_verifier.Merkle.{Bytes}
use aic_verifier.AuditLog.{split_lines, drop_cr, scan_buffer, page}
use aic_verifier.AuditLog.Read.{scan_lines, scan_lines_lem, all_items, fits}
use aic_verifier.AuditLog.Query.{split_lines-text}
use aic_verifier.AuditLog.Search.Lines.{no_newline}
use aic_verifier.AuditLog.Rotation.{RotatingFile, write}
use aic_verifier.AuditLog.Rotation.Segments.{write_segments, all_segments, concat}
use aic_verifier.AuditLog.Rotation.Stored.{sound_system, Stored, write_all, rotation_refines}
use aic_verifier.Supervision.{
  SupervisionEvent, SupervisionQuery, StoreLib, SupervisionStore, matches_supervision_query,
  record_event, record_line, recorded, StoreError, store_closed, invalid_event, event_of,
  event_of_text, matching, query_file, query,
}

-- Nothing is moved while all fits into the newest segment.
all_segments-fits :
    (max_size max_bak : ℕ) (ps : List Bytes) (s : Bytes) (ss : List Bytes)
    → length s + length (concat ps) ≤ max_size
    → all_segments max_size max_bak (s, ss) ps ≡ (s ++ concat ps, ss)
unfolding all_segments write_segments
all_segments-fits max_size max_bak [] s ss h = ap (λ x. (x, ss)) (sym (append-nil s))
all_segments-fits max_size max_bak (p ∷ ps) s ss h =
    let room : ltb max_size (length s + length p) ≡ false =
      ground (arith, h, length-append p (concat ps)) in
    rw (room, write_segments)
      (all_segments-fits max_size max_bak ps (s ++ p) ss
          (omega (arith, h, length-append s p, length-append p (concat ps)))
        ∙ ap (λ x. (x, ss)) (append_assoc s p (concat ps)))

module _ (lib : StoreLib) (line : SupervisionEvent → Bytes) where
  -- The event is valid and is written as one line, from which it is read back.
  abbrev pub Recordable : SupervisionEvent → Type 0
  Recordable ev =
      (lib.validate ev ≡ true)
      × (lib.marshal ev (lib.token ev) ≡ some (line ev))
      × (no_newline (line ev) ≡ true)
      × (line ev ≢ [])
      × (ltb (length (line ev)) scan_buffer ≡ true)
      × (lib.trim_space (drop_cr (line ev)) ≡ line ev)
      × (lib.unmarshal (line ev) ≡ some ev)

  abbrev pub AllRecordable : List SupervisionEvent → Type 0
  AllRecordable [] = Unit
  AllRecordable (ev ∷ evs) = Recordable ev × AllRecordable evs

  abbrev pub chunks : List SupervisionEvent → List Bytes
  chunks = map (λ ev. line ev ++ 10 ∷ [])

  split_lines-chunks :
      (evs : List SupervisionEvent)
      → AllRecordable evs
      → split_lines (concat (chunks evs)) ≡ map line evs
  split_lines-chunks [] h = unfold split_lines in refl
  split_lines-chunks (ev ∷ evs) (here, rest) =
      ap split_lines (append_assoc (line ev) (10 ∷ []) (concat (chunks evs)))
      ∙ split_lines-text (line ev) (concat (chunks evs)) here.2
      ∙ ap (λ ls. line ev ∷ ls) (split_lines-chunks evs rest)

  module _ (f : SupervisionQuery) where
    fits-lines :
        (evs : List SupervisionEvent)
        → AllRecordable evs
        → all (fits (event_of lib f) f.limit) (map line evs) ≡ true
    fits-lines [] h = refl
    fits-lines (ev ∷ evs) (here, rest) = ground (arith, here.4, fits-lines evs rest)

    event_of_text-line :
        (w : Bytes) → w ≢ [] → event_of_text lib f w ≡ matching lib f (lib.unmarshal w)
    event_of_text-line [] h = elim (h refl) [ ]
    event_of_text-line (b ∷ w) h = refl

    event_of-line :
        (ev : SupervisionEvent)
        → Recordable ev
        → event_of lib f (line ev) ≡ matching lib f (some ev)
    unfolding event_of
    event_of-line ev (_, _, _, some_text, _, same, decoded) =
        rw same (event_of_text-line (line ev) some_text ∙ ap (matching lib f) decoded)

    all_items-lines :
        (evs : List SupervisionEvent)
        → AllRecordable evs
        → all_items (event_of lib f) f.limit (map line evs)
          ≡ filter (λ ev. matches_supervision_query ev f) evs
    unfolding all_items
    all_items-lines [] h = refl
    all_items-lines (ev ∷ evs) (here, rest) =
        let below = all_items-lines evs rest in
        rw (event_of-line ev here, all_items)
          (elim (Bool-cases (matches_supervision_query ev f)) [
            | inl taken ↦ rw (taken, filter) (ap (λ es. ev ∷ es) below)
            | inr left ↦ rw (left, filter) below
          ])

  unfoldable pub record_all : List SupervisionEvent → SupervisionStore → SupervisionStore
  record_all [] s = s
  record_all (ev ∷ evs) s = record_all evs (record_event lib sound_system ev s).0

  recorded-w :
      (s : SupervisionStore) (o : RotatingFile × Bool)
      → (recorded lib sound_system s o).0 ≡ record s { w = o.0 }
  recorded-w s (w, true) = refl
  recorded-w s (w, false) = refl

  record_event-lem :
      (ev : SupervisionEvent) (s : SupervisionStore)
      → s.closed ≡ false
      → Recordable ev
      → (record_event lib sound_system ev s).0
        ≡ record s { w = (write sound_system s.w (line ev ++ 10 ∷ [])).0 }
  unfolding record_event
  record_event-lem ev s open_ here =
      let run : Bool → Bool → Option Bytes → SupervisionStore × Option StoreError = λ c v o.
        if c
        then (s, some store_closed)
        else if not v
        then (s, some invalid_event)
        else record_line lib sound_system s o in
      ap (λ c. (run c (lib.validate ev) (lib.marshal ev (lib.token ev))).0) open_
      ∙ ap (λ v. (run false v (lib.marshal ev (lib.token ev))).0) here.0
      ∙ ap (λ o. (run false true o).0) here.1
      ∙ recorded-w s (write sound_system s.w (line ev ++ 10 ∷ []))

  record_all-lem :
      (evs : List SupervisionEvent) (s : SupervisionStore)
      → s.closed ≡ false
      → AllRecordable evs
      → record_all evs s ≡ record s { w = write_all s.w (chunks evs) }
  unfolding record_all write_all
  record_all-lem [] s open_ h = refl
  record_all-lem (ev ∷ evs) s open_ (here, rest) =
      ap (record_all evs) (record_event-lem ev s open_ here)
      ∙ record_all-lem evs (record s { w = (write sound_system s.w (line ev ++ 10 ∷ [])).0 }) open_
          rest

  -- Events that are valid, are written as one line each and are read back from it: once they have been
  -- recorded in an open store whose file was empty and has room for them, and no call of the system
  -- fails, a query returns those that match it, in the order of recording, up to its limit.
  pub query_recorded :
      (evs : List SupervisionEvent) (s : SupervisionStore) (older : List Bytes)
      (f : SupervisionQuery)
      → s.closed ≡ false
      → str_eq s.file "" ≡ false
      → Stored ([], older) s.w
      → AllRecordable evs
      → length (concat (chunks evs)) ≤ s.w.max_size
      → query lib f (record_all evs s)
        ≡ some (page f.limit 0 (filter (λ ev. matches_supervision_query ev f) evs), false)
  unfolding query
  query_recorded evs s older f open_ named stored good room =
      let kept = rotation_refines s.w ([], older) (chunks evs) stored in
      let w = write_all s.w (chunks evs) in
      let here : w.files 0 ≡ some (concat (chunks evs)) =
        (subst (λ x. Stored x w)
          (all_segments-fits s.w.max_size s.w.max_bak (chunks evs) [] older (omega (arith, room)))
          kept.0).2 in
      ap (query lib f) (record_all-lem evs s open_ good)
      ∙ ap (λ b. if b then none else query_file lib f (w.files 0)) named
      ∙ ap (query_file lib f) here
      ∙ ap (λ ls. some (scan_lines (event_of lib f) f.limit ls 0 0)) (split_lines-chunks evs good)
      ∙ ap some (scan_lines_lem (event_of lib f) f.limit (map line evs) 0 (fits-lines f evs good))
      ∙ ap (λ es. some (page f.limit 0 es, false)) (all_items-lines f evs good)
