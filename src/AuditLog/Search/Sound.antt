-- ===== src/AuditLog/Search/Sound.antt =====
-- audit.go: what `FindStartOffsetByTime` finds in a file of well-formed lines in the order of their times.
use mathlib.Core.Path.{subst}
use mathlib.Core.List.{append_assoc}
use aic_verifier.Prelude.{
  ℕ, zero, suc, ◌+◌, ◌/◌, ◌≡◌, ◌≢◌, refl, sym, ap, ◌∙◌, true, some, List, [], ◌∷◌, ◌++◌, length,
  drop, ltb, leb, all, arith, inl, inr, length-append, Bool-cases,
}
use aic_verifier.Merkle.{Bytes}
use aic_verifier.AuditLog.{LogLib}
use aic_verifier.AuditLog.Search.{
  upper, skip_line, probe, probe_rest, probe_line, probe_entry, search, find_start_offset,
  Probe-cases,
}
use aic_verifier.AuditLog.Search.Lines.{
  Logged, file_of, no_newline, InOrder, until_newline-text, Located, clean, locate, all-middle,
}

-- The offset is the start of a line, or the end, and every line in front of it is early.
abbrev pub Before : List Logged → ℕ → ℕ → Type 0
Before ls target k =
    (pre : List Logged) × (post : List Logged) × (ls ≡ pre ++ post)
    × (k ≡ length (file_of pre))
    × (all (λ (x : Logged). ltb x.at target) pre ≡ true)

-- In order, the lines in front of an early line are early.
early-before :
    (pre : List Logged) (l : Logged) (post : List Logged) (target : ℕ)
    → InOrder (pre ++ l ∷ post)
    → ltb l.at target ≡ true
    → all (λ (x : Logged). ltb x.at target) (pre ++ l ∷ []) ≡ true
early-before [] l post target sorted early = rw early refl
early-before (x ∷ pre) l post target (first, rest) early =
    let below = early-before pre l post target rest early in
    let le : leb x.at l.at ≡ true = all-middle (λ (y : Logged). leb x.at y.at) pre l post first in
    ground (arith, below, le, early)

length-file_of :
    (pre : List Logged) (l : Logged)
    → length (file_of (pre ++ l ∷ [])) ≡ length (file_of pre) + length l.text + 1
length-file_of [] l = omega (arith, length-append l.text (10 ∷ []))
length-file_of (x ∷ pre) l = omega (
  arith,
  length-file_of pre l,
  length-append x.text (10 ∷ file_of pre),
  length-append x.text (10 ∷ file_of (pre ++ l ∷ [])),
)

module _ (lib : LogLib) where
  -- The line is not empty, and is read as the entry with its time.
  abbrev pub Reads : Logged → Type 0
  Reads l =
      (no_newline l.text ≡ true)
      × (l.text ≢ [])
      × (lib.unmarshal l.text ≡ some l.entry)
      × (lib.parse_time l.entry.time ≡ some l.at)

  abbrev pub AllRead : List Logged → Type 0
  AllRead [] = Unit
  AllRead (l ∷ ls) = Reads l × AllRead ls

  AllRead-clean : (ls : List Logged) → AllRead ls → clean ls ≡ true
  AllRead-clean [] h = refl
  AllRead-clean (l ∷ ls) h = ground (arith, h.0.0, AllRead-clean ls h.1)

  AllRead-middle :
      (pre : List Logged) (l : Logged) (post : List Logged) → AllRead (pre ++ l ∷ post) → Reads l
  AllRead-middle [] l post h = h.0
  AllRead-middle (x ∷ pre) l post h = AllRead-middle pre l post h.1

module _ (lib : LogLib) (target : ℕ) where
  -- A round that moves the lower end saw an early line, and moves behind it.
  probe_entry-upper :
      (l : Logged) (stop next : ℕ)
      → Reads lib l
      → probe_entry lib target stop (lib.unmarshal l.text) ≡ upper next
      → (ltb l.at target ≡ true) × (next ≡ stop + 1)
  probe_entry-upper l stop next (_, _, decoded, timed) = rw decoded (
      rw timed (elim (Bool-cases (ltb l.at target)) [
        | inl early ↦ rw early (λ e. (refl, ground (arith, e)))
        | inr late ↦ rw late (λ e. absurd (ground (arith, e)))
      ]))

  probe_line-entry :
      (mid start : ℕ) (w : Bytes)
      → w ≢ []
      → probe_line lib target mid start w
        ≡ probe_entry lib target (start + length w) (lib.unmarshal w)
  probe_line-entry mid start [] h = elim (h refl) [ ]
  probe_line-entry mid start (b ∷ w) h = refl

  probe_rest-line :
      (mid start : ℕ) (w rest : Bytes)
      → no_newline w ≡ true
      → probe_rest lib target mid start (w ++ 10 ∷ rest) ≡ probe_line lib target mid start w
  probe_rest-line mid start [] rest h =
      ap (probe_line lib target mid start) (until_newline-text [] rest h)
  probe_rest-line mid start (b ∷ w) rest h =
      ap (probe_line lib target mid start) (until_newline-text (b ∷ w) rest h)

  module _ (ls : List Logged) (reads : AllRead lib ls) (sorted : InOrder ls) where
    Located-Before :
        (mid next : ℕ) (passed : ℕ × Bytes)
        → Located ls passed mid
        → probe_rest lib target mid (mid + passed.0) passed.1 ≡ upper next
        → Before ls target next
    Located-Before mid next passed (inl done) e =
        absurd (ground (arith, ap (probe_rest lib target mid (mid + passed.0)) done, e))
    Located-Before mid next passed (inr (pre, l, post, split, rest, place)) e =
        let here : Reads lib l = AllRead-middle lib pre l post (subst (AllRead lib) split reads) in
        let start = mid + passed.0 in
        let line : probe_entry lib target (start + length l.text) (lib.unmarshal l.text)
            ≡ upper next =
          sym (
            ap (probe_rest lib target mid start) rest
            ∙ probe_rest-line mid start l.text (file_of post) here.0
            ∙ probe_line-entry mid start l.text here.1)
          ∙ e in
        let (early, stop) = probe_entry-upper l (start + length l.text) next here line in
        (
          pre ++ l ∷ [],
          post,
          split ∙ sym (append_assoc pre (l ∷ []) post),
          omega (arith, stop, place, length-file_of pre l),
          early-before pre l post target (subst InOrder split sorted) early,
        )

    probe-Before :
        (mid next : ℕ) → probe lib target (file_of ls) mid ≡ upper next → Before ls target next
    unfolding probe
    probe-Before mid next e =
        Located-Before mid next (skip_line (drop mid (file_of ls)))
          (locate ls mid (AllRead-clean lib ls reads)) e

    search-Before :
        (fuel lo hi r : ℕ)
        → Before ls target lo
        → search lib target (file_of ls) fuel lo hi ≡ some r
        → Before ls target r
    unfolding search
    search-Before zero lo hi r start = λ e. absurd (ground (arith, e))
    search-Before (suc fuel) lo hi r start = elim (Bool-cases (ltb lo hi)) [
      | inr done ↦ rw (done, search) (λ e. subst (Before ls target) (ground (arith, e)) start)
      | inl open_ ↦
          let mid = (lo + hi) / 2 in
          rw (open_, search)
            (elim (Probe-cases (probe lib target (file_of ls) mid)) [
              | inl shrunk ↦ rw (shrunk, search) (λ e. search-Before fuel lo mid r start e)
              | inr (next, raised) ↦
                  rw (raised, search)
                    (λ e. search-Before fuel next hi r (probe-Before mid next raised) e)
            ])
    ]

    -- In a file of well-formed lines in the order of their times, the search finds the start of a line
    -- or the end of the file, and every line in front of it is earlier than the target.
    pub search_sound :
        (r : ℕ) → find_start_offset lib target (file_of ls) ≡ some r → Before ls target r
    unfolding find_start_offset
    search_sound r e =
        search-Before (suc (length (file_of ls))) 0 (length (file_of ls)) r
          ([], ls, refl, refl, refl) e
