-- ===== src/AuditLog/Logger/Accounts.antt =====
-- audit.go: what becomes of the entries that are given to `AuditLogger.Log`.
use mathlib.Core.List.{append_assoc, append-nil, Sublistᴰ}
use mathlib.Core.List.Sublistᴰ
use mathlib.Core.Path.{subst}
use aic_verifier.Prelude.{
  ℕ, zero, suc, ◌+◌, ◌≤◌, ◌<◌, ◌≡◌, refl, sym, ap, ◌∙◌, ◌⊎◌, inl, inr, Bool, true, false, Option,
  List, [], ◌∷◌, ◌++◌, length, ltb, if◌then◌else◌, arith, length-append, Bool-cases,
}
use aic_verifier.Merkle.{Bytes}
use aic_verifier.AuditLog.{AuditEntry, is_audit_critical}
use aic_verifier.AuditLog.Rotation.{RotatingFile, Answers, close}
use aic_verifier.AuditLog.Logger.{
  Logger, buffer_size, new_audit_logger, enqueue, stamped, log, without, time_out, log_sync,
  receive, loop_round, drain, close_logger, Event, log_call, loop_step, timer, run,
}

-- Behind the entries in the channel stand those of the callers that wait.
abbrev pub pending : Logger → List AuditEntry
pending l = l.entries ++ l.waiting

without-Sublist : (i : ℕ) (es : List AuditEntry) → Sublistᴰ (without i es) es
without-Sublist i [] = Sublistᴰ.slnil
without-Sublist zero (e ∷ es) = Sublistᴰ.cons (Sublistᴰ.refl es)
without-Sublist (suc i) (e ∷ es) = Sublistᴰ.cons-cons refl (without-Sublist i es)

length-without :
    (i : ℕ) (es : List AuditEntry) → i < length es → suc (length (without i es)) ≡ length es
length-without i [] h = elim h [ ]
length-without zero (e ∷ es) h = refl
length-without (suc i) (e ∷ es) h = ap suc (length-without i es (omega (arith, h)))

-- Of the entries that were given, in their order, some have been written, some are pending, and the others
-- are counted; a caller waits only while the channel is full.
abbrev Accounted : List AuditEntry → List AuditEntry → Logger → Type 0
Accounted made written l =
    Sublistᴰ (written ++ pending l) made
    × (length (written ++ pending l) + l.dropped ≡ length made)
    × (l.stopped ≡ false)
    × ((l.waiting ≡ []) ⊎ (buffer_size ≤ length l.entries))

-- one more entry behind the others
snoc-Accounted :
    (made written es es' : List AuditEntry) (e : AuditEntry) (dropped : ℕ)
    → es' ≡ es ++ e ∷ []
    → Sublistᴰ (written ++ es) made
    → length (written ++ es) + dropped ≡ length made
    → Sublistᴰ (written ++ es') (made ++ e ∷ [])
      × (length (written ++ es') + dropped ≡ length (made ++ e ∷ []))
snoc-Accounted made written es es' e dropped same sub count =
    let whole : written ++ es' ≡ (written ++ es) ++ e ∷ [] =
      ap (λ x. written ++ x) same ∙ sym (append_assoc written es (e ∷ [])) in
    rw whole (
      Sublistᴰ.append sub (Sublistᴰ.refl (e ∷ [])),
      omega (arith, count, length-append (written ++ es) (e ∷ []), length-append made (e ∷ [])),
    )

enqueue-Accounted :
    (made written : List AuditEntry) (e : AuditEntry) (l : Logger)
    → Accounted made written l
    → Accounted (made ++ e ∷ []) written (enqueue e l)
unfolding enqueue
enqueue-Accounted made written e l (sub, count, going, wait) =
    elim (Bool-cases (ltb (length l.entries) buffer_size)) [
      | inl room ↦
          let nobody : l.waiting ≡ [] = alone room wait in
          let moved : (l.entries ++ e ∷ []) ++ l.waiting ≡ pending l ++ e ∷ [] =
            ap (λ x. (l.entries ++ e ∷ []) ++ x) nobody
            ∙ append-nil (l.entries ++ e ∷ [])
            ∙ ap (λ x. x ++ e ∷ []) (sym (append-nil l.entries))
            ∙ ap (λ x. (l.entries ++ x) ++ e ∷ []) (sym nobody) in
          let (s, c) =
            snoc-Accounted made written (pending l) ((l.entries ++ e ∷ []) ++ l.waiting) e l.dropped
              moved sub count in
          rw (room, enqueue) (s, c, going, inl nobody)
      | inr full ↦
          let fills : buffer_size ≤ length l.entries = ground (arith, full) in
          rw (full, enqueue)
            (elim (Bool-cases (is_audit_critical e)) [
              | inl critical ↦
                  let (s, c) =
                    snoc-Accounted made written (pending l) (l.entries ++ (l.waiting ++ e ∷ [])) e
                      l.dropped (sym (append_assoc l.entries l.waiting (e ∷ []))) sub count in
                  rw (critical, enqueue) (s, c, going, inr fills)
              | inr plain ↦
                  rw (plain, enqueue)
                    (
                      Sublistᴰ.trans sub (
                          subst (λ x. Sublistᴰ x (made ++ e ∷ [])) (append-nil made)
                            (Sublistᴰ.append (Sublistᴰ.refl made) (Sublistᴰ.cons Sublistᴰ.slnil))),
                      omega (arith, count, length-append made (e ∷ [])),
                      going,
                      wait,
                    )
            ])
    ]
  where
    alone :
        ltb (length l.entries) buffer_size ≡ true
        → (l.waiting ≡ []) ⊎ (buffer_size ≤ length l.entries)
        → l.waiting ≡ []
    alone room (inl nobody) = nobody
    alone room (inr full) = absurd (ground (arith, room, full))

time_out-Accounted :
    (made written : List AuditEntry) (i : ℕ) (l : Logger)
    → Accounted made written l
    → Accounted made written (time_out i l)
unfolding time_out
time_out-Accounted made written i l (sub, count, going, wait) =
    elim (Bool-cases (ltb i (length l.waiting))) [
      | inr nobody ↦ rw (nobody, time_out) (sub, count, going, wait)
      | inl somebody ↦
          let shorter = length-without i l.waiting (ground (arith, somebody)) in
          rw (somebody, time_out)
            (
              Sublistᴰ.trans
                  (Sublistᴰ.append (Sublistᴰ.refl written)
                    (Sublistᴰ.append (Sublistᴰ.refl l.entries) (without-Sublist i l.waiting)))
                  sub,
              omega (
                arith,
                count,
                shorter,
                length-append written (pending l),
                length-append l.entries l.waiting,
                length-append written (l.entries ++ without i l.waiting),
                length-append l.entries (without i l.waiting),
              ),
              going,
              elim wait [
                | inl none_waits ↦ absurd (ground (arith, somebody, ap length none_waits))
                | inr full ↦ inr full
              ],
            )
    ]

-- the same entries, of which others count as written
regroup :
    (made written written' : List AuditEntry) (l l' : Logger)
    → written ++ pending l ≡ written' ++ pending l'
    → l.dropped ≡ l'.dropped
    → l.stopped ≡ l'.stopped
    → (l'.waiting ≡ []) ⊎ (buffer_size ≤ length l'.entries)
    → Accounted made written l
    → Accounted made written' l'
regroup made written written' l l' same drop stop wait (sub, count, going, _) = (
  subst (λ x. Sublistᴰ x made) same sub,
  omega (arith, ap length same, drop, count),
  sym stop ∙ going,
  wait,
)

-- the entries that the calls of `Log` bring, at their times
abbrev pub calls : List Event → List AuditEntry
calls [] = []
calls (log_call now e ∷ es) = stamped now e ∷ calls es
calls (loop_step ∷ es) = calls es
calls (timer i ∷ es) = calls es

enqueue-file : (e : AuditEntry) (l : Logger) → (enqueue e l).file ≡ l.file
unfolding enqueue
enqueue-file e l = elim (Bool-cases (ltb (length l.entries) buffer_size)) [
  | inl room ↦ rw (room, enqueue) refl
  | inr full ↦
      rw (full, enqueue)
        (elim (Bool-cases (is_audit_critical e)) [
          | inl critical ↦ rw (critical, enqueue) refl
          | inr plain ↦ rw (plain, enqueue) refl
        ])
]

time_out-file : (i : ℕ) (l : Logger) → (time_out i l).file ≡ l.file
unfolding time_out
time_out-file i l = elim (Bool-cases (ltb i (length l.waiting))) [
  | inl somebody ↦ rw (somebody, time_out) refl
  | inr nobody ↦ rw (nobody, time_out) refl
]

module _ (token : AuditEntry → Option Bytes) (marshal : AuditEntry → Option Bytes → Bytes)
    (a : Answers) where
  drain-append :
      (es fs : List AuditEntry) (file : RotatingFile)
      → drain token marshal a (es ++ fs) file
        ≡ drain token marshal a fs (drain token marshal a es file)
  unfolding drain
  drain-append [] fs file = refl
  drain-append (e ∷ es) fs file = drain-append es fs (log_sync token marshal a e file)

  closed :
      (l : Logger) (written : List AuditEntry) (file : RotatingFile)
      → l.stopped ≡ false
      → l.file ≡ drain token marshal a written file
      → (close_logger token marshal a l).file
        ≡ close (drain token marshal a (written ++ l.entries) file)
  unfolding close_logger
  closed l written file going reached =
      let shut : Bool → Logger = λ b. if b then l else record l {
        entries = [];
        waiting = [];
        stopped = true;
        file = close (drain token marshal a l.entries l.file);
      } in
      ap (λ b. (shut b).file) going
      ∙ ap (λ f. close (drain token marshal a l.entries f)) reached
      ∙ ap close (sym (drain-append written l.entries file))

  module _ (file : RotatingFile) (made : List AuditEntry) where
    -- what has been written has reached the file
    abbrev Reached : Logger → Type 0
    Reached l =
        (written : List AuditEntry) × Accounted made written l
        × (l.file ≡ drain token marshal a written file)

    receive-Reached :
        (es ws : List AuditEntry) (l : Logger)
        → l.entries ≡ es
        → l.waiting ≡ ws
        → Reached l
        → Reached (receive token marshal a es ws l)
    receive-Reached [] ws l first behind h = h
    receive-Reached (e ∷ es) [] l first behind (written, ok, reached) = (
      written ++ e ∷ [],
      regroup made written (written ++ e ∷ []) l (receive token marshal a (e ∷ es) [] l)
          (ap (λ x. written ++ (x ++ l.waiting)) first
            ∙ sym (append_assoc written (e ∷ []) (es ++ l.waiting)))
          refl refl (inl behind) ok,
      ap (log_sync token marshal a e) reached
          ∙ sym (unfold drain in drain-append written (e ∷ []) file),
    )
    receive-Reached (e ∷ es) (w ∷ ws) l first behind (written, ok, reached) = (
      written ++ e ∷ [],
      regroup made written (written ++ e ∷ []) l (receive token marshal a (e ∷ es) (w ∷ ws) l)
          (ap (λ x. written ++ (x ++ l.waiting)) first
            ∙ ap (λ x. written ++ ((e ∷ es) ++ x)) behind
            ∙ ap (λ x. written ++ (e ∷ x)) (sym (append_assoc es (w ∷ []) ws))
            ∙ sym (append_assoc written (e ∷ []) ((es ++ w ∷ []) ++ ws)))
          refl refl (inr (still_full ok.3)) ok,
      ap (log_sync token marshal a e) reached
          ∙ sym (unfold drain in drain-append written (e ∷ []) file),
    )
      where
        still_full :
            (l.waiting ≡ []) ⊎ (buffer_size ≤ length l.entries)
            → buffer_size ≤ length (es ++ w ∷ [])
        still_full (inl nobody) = absurd (ground (arith, ap length nobody, ap length behind))
        still_full (inr full) = omega (arith, full, ap length first, length-append es (w ∷ []))

  run-Reached :
      (file : RotatingFile) (made : List AuditEntry) (es : List Event) (l : Logger)
      → Reached file made l
      → Reached file (made ++ calls es) (run token marshal a es l)
  unfolding run
  run-Reached file made [] l (written, ok, reached) =
      (written, subst (λ x. Accounted x written l) (sym (append-nil made)) ok, reached)
  run-Reached file made (log_call now e ∷ es) l (written, ok, reached) =
      let entry = stamped now e in
      let going : log now e l ≡ enqueue entry l =
        unfold log in ap (λ b. if b then l else enqueue entry l) ok.2 in
      let moved : Reached file (made ++ entry ∷ []) (enqueue entry l) =
        (written, enqueue-Accounted made written entry l ok, enqueue-file entry l ∙ reached) in
      subst (λ x. Reached file x (run token marshal a es (log now e l)))
        (append_assoc made (entry ∷ []) (calls es))
        (run-Reached file (made ++ entry ∷ []) es (log now e l)
          (subst (Reached file (made ++ entry ∷ [])) (sym going) moved))
  run-Reached file made (loop_step ∷ es) l h =
      run-Reached file made es (loop_round token marshal a l)
        (unfold loop_round in receive-Reached file made l.entries l.waiting l refl refl h)
  run-Reached file made (timer i ∷ es) l (written, ok, reached) =
      run-Reached file made es (time_out i l)
        (written, time_out-Accounted made written i l ok, time_out-file i l ∙ reached)

  -- Whatever calls, rounds of the writer and timers come, in any order: what has been given to `log_sync`
  -- followed by what is pending is, in the order of the calls, what they brought without what has been
  -- dropped, and each dropped entry has been counted. Closing the logger then writes all that the
  -- channel holds, in that order, and closes the file.
  pub logger_accounts :
      (file : RotatingFile) (es : List Event)
      → (written : List AuditEntry) × ((run token marshal a es (new_audit_logger file)).file
          ≡ drain token marshal a written file)
        × Sublistᴰ (written ++ pending (run token marshal a es (new_audit_logger file))) (calls es)
        × (length (written ++ pending (run token marshal a es (new_audit_logger file)))
              + (run token marshal a es (new_audit_logger file)).dropped
            ≡ length (calls es))
        × ((close_logger token marshal a (run token marshal a es (new_audit_logger file))).file
            ≡ close (
                drain token marshal a
                  (written ++ (run token marshal a es (new_audit_logger file)).entries)
                  file))
  unfolding new_audit_logger
  logger_accounts file es =
      let l = run token marshal a es (new_audit_logger file) in
      let (written, (sub, count, going, _), reached) =
        run-Reached file [] es (new_audit_logger file)
          ([], (Sublistᴰ.slnil, refl, refl, inl refl), unfold drain in refl) in
      (written, reached, sub, count, closed l written file going reached)
