-- ===== src/AuditLog/Logger/Filed.antt =====
-- audit.go: what the entries that are given to `AuditLogger.Log` leave in the file and its backups.
use mathlib.Core.List.{Sublistᴰ}
use mathlib.Core.Path.{subst}
use aic_verifier.Prelude.{◌+◌, ◌≡◌, refl, sym, Option, List, [], ◌∷◌, ◌++◌, map, length}
use aic_verifier.Merkle.{Bytes}
use aic_verifier.AuditLog.{AuditEntry}
use aic_verifier.AuditLog.Rotation.{RotatingFile, close}
use aic_verifier.AuditLog.Rotation.Segments.{Segments, all_segments, concat, bytes_of, EndsIn}
use aic_verifier.AuditLog.Rotation.Stored.{sound_system, Stored, write_all, rotation_refines}
use aic_verifier.AuditLog.Logger.{new_audit_logger, log_sync, drain, close_logger, Event, run}
use aic_verifier.AuditLog.Logger.Accounts.{pending, calls, logger_accounts}

module _ (token : AuditEntry → Option Bytes) (marshal : AuditEntry → Option Bytes → Bytes) where
  -- the line of an entry
  abbrev pub line : AuditEntry → Bytes
  line e = marshal e (token e) ++ 10 ∷ []

  drain-write_all :
      (es : List AuditEntry) (file : RotatingFile)
      → drain token marshal sound_system es file ≡ write_all file (map line es)
  unfolding drain log_sync write_all
  drain-write_all [] file = refl
  drain-write_all (e ∷ es) file = drain-write_all es (log_sync token marshal sound_system e file)

  -- the lines of entries, behind segments: what the file and its backups store
  abbrev pub Filed : Segments → RotatingFile → List AuditEntry → RotatingFile → Type 0
  Filed segments file es f =
      Stored (all_segments file.max_size file.max_bak segments (map line es)) f
      × EndsIn (bytes_of segments ++ concat (map line es))
          (bytes_of (all_segments file.max_size file.max_bak segments (map line es)))

  drain-Filed :
      (segments : Segments) (file : RotatingFile) (es : List AuditEntry)
      → Stored segments file
      → Filed segments file es (drain token marshal sound_system es file)
  drain-Filed segments file es h =
      subst (Filed segments file es) (sym (drain-write_all es file))
        (rotation_refines file segments (map line es) h)

  -- Where no call of the system fails and the file and its backups store given segments: whatever calls,
  -- rounds of the writer and timers come, in any order, the file and its backups store the segments that
  -- the lines of some entries yield, which are the end of those lines behind the bytes of before. These
  -- entries followed by those that are pending are, in the order of the calls, what the calls brought
  -- without what has been dropped, and each dropped entry has been counted. Closing the logger closes the
  -- file that the lines of the entries in the channel have been written to as well, in that order.
  pub logger-Filed :
      (file : RotatingFile) (segments : Segments) (es : List Event)
      → Stored segments file
      → let l = run token marshal sound_system es (new_audit_logger file) in
        (written : List AuditEntry) × Filed segments file written l.file
        × Sublistᴰ (written ++ pending l) (calls es)
        × (length (written ++ pending l) + l.dropped ≡ length (calls es))
        × ((f : RotatingFile) × ((close_logger token marshal sound_system l).file ≡ close f)
            × Filed segments file (written ++ l.entries) f)
  logger-Filed file segments es h =
      let l = run token marshal sound_system es (new_audit_logger file) in
      let (written, reached, sub, count, closed) =
        logger_accounts token marshal sound_system file es in
      (
        written,
        subst (Filed segments file written) (sym reached) (drain-Filed segments file written h),
        sub,
        count,
        (
          drain token marshal sound_system (written ++ l.entries) file,
          closed,
          drain-Filed segments file (written ++ l.entries) h,
        ),
      )
