-- ===== src/AuditLog/Logger.antt =====
-- audit.go: `AuditLogger`, its buffered channel and the goroutine that writes. A caller with a critical
-- entry waits while the channel is full, until the goroutine makes room, its timer runs out, or the channel
-- is closed (the send then panics, and `Log` recovers). What the time-stamp authority answers for an entry
-- in time is a parameter, and so is `json.Marshal`.
pub mod Accounts
pub mod Filed
use aic_verifier.Prelude.{
  ℕ, zero, suc, ◌+◌, String, Bool, true, false, Option, none, some, List, [], ◌∷◌, ◌++◌, length,
  ltb, if◌then◌else◌,
}
use aic_verifier.Merkle.{Bytes}
use aic_verifier.AuditLog.{AuditEntry, is_audit_critical}
use aic_verifier.AuditLog.Rotation.{RotatingFile, Answers, write, close}

pub record Logger : Type 0 where
  -- the entries in the channel, and those of the callers that wait to send
  pub entries : List AuditEntry
  pub waiting : List AuditEntry
  pub dropped : ℕ
  pub stopped : Bool
  pub file : RotatingFile

abbrev pub buffer_size : ℕ
buffer_size = 8192

unfoldable pub new_audit_logger : RotatingFile → Logger
new_audit_logger file = record {
  entries = [];
  waiting = [];
  dropped = 0;
  stopped = false;
  file = file;
}

unfoldable pub enqueue : AuditEntry → Logger → Logger
enqueue e l =
    if ltb (length l.entries) buffer_size
    then record l { entries = l.entries ++ e ∷ [] }
    else if is_audit_critical e
    then record l { waiting = l.waiting ++ e ∷ [] }
    else record l { dropped = suc l.dropped }

-- an entry at the time of the call
abbrev pub stamped : String → AuditEntry → AuditEntry
stamped now e = record e { time = now }

unfoldable pub log : String → AuditEntry → Logger → Logger
log now e l = if l.stopped then l else enqueue (stamped now e) l

abbrev pub without : ℕ → List AuditEntry → List AuditEntry
without i [] = []
without zero (e ∷ es) = es
without (suc i) (e ∷ es) = e ∷ without i es

-- the timer of the i-th caller that waits runs out
unfoldable pub time_out : ℕ → Logger → Logger
time_out i l =
    if ltb i (length l.waiting)
    then record l { waiting = without i l.waiting; dropped = suc l.dropped }
    else l

pub data Event : Type 0 where
  log_call : String → AuditEntry → Event
  loop_step : Event
  timer : ℕ → Event

module _ (token : AuditEntry → Option Bytes) (marshal : AuditEntry → Option Bytes → Bytes)
    (a : Answers) where
  -- an error is printed
  unfoldable pub log_sync : AuditEntry → RotatingFile → RotatingFile
  log_sync e file = (write a file (marshal e (token e) ++ 10 ∷ [])).0

  abbrev pub receive : List AuditEntry → List AuditEntry → Logger → Logger
  receive [] ws l = l
  receive (e ∷ es) [] l = record l { entries = es; file = log_sync e l.file }
  receive (e ∷ es) (w ∷ ws) l = record l {
    entries = es ++ w ∷ [];
    waiting = ws;
    file = log_sync e l.file;
  }

  -- one round of `loop`: what has waited longest takes the place that becomes free
  unfoldable pub loop_round : Logger → Logger
  loop_round l = receive l.entries l.waiting l

  unfoldable pub drain : List AuditEntry → RotatingFile → RotatingFile
  drain [] file = file
  drain (e ∷ es) file = drain es (log_sync e file)

  -- `Close` waits until the goroutine has written what the channel holds.
  unfoldable pub close_logger : Logger → Logger
  close_logger l = if l.stopped then l else record l {
    entries = [];
    waiting = [];
    stopped = true;
    file = close (drain l.entries l.file);
  }

  abbrev pub step : Event → Logger → Logger
  step (log_call now e) l = log now e l
  step loop_step l = loop_round l
  step (timer i) l = time_out i l

  unfoldable pub run : List Event → Logger → Logger
  run [] l = l
  run (e ∷ es) l = run es (step e l)
