-- ===== src/Examples/Store.antt =====
-- The theorems on the rotated file, the logger and the supervision store at a file of four bytes.
use mathlib.Core.List.{Sublistᴰ}
use aic_verifier.Prelude.{
  ◌+◌, ◌≡◌, refl, String, true, false, Option, none, some, List, [], ◌∷◌, ◌++◌, length, filter,
  bytes_equal, str_eq, arith, if◌then◌else◌,
}
use aic_verifier.Merkle.{Bytes}
use aic_verifier.AuditLog.{AuditEntry, page, drop_cr}
use aic_verifier.AuditLog.Rotation.{RotatingFile, put, close}
use aic_verifier.AuditLog.Rotation.Segments.{all_segments, write_segments, EndsIn, bytes_of, concat}
use aic_verifier.AuditLog.Rotation.Stored.{sound_system, Stored, write_all, rotation_refines}
use aic_verifier.AuditLog.Logger.{
  Logger, Event, log_call, loop_step, timer, run, new_audit_logger, close_logger,
}
use aic_verifier.AuditLog.Logger.Accounts.{pending, calls}
use aic_verifier.AuditLog.Logger.Filed.{Filed, logger-Filed}
use aic_verifier.Supervision.{
  SupervisionEvent, SupervisionQuery, StoreLib, SupervisionStore, matches_supervision_query, query,
}
use aic_verifier.Supervision.Recorded.{AllRecordable, record_all, query_recorded}
use aic_verifier.Examples.Log.{entry, toy_trim}

abbrev small_file : RotatingFile
small_file = record {
  max_size = 4;
  max_bak = 1;
  is_open = true;
  size = 0;
  files = put 0 (some []) (λ k. none);
}

small_file-Stored : Stored ([], []) small_file
small_file-Stored = (refl, refl, refl, λ k h. ground arith)

abbrev writes : List Bytes
writes = (1 ∷ 2 ∷ []) ∷ (3 ∷ 4 ∷ 5 ∷ []) ∷ (6 ∷ []) ∷ (7 ∷ []) ∷ []

two_kept : all_segments 4 1 ([], []) writes ≡ (7 ∷ [], (3 ∷ 4 ∷ 5 ∷ 6 ∷ []) ∷ [])
unfolding all_segments write_segments
two_kept = refl

rotation_refines_example :
    Stored (all_segments 4 1 ([], []) writes) (write_all small_file writes)
    × EndsIn ([] ++ concat writes) (bytes_of (all_segments 4 1 ([], []) writes))
rotation_refines_example = rotation_refines small_file ([], []) writes small_file-Stored

abbrev some_events : List Event
some_events = log_call "a" (entry "") ∷ log_call "b" (entry "") ∷ loop_step ∷ timer 0 ∷ []

abbrev no_token : AuditEntry → Option Bytes
no_token e = none

abbrev toy_marshal : AuditEntry → Option Bytes → Bytes
toy_marshal e t = if str_eq e.time "a" then 97 ∷ [] else 98 ∷ []

abbrev logged_state : Logger
logged_state = run no_token toy_marshal sound_system some_events (new_audit_logger small_file)

logger-Filed_example :
    (written : List AuditEntry) × Filed no_token toy_marshal
      ([], [])
      small_file
      written
      logged_state.file
    × Sublistᴰ (written ++ pending logged_state) (calls some_events)
    × (length (written ++ pending logged_state) + logged_state.dropped ≡ 2)
    × ((f : RotatingFile) × ((close_logger no_token toy_marshal sound_system logged_state).file
          ≡ close f)
        × Filed no_token toy_marshal ([], []) small_file (written ++ logged_state.entries) f)
logger-Filed_example =
    logger-Filed no_token toy_marshal small_file ([], []) some_events small_file-Stored

abbrev event : String → SupervisionEvent
event id = record { operation_id = id; da_hash = ""; agent_id = ""; type = "approve"; ts = 5 }

abbrev event_line : SupervisionEvent → Bytes
event_line ev = if str_eq ev.operation_id "a" then 97 ∷ [] else 98 ∷ []

abbrev toy_store_lib : StoreLib
toy_store_lib = record {
  validate = λ ev. true;
  token = λ ev. none;
  marshal = λ ev t. some (event_line ev);
  unmarshal = λ bs. if bytes_equal bs (97 ∷ []) then some (event "a") else some (event "b");
  trim_space = toy_trim;
}

abbrev toy_store : SupervisionStore
toy_store = record { file = "events"; w = small_file; closed = false }

abbrev of_b : SupervisionQuery
of_b = record {
  operation_id = "b";
  da_hash = "";
  agent_id = "";
  type = "";
  time_range = none;
  limit = 0;
}

events-AllRecordable : AllRecordable toy_store_lib event_line (event "a" ∷ event "b" ∷ [])
unfolding drop_cr
events-AllRecordable = (
  (refl, refl, refl, (λ e. ground (arith, e)), refl, refl, refl),
  ((refl, refl, refl, (λ e. ground (arith, e)), refl, refl, refl), tt),
)

query_recorded_example :
    query toy_store_lib of_b
      (record_all toy_store_lib event_line (event "a" ∷ event "b" ∷ []) toy_store)
    ≡ some (
      page 0 0 (filter (λ ev. matches_supervision_query ev of_b) (event "a" ∷ event "b" ∷ [])),
      false,
    )
query_recorded_example =
    query_recorded toy_store_lib event_line (event "a" ∷ event "b" ∷ []) toy_store [] of_b refl refl
      small_file-Stored events-AllRecordable (omega arith)
