-- ===== src/Supervision.antt =====
-- supervision_store.go: the append-only store of supervision events. Of an event the fields that the code
-- reads stand here; `pki.ValidateSupervisionEvent`, encoding/json and the time-stamp client are the fields of
-- `StoreLib`. The mutex makes each call one step.
pub mod Recorded
use aic_verifier.Prelude.{
  ℕ, String, Bool, true, false, not, ◌&&◌, ◌||◌, Option, none, some, List, [], ◌∷◌, ◌++◌, ltb,
  str_eq, if◌then◌else◌,
}
use aic_verifier.Merkle.{Bytes}
use aic_verifier.AuditLog.{is_or_any, not_before, not_after, split_lines, drop_cr}
use aic_verifier.AuditLog.Read.{Found, scan_lines}
use aic_verifier.AuditLog.Rotation.{RotatingFile, Answers, Files, new_rotating_file, write, close}

pub record SupervisionEvent : Type 0 where
  pub operation_id : String
  pub da_hash : String
  pub agent_id : String
  pub type : String
  pub ts : ℕ

-- none for the zero time
pub record TimeRange : Type 0 where
  pub start : Option ℕ
  pub end : Option ℕ

pub record SupervisionQuery : Type 0 where
  pub operation_id : String
  pub da_hash : String
  pub agent_id : String
  pub type : String
  pub time_range : Option TimeRange
  pub limit : ℕ

pub record StoreLib : Type 0 where
  -- true for nil
  pub validate : SupervisionEvent → Bool
  -- the attestation, if there is a client and it signs
  pub token : SupervisionEvent → Option Bytes
  pub marshal : SupervisionEvent → Option Bytes → Option Bytes
  pub unmarshal : Bytes → Option SupervisionEvent
  pub trim_space : Bytes → Bytes

pub record SupervisionStore : Type 0 where
  pub file : String
  pub w : RotatingFile
  pub closed : Bool

pub data StoreError : Type 0 where
  nil_store store_closed invalid_event not_marshalled write_failed no_file not_opened : StoreError

abbrev pub with_file : String → Option RotatingFile → Option StoreError × Option SupervisionStore
with_file file none = (some not_opened, none)
with_file file (some w) = (none, some (record { file = file; w = w; closed = false }))

-- no store and no error for an empty path
unfoldable pub new_supervision_store :
    String → ℕ → ℕ → Bool → Files → Option StoreError × Option SupervisionStore
new_supervision_store file max_size max_bak open_fails files =
    if str_eq file ""
    then (none, none)
    else with_file file (new_rotating_file max_size max_bak open_fails files)

abbrev pub in_range : Option TimeRange → ℕ → Bool
in_range none t = true
in_range (some r) t = not_before r.start t && not_after r.end t

unfoldable pub matches_supervision_query : SupervisionEvent → SupervisionQuery → Bool
matches_supervision_query ev f =
    is_or_any f.operation_id ev.operation_id
    && (is_or_any f.da_hash ev.da_hash
        && (is_or_any f.agent_id ev.agent_id
            && (is_or_any f.type ev.type && in_range f.time_range ev.ts)))

module _ (lib : StoreLib) (a : Answers) where
  abbrev pub recorded :
      SupervisionStore → RotatingFile × Bool → SupervisionStore × Option StoreError
  recorded s (w, true) = (record s { w = w }, some write_failed)
  recorded s (w, false) = (record s { w = w }, none)

  abbrev pub record_line : SupervisionStore → Option Bytes → SupervisionStore × Option StoreError
  record_line s none = (s, some not_marshalled)
  record_line s (some line) = recorded s (write a s.w (line ++ 10 ∷ []))

  -- `Record` of a store that is there; a store that is not is `nil_store`
  unfoldable pub record_event :
      SupervisionEvent → SupervisionStore → SupervisionStore × Option StoreError
  record_event ev s =
      if s.closed
      then (s, some store_closed)
      else if not (lib.validate ev)
      then (s, some invalid_event)
      else record_line s (lib.marshal ev (lib.token ev))

unfoldable pub close_store : SupervisionStore → SupervisionStore
close_store s = if s.closed then s else record s { w = close s.w; closed = true }

module _ (lib : StoreLib) (filter : SupervisionQuery) where
  abbrev pub matching : Option SupervisionEvent → Option SupervisionEvent
  matching none = none
  matching (some ev) = if matches_supervision_query ev filter then some ev else none

  abbrev pub event_of_text : Bytes → Option SupervisionEvent
  event_of_text [] = none
  event_of_text (b ∷ bs) = matching (lib.unmarshal (b ∷ bs))

  unfoldable pub event_of : Bytes → Option SupervisionEvent
  event_of line = event_of_text (lib.trim_space (drop_cr line))

  abbrev pub query_file : Option Bytes → Option (Found SupervisionEvent)
  query_file none = none
  query_file (some file) = some (scan_lines event_of filter.limit (split_lines file) 0 0)

  -- of the file at the path only; none for a store without a file, and one that cannot be opened
  unfoldable pub query : SupervisionStore → Option (Found SupervisionEvent)
  query s = if str_eq s.file "" then none else query_file (s.w.files 0)
