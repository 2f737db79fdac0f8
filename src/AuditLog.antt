-- ===== src/AuditLog.antt =====
-- audit.go: the entries of the audit log, and the lines of its file that a query takes. Files are bytes;
-- encoding/json, `time.Parse` and `strings.TrimSpace` are the fields of `LogLib`.
mod Page
pub mod Query
pub mod Logger
pub mod Read
pub mod Rotation
pub mod Reverse
pub mod Search
use aic_verifier.Prelude.{
  ℕ, zero, suc, ◌-◌, String, Bool, true, false, not, ◌&&◌, ◌||◌, Option, none, some, List, [], ◌∷◌,
  length, take, drop, ltb, leb, ◌==◌, str_eq, contains, if◌then◌else◌,
}
use aic_verifier.Merkle.{Bytes}

pub record AuditEntry : Type 0 where
  pub time : String
  pub action : String
  pub src_ip : String
  pub client_cn : String
  pub client_serial : String
  pub roles : List String
  pub mapping : String
  pub target : String
  pub target_id : String
  pub duration : String
  pub deny_reason : String
  pub bytes_in : ℕ
  pub bytes_out : ℕ
  pub trace_id : String
  pub session_id : String
  pub gateway_id : String
  pub protocol : String
  pub agent_id : String
  pub spiffe_id : String
  pub principal_uid : String
  pub delegation_mode : ℕ
  pub decision : String
  pub capabilities : List String
  pub level : String
  pub da_hash : String
  pub aic_fingerprint : String
  pub policy_version : ℕ
  pub record_digest : String

unfoldable pub is_audit_critical : AuditEntry → Bool
is_audit_critical entry =
    str_eq entry.level "WARN"
    || (str_eq entry.level "ERROR"
        || contains ("denied" ∷ "revoked" ∷ "plugin_decision" ∷ "unknown_constraint" ∷ [])
            entry.action)

pub record AuditFilter : Type 0 where
  -- none for the zero time
  pub since : Option ℕ
  pub until : Option ℕ
  pub limit : ℕ
  pub offset : ℕ
  pub sort : String
  pub action : String
  pub client_cn : String
  pub serial : String
  pub mapping : String

pub record LogLib : Type 0 where
  -- `json.Unmarshal` of a `SignedAuditEntry`, and its entry
  pub unmarshal : Bytes → Option AuditEntry
  -- `time.Parse(time.RFC3339Nano, …)`
  pub parse_time : String → Option ℕ
  pub trim_space : Bytes → Bytes

-- a condition that an empty text does not set
abbrev pub is_or_any : String → String → Bool
is_or_any wanted found = str_eq wanted "" || str_eq found wanted

abbrev pub not_before : Option ℕ → ℕ → Bool
not_before none t = true
not_before (some since) t = not (ltb t since)

abbrev pub not_after : Option ℕ → ℕ → Bool
not_after none t = true
not_after (some until) t = not (ltb until t)

-- the bytes in front of a newline, or all
unfoldable pub until_newline : Bytes → Bytes
until_newline [] = []
until_newline (b ∷ bs) = let rest = until_newline bs in if b == 10 then [] else b ∷ rest

abbrev pub with_first : ℕ → List Bytes → List Bytes
with_first b [] = (b ∷ []) ∷ []
with_first b (l ∷ ls) = (b ∷ l) ∷ ls

-- the lines of a file, the last of which need not end in a newline
unfoldable pub split_lines : Bytes → List Bytes
split_lines [] = []
split_lines (b ∷ bs) = let rest = split_lines bs in if b == 10 then [] ∷ rest else with_first b rest

-- `bufio.ScanLines` cuts off a carriage return at the end.
unfoldable pub drop_cr : Bytes → Bytes
drop_cr [] = []
drop_cr (b ∷ []) = if b == 13 then [] else b ∷ []
drop_cr (b ∷ c ∷ bs) = b ∷ drop_cr (c ∷ bs)

-- the buffer of the scanner: a line of this length ends the scan with `bufio.ErrTooLong`
abbrev pub scan_buffer : ℕ
scan_buffer = 1_048_576

module _ (lib : LogLib) (filter : AuditFilter) where
  abbrev pub at_time : Option ℕ → Bool
  at_time none = false
  at_time (some t) = not_before filter.since t && not_after filter.until t

  unfoldable pub accepts : AuditEntry → Bool
  accepts e =
      is_or_any filter.action e.action
      && (at_time (lib.parse_time e.time)
          && (is_or_any filter.client_cn e.client_cn
              && (is_or_any filter.serial e.client_serial && is_or_any filter.mapping e.mapping)))

  abbrev pub accepted : Option AuditEntry → Option AuditEntry
  accepted none = none
  accepted (some e) = if accepts e then some e else none

  abbrev pub of_text : Bytes → Option AuditEntry
  of_text [] = none
  of_text (b ∷ bs) = accepted (lib.unmarshal (b ∷ bs))

  -- the entry of a line that is neither blank nor malformed and that the filter takes
  unfoldable pub entry_of : Bytes → Option AuditEntry
  entry_of line = of_text (lib.trim_space line)

-- `filter.Limit > 0 && len(entries) >= filter.Limit`
abbrev pub limit_reached : ℕ → ℕ → Bool
limit_reached limit found = ltb 0 limit && leb limit found

-- what a limit and an offset leave of the matching items
abbrev pub page {ℓ} : {A : Type ℓ} → ℕ → ℕ → List A → List A
page limit offset xs = if ltb 0 limit then take limit (drop offset xs) else drop offset xs
