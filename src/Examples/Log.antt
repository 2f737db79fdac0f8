-- ===== src/Examples/Log.antt =====
-- The theorems on the readers of the audit log at files of a few lines.
use mathlib.Core.List.{reverse}
use aic_verifier.Prelude.{
  ℕ, ◌≡◌, refl, String, true, false, Option, none, some, List, [], ◌∷◌, ◌++◌, bytes_equal, str_eq,
  all, arith, if◌then◌else◌,
}
use aic_verifier.Merkle.{Bytes}
use aic_verifier.AuditLog.{
  AuditEntry, AuditFilter, LogLib, page, split_lines, drop_cr, until_newline, entry_of, accepts,
}
use aic_verifier.AuditLog.Read.{all_items, fits}
use aic_verifier.AuditLog.Query.{read_audit_entries, line_entry, query_answers, AllScanned}
use aic_verifier.AuditLog.Search.{find_start_offset, search, probe, skip_line, search_ends}
use aic_verifier.AuditLog.Search.Lines.{Logged, file_of}
use aic_verifier.AuditLog.Search.Sound.{AllRead}
use aic_verifier.AuditLog.Reverse.{
  read_audit_entries_reverse, pieces, read_back, owned, block_size, load, join_slice, content,
  cut_to, take_pieces, collect,
}
use aic_verifier.AuditLog.Reverse.OneBlock.{all_entries, reverse_lem}

abbrev pub entry : String → AuditEntry
entry time = record {
  time = time;
  action = "denied";
  src_ip = "";
  client_cn = "";
  client_serial = "";
  roles = [];
  mapping = "";
  target = "";
  target_id = "";
  duration = "";
  deny_reason = "";
  bytes_in = 0;
  bytes_out = 0;
  trace_id = "";
  session_id = "";
  gateway_id = "";
  protocol = "";
  agent_id = "";
  spiffe_id = "";
  principal_uid = "";
  delegation_mode = 0;
  decision = "";
  capabilities = [];
  level = "";
  da_hash = "";
  aic_fingerprint = "";
  policy_version = 0;
  record_digest = "";
}

-- a line is one letter, which is the time of its entry
abbrev toy_time : String → Option ℕ
toy_time t = if str_eq t "a" then some 65 else if str_eq t "b" then some 66 else none

abbrev toy_unmarshal : Bytes → Option AuditEntry
toy_unmarshal bs =
    if bytes_equal bs (97 ∷ [])
    then some (entry "a")
    else if bytes_equal bs (98 ∷ [])
    then some (entry "b")
    else none

abbrev pub toy_trim : Bytes → Bytes
toy_trim [] = []
toy_trim (b ∷ bs) = if bytes_equal (b ∷ []) (10 ∷ []) then bs else b ∷ bs

abbrev toy_log : LogLib
toy_log = record { unmarshal = toy_unmarshal; parse_time = toy_time; trim_space = toy_trim }

abbrev two_lines : List Logged
two_lines =
    record { text = 97 ∷ []; entry = entry "a"; at = 65 }
    ∷ record { text = 98 ∷ []; entry = entry "b"; at = 66 }
    ∷ []

abbrev since_b : AuditFilter
since_b = record {
  since = some 66;
  until = none;
  limit = 1;
  offset = 1;
  sort = "";
  action = "denied";
  client_cn = "";
  serial = "";
  mapping = "";
}

two_lines-AllRead : AllRead toy_log two_lines
two_lines-AllRead = (
  (refl, (λ e. ground (arith, e)), refl, refl),
  ((refl, (λ e. ground (arith, e)), refl, refl), tt),
)

two_lines-AllScanned : AllScanned toy_log since_b two_lines
unfolding drop_cr
two_lines-AllScanned = ((refl, refl), ((refl, refl), tt))

three_fit :
    all (fits (line_entry toy_log since_b) 1) (split_lines (file_of two_lines ++ 98 ∷ 10 ∷ []))
    ≡ true
unfolding split_lines
three_fit = refl

query_answers_example :
    read_audit_entries toy_log since_b
      (some (file_of two_lines))
      (some (file_of two_lines ++ 98 ∷ 10 ∷ []))
    ≡ some (
      page 1 1 (
          all_items
            (line_entry toy_log since_b)
            1
            (split_lines (file_of two_lines ++ 98 ∷ 10 ∷ []))),
      false,
    )
query_answers_example =
    query_answers toy_log since_b two_lines (98 ∷ 10 ∷ []) two_lines-AllRead two_lines-AllScanned
      (refl, (refl, tt)) refl three_fit

-- the search on three lines, and the reader from the end, which misses the first one
search_at_b : find_start_offset toy_log 66 (97 ∷ 10 ∷ 97 ∷ 10 ∷ 98 ∷ 10 ∷ []) ≡ some 4
unfolding find_start_offset search probe skip_line until_newline
search_at_b = refl

search_ends_example : (r : ℕ) × (find_start_offset toy_log 66 (file_of two_lines) ≡ some r)
search_ends_example = search_ends toy_log 66 (file_of two_lines)

abbrev any_entry : AuditFilter
any_entry = record since_b { since = none; limit = 0; offset = 0 }

first_line_lost :
    all_entries toy_log any_entry (reverse (pieces (file_of two_lines)).1) ≡ entry "b" ∷ []
unfolding all_entries pieces entry_of accepts
first_line_lost = refl

reverse_lem_example :
    read_audit_entries_reverse toy_log any_entry (file_of two_lines)
    ≡ some (
        page any_entry.limit any_entry.offset
          (all_entries toy_log any_entry (reverse (pieces (file_of two_lines)).1)))
reverse_lem_example = reverse_lem toy_log any_entry (file_of two_lines) (omega arith)

-- In blocks of four bytes, the array is shared by what is left of the last block: reading the first block
-- turns the letter b, which stands at the boundary, into an a.
boundary_overwritten :
    read_back toy_log any_entry 4
      (97 ∷ 10 ∷ 97 ∷ 10 ∷ 98 ∷ 10 ∷ 97 ∷ 10 ∷ [])
      9
      8
      (0 ∷ 0 ∷ 0 ∷ 0 ∷ [])
      (owned [])
      0
      []
    ≡ some (entry "a" ∷ entry "a" ∷ entry "a" ∷ [])
unfolding read_back block_size load join_slice content cut_to take_pieces pieces collect entry_of
    accepts
boundary_overwritten = refl
