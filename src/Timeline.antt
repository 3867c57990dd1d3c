-- ===== src/Timeline.antt =====
-- The timeline table of src/database.rs, as the pipeline uses it: one row for each message, and
-- the statements that insert, end, hold and reload a row, each as a function on the table.
pub mod Outcome
pub mod Writes
pub mod Audit
pub mod Queue
use cockatiel_engine_rs.Shared.{
  ℕ, String, Bool, false, Option, none, some, List, map, if◌then◌else◌, ◌==◌, keep, sort, Map,
  is_some, or_default, map_or, lookup, insert, adjust, string_eq,
}
use cockatiel_engine_rs.Wire.{Bytes}

pub record Row : Type 0 where
  pub event_type : ℕ
  pub platform : String
  pub raw_data : Bytes
  pub raw_message : String
  pub command : String
  pub flags : String
  pub data_blob : Option Bytes
  pub user_uuid7 : Option String
  pub processed_message : Option String
  pub error_message : Option String
  pub pre_process_completed_at : Option ℕ
  pub in_process_completed_at : Option ℕ
  pub post_process_completed_at : Option ℕ
  pub persisted_at : Option ℕ
  pub pipeline_status : String

abbrev pub Table : Type 0
Table = Map String Row

abbrev pub queued_row : ℕ → String → Bytes → String → String → String → Row
queued_row event_type platform raw_data raw_message command flags = record {
  event_type = event_type;
  platform = platform;
  raw_data = raw_data;
  raw_message = raw_message;
  command = command;
  flags = flags;
  data_blob = none;
  user_uuid7 = none;
  processed_message = none;
  error_message = none;
  pre_process_completed_at = none;
  in_process_completed_at = none;
  post_process_completed_at = none;
  persisted_at = none;
  pipeline_status = "queued";
}

-- `none` is the refusal of the primary key: a row with this uuid7 is there already.
unfoldable pub insert_event :
    String → ℕ → String → Bytes → String → String → String → Table → Option Table
insert_event uuid7 event_type platform raw_data raw_message command flags t =
    if is_some (lookup uuid7 t)
    then none
    else some (insert uuid7 (queued_row event_type platform raw_data raw_message command flags) t)

unfoldable pub set_command : String → String → Table → Table
set_command uuid7 command = adjust uuid7 (λ r. record r { command = command })

-- A row that has a user keeps it.
unfoldable pub set_user_uuid : String → String → Table → Table
set_user_uuid uuid7 user =
    adjust uuid7 (λ r. record r { user_uuid7 = some (or_default r.user_uuid7 user) })

unfoldable pub is_audited : String → Table → Bool
is_audited uuid7 t = elim (lookup uuid7 t) [ none ↦ false | some r ↦ r.pipeline_status == "audit" ]

pub record QueuedMessage : Type 0 where
  pub event_type : ℕ
  pub platform : String
  pub raw_message : String
  pub command : String
  pub flags : String
  pub user_uuid7 : String

-- A row as it is loaded; only a queued row is.
unfoldable pub loaded_row : Row → Option QueuedMessage
loaded_row r =
    if r.pipeline_status == "queued"
    then some (record {
      event_type = r.event_type;
      platform = r.platform;
      raw_message = r.raw_message;
      command = r.command;
      flags = r.flags;
      user_uuid7 = or_default r.user_uuid7 "";
    })
    else none

unfoldable pub load_queued_message : String → Table → Option QueuedMessage
unfolding loaded_row
load_queued_message uuid7 t = map_or (lookup uuid7 t) none loaded_row

-- Without the order of the answer.
unfoldable pub queued_keys : Table → List String
queued_keys t = map (λ p. p.0) (keep (λ p. p.1.pipeline_status == "queued") t)

-- Ascending in uuid7.
unfoldable pub get_queued_uuids : Table → List String
unfolding queued_keys
get_queued_uuids t = sort (queued_keys t)

-- `release_audit` changes a held row only.
unfoldable pub released_row : ℕ → Bool → Row → Row
released_row now approve r =
    if r.pipeline_status == "audit"
    then (if approve
        then record r { pipeline_status = "complete"; persisted_at = some now }
        else record r { pipeline_status = "failed" })
    else r

unfoldable pub release_audit : ℕ → String → Bool → Table → Table
unfolding released_row
release_audit now uuid7 approve = adjust uuid7 (released_row now approve)

unfoldable pub mark_all_processing_as_failed : String → Table → Table
mark_all_processing_as_failed reason = map (λ p. (
  p.0,
  if p.1.pipeline_status == "processing"
      then record (p.1) { pipeline_status = "failed"; error_message = some reason }
      else p.1,
))
