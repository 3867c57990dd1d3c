-- ===== src/Timeline/Outcome.antt =====
-- `PipelineOutcome`, `PipelineResult` and `write_terminal_outcome` of src/database.rs: the one
-- write that ends a message.
use Prim.Native.String.{◌++◌ as append}
use cockatiel_engine_rs.Shared.Text.{join}
use cockatiel_engine_rs.Shared.{
  ℕ, String, Bool, true, false, ◌&&◌, not, Option, none, some, List, [], if◌then◌else◌, ◌==◌,
  is_empty, is_some, or_default, adjust, string_eq,
}
use cockatiel_engine_rs.Wire.{Bytes}
use cockatiel_engine_rs.Timeline.{Row, Table}

pub data PipelineOutcome : Type 0 where
  complete : PipelineOutcome
  failed dropped audit : String → PipelineOutcome
  audit_held : PipelineOutcome

unfoldable pub status : PipelineOutcome → Option String
status complete = some "complete"
status (failed _) = some "failed"
status (dropped _) = some "dropped"
status (audit _) = some "audit"
status audit_held = none

unfoldable pub error : PipelineOutcome → Option String
error complete = none
error (failed e) = some e
error (dropped e) = some e
error (audit _) = none
error audit_held = none

pub record PipelineResult : Type 0 where
  pub processed_message : Option String
  pub pre_process_completed_at : Option ℕ
  pub in_process_completed_at : Option ℕ
  pub audio : Option (String × Bytes)
  pub audio_type_markers : List String

abbrev pub default_result : PipelineResult
default_result = record {
  processed_message = none;
  pre_process_completed_at = none;
  in_process_completed_at = none;
  audio = none;
  audio_type_markers = [];
}

-- A column that the run produced is written, any other is left as it is.
abbrev pub set_some {ℓ} : {A : Type ℓ} → Option A → Option A → Option A
set_some none old = old
set_some (some a) old = some a

-- The audio that is written: bytes that are there, with a marker for their type.
unfoldable pub audio_bytes : PipelineResult → Option Bytes
audio_bytes r = elim r.audio [
  | none ↦ none
  | some p ↦ if not (is_empty p.1) && not (is_empty r.audio_type_markers) then some p.1 else none
]

unfoldable pub new_flags : PipelineOutcome → PipelineResult → String → String
unfolding audio_bytes join
new_flags outcome r flags = elim (audio_bytes r) [
  | some _ ↦
      if flags == ""
      then join "," r.audio_type_markers
      else append flags (append "," (join "," r.audio_type_markers))
  | none ↦ elim outcome [ audit reason ↦ reason | _ ↦ flags ]
]

abbrev pub is_complete : PipelineOutcome → Bool
is_complete complete = true
is_complete _ = false

-- The SET list has no entry, so that no statement is run.
unfoldable pub nothing_to_write : PipelineOutcome → PipelineResult → Bool
unfolding status audio_bytes
nothing_to_write outcome r =
    not (is_some (status outcome))
    && not (is_some r.processed_message)
    && not (is_some r.pre_process_completed_at)
    && not (is_some r.in_process_completed_at)
    && not (is_some (audio_bytes r))

unfoldable pub update_row : ℕ → PipelineOutcome → PipelineResult → Row → Row
unfolding status error audio_bytes new_flags
update_row now outcome r row = record row {
  pipeline_status = or_default (status outcome) row.pipeline_status;
  error_message = set_some (error outcome) row.error_message;
  processed_message = set_some r.processed_message row.processed_message;
  pre_process_completed_at = set_some r.pre_process_completed_at row.pre_process_completed_at;
  in_process_completed_at = set_some r.in_process_completed_at row.in_process_completed_at;
  post_process_completed_at =
      if is_complete outcome then some now else row.post_process_completed_at;
  persisted_at = if is_complete outcome then some now else row.persisted_at;
  data_blob = set_some (audio_bytes r) row.data_blob;
  flags = new_flags outcome r row.flags;
}

-- A completed outcome does not touch a row that is held for audit.
unfoldable pub write_terminal_outcome :
    ℕ → String → PipelineOutcome → PipelineResult → Table → Table
unfolding update_row nothing_to_write
write_terminal_outcome now uuid7 outcome r t =
    if nothing_to_write outcome r
    then t
    else adjust uuid7
        (λ row.
          if is_complete outcome && row.pipeline_status == "audit"
          then row
          else update_row now outcome r row)
        t

unfoldable pub mark_audit : ℕ → String → String → Table → Table
unfolding write_terminal_outcome
mark_audit now uuid7 reason = write_terminal_outcome now uuid7 (audit reason) default_result
