-- ===== src/Pipeline/Ingest.antt =====
-- How a message enters the pipeline of src/pipeline.rs: `insert_and_start` for a new one,
-- `recover_one` and `drain_queued_once` for one that a crash left in the queue.
pub mod Drain
use cockatiel_engine_rs.Shared.{
  ℕ, ◌+◌, String, Bool, true, false, Option, none, some, List, [], ◌∷◌, ◌++◌, if◌then◌else◌, ◌==◌,
  length, is_some, or_default, map_or, lookup, insert, string_eq,
}
use cockatiel_engine_rs.Pipeline.State.{
  ok, err, Error, PipelineState, World, M, Result, pre_processing, modify, pure, ◌>>◌, ◌>>=◌, gets,
  throw, db_failed,
}
use cockatiel_engine_rs.Timeline.{
  QueuedMessage, Table, load_queued_message, get_queued_uuids, insert_event, set_command,
  set_user_uuid,
}
use cockatiel_engine_rs.Wire.{Command, UserData, Bytes}
use cockatiel_engine_rs.Pipeline.Dispatch.{broadcast_pre_process}
use cockatiel_engine_rs.Pipeline.Terminal.{run_statement}

pub record PipelineMessage : Type 0 where
  pub uuid7 : String
  pub raw_message : String
  pub platform : String
  pub event_type : ℕ
  pub command : Option String
  pub flags : Option String
  pub parsed_command : Option Command
  pub channel_id : String
  pub user_uuid7 : String
  pub user_data : Option UserData
  pub raw_data : Bytes

unfoldable pub fresh_state : World → PipelineMessage → PipelineState
fresh_state w msg = record {
  uuid7 = msg.uuid7;
  stage = pre_processing;
  current_in_process_index = 0;
  raw_message = msg.raw_message;
  processed_message = msg.raw_message;
  platform = msg.platform;
  event_type = msg.event_type;
  command = msg.command;
  flags = msg.flags;
  parsed_command = msg.parsed_command;
  channel_id = msg.channel_id;
  user_uuid7 = msg.user_uuid7;
  user_data = msg.user_data;
  audio = [];
  audio_type = "";
  audio_stage = "";
  pre_process_completed_at = none;
  in_process_completed_at = none;
  audio_type_markers = [];
  raw_data = msg.raw_data;
  donation = w.parse_donation msg.raw_data;
}

-- Only what the timeline row keeps comes back.
unfoldable pub recovered_state : String → QueuedMessage → PipelineState
recovered_state uuid7 msg = record {
  uuid7 = uuid7;
  stage = pre_processing;
  current_in_process_index = 0;
  raw_message = msg.raw_message;
  processed_message = msg.raw_message;
  platform = msg.platform;
  event_type = msg.event_type;
  command = if msg.command == "" then none else some msg.command;
  flags = if msg.flags == "" then none else some msg.flags;
  parsed_command = none;
  channel_id = "";
  user_uuid7 = msg.user_uuid7;
  user_data = none;
  audio = [];
  audio_type = "";
  audio_stage = "";
  pre_process_completed_at = none;
  in_process_completed_at = none;
  audio_type_markers = [];
  raw_data = [];
  donation = none;
}

-- `states.insert(uuid7, state)`.
abbrev pub claim_state : String → PipelineState → M (Unit {0})
claim_state uuid7 s = modify (λ e. record e { pipeline_states = insert uuid7 s e.pipeline_states })

abbrev pub write_rows : (Table → Table) → M (Unit {0})
write_rows f = modify (λ e. record e { rows = f e.rows })

-- The result of a drain: what was looked at, what was claimed, and what could not be driven.
pub record RecoveryDrain : Type 0 where
  pub considered : ℕ
  pub claimed : ℕ
  pub failures : List (String × Error)

module _ (w : World) where
  unfoldable pub insert_row : PipelineMessage → M (Unit {0})
  unfolding run_statement insert_event
  insert_row msg = do
    run_statement w
    inserted ← gets (λ e.
        insert_event msg.uuid7 msg.event_type msg.platform [] msg.raw_message
          (or_default msg.command "") (or_default msg.flags "{}") e.rows)
    map_or inserted (throw db_failed) (λ t. write_rows (λ _. t))

  unfoldable pub insert_and_start : PipelineMessage → M (Unit {0})
  unfolding insert_row run_statement set_command set_user_uuid fresh_state broadcast_pre_process
  insert_and_start msg = do
    insert_row msg
    map_or msg.command (pure tt) (λ c. do run_statement w; write_rows (set_command msg.uuid7 c))
    if msg.user_uuid7 == ""
        then pure tt
        else (do run_statement w; write_rows (set_user_uuid msg.uuid7 msg.user_uuid7))
    claim_state msg.uuid7 (fresh_state w msg)
    broadcast_pre_process w msg.uuid7

  unfoldable pub redrive : String → QueuedMessage → M Bool
  unfolding recovered_state broadcast_pre_process
  redrive uuid7 msg = do
    claim_state uuid7 (recovered_state uuid7 msg)
    broadcast_pre_process w uuid7
    pure true

  -- The answer is whether this call claimed the message.
  unfoldable pub recover_one : String → M Bool
  unfolding run_statement load_queued_message redrive
  recover_one uuid7 = do
    in_flight ← gets (λ e. is_some (lookup uuid7 e.pipeline_states))
    if in_flight then pure false else (do
      run_statement w
      row ← gets (λ e. load_queued_message uuid7 e.rows)
      map_or row (pure false) (redrive uuid7))

  -- What the answer of `recover_one` adds to the drain; an error is kept, and the loop goes on.
  unfoldable pub tally : String → Result Bool → RecoveryDrain → RecoveryDrain
  tally uuid7 (ok true) d = record d { claimed = d.claimed + 1 }
  tally uuid7 (ok false) d = d
  tally uuid7 (err x) d = record d { failures = d.failures ++ (uuid7, x) ∷ [] }

  unfoldable pub drain_each : List String → RecoveryDrain → M RecoveryDrain
  unfolding recover_one tally
  drain_each [] d e = pure d e
  drain_each (u ∷ us) d e = drain_each us (tally u (recover_one u e).0 d) (recover_one u e).1

  unfoldable pub drain_queued_once : M RecoveryDrain
  unfolding run_statement drain_each get_queued_uuids
  drain_queued_once = do
    run_statement w
    uuids ← gets (λ e. get_queued_uuids e.rows)
    drain_each uuids (record { considered = length uuids; claimed = 0; failures = [] })
