-- ===== src/Tests/Samples.antt =====
-- A small engine: one pre-process module, two in-process modules and a display, and one message "m1"
-- of the user "u1" in flight.
use cockatiel_engine_rs.Pipeline.Gate
use cockatiel_engine_rs.Pipeline.Ack.{sent}
use cockatiel_engine_rs.Shared.{◌*◌, String, true, false, none, some, [], ◌∷◌}
use cockatiel_engine_rs.Timeline.{Row}
use cockatiel_engine_rs.Pipeline.State.{
  PipelineState, Engine, Link, PipelineConfig, World, pre_processing,
}
use cockatiel_engine_rs.Pipeline.Bans.{Bans}
use cockatiel_engine_rs.Pipeline.Ack.{AckTracker}
use cockatiel_engine_rs.Commands.{default_registry}
use cockatiel_engine_rs.Pipeline.Pause.{default_pause}
use cockatiel_engine_rs.Stream.{new_tracker}

abbrev pub sample_config : PipelineConfig
sample_config = record {
  pre_process_modules = "filter" ∷ [];
  in_process_modules = "ai" ∷ "tts" ∷ [];
  post_process_modules = "display" ∷ [];
  ack_timeout_ms = 15000;
  critical_modules = "ai" ∷ [];
}

abbrev pub sample_state : PipelineState
sample_state = record {
  uuid7 = "m1";
  stage = pre_processing;
  current_in_process_index = 0;
  raw_message = "hello";
  processed_message = "hello";
  platform = "twitch";
  event_type = 1;
  command = none;
  flags = none;
  parsed_command = none;
  channel_id = "c1";
  user_uuid7 = "u1";
  user_data = none;
  audio = [];
  audio_type = "";
  audio_stage = "";
  pre_process_completed_at = none;
  in_process_completed_at = none;
  audio_type_markers = [];
  raw_data = [];
  donation = none;
}

abbrev pub row_with : String → Row
row_with status = record {
  event_type = 1;
  platform = "twitch";
  raw_data = [];
  raw_message = "hello";
  command = "";
  flags = "{}";
  data_blob = none;
  user_uuid7 = some "u1";
  processed_message = none;
  error_message = none;
  pre_process_completed_at = none;
  in_process_completed_at = none;
  post_process_completed_at = none;
  persisted_at = none;
  pipeline_status = status;
}

abbrev pub open_link : Link
open_link = record { is_closed = false; has_room = true; frees_up = false; closes_waiting = false }

abbrev pub sample_world : World
sample_world = record {
  now = λ n. 1000000 * n;
  epoch_ms = λ n. n;
  runs = λ _. true;
  link = λ _ _. open_link;
  user_db_wired = false;
  get_user = λ _ _. Gate.unknown;
  deduct_score = λ _ _ _. false;
  enrich_chat_user = λ _ _ _ _. none;
  fresh_uuid7 = λ _. "m2";
  parse_donation = λ _. none;
}

abbrev pub sample_bans : Bans
sample_bans = record { blocked_users = "u9" ∷ []; module_bans = [] }

-- An engine whose row of "m1" has the given status, and whose tracker has the given entries.
abbrev pub engine_with : String → AckTracker → Engine
engine_with status acks = record {
  rows = ("m1", row_with status) ∷ [];
  ack_tracker = acks;
  pipeline_states = ("m1", sample_state) ∷ [];
  config = sample_config;
  module_senders = "filter" ∷ "ai" ∷ "tts" ∷ "display" ∷ [];
  command_registry = default_registry;
  pause_state = default_pause;
  module_timings = [];
  module_gates = [];
  stream_tracker = new_tracker;
  bans = sample_bans;
  sent = [];
  charged = [];
  calls = 0;
}

abbrev pub queued_engine : Engine
queued_engine = engine_with "queued" []

-- "filter" owes its answer for "m1".
abbrev pub waiting_acks : AckTracker
waiting_acks = ("m1", sent 0 "m1" "pre_process" "filter" 15000 ∷ []) ∷ []

abbrev pub waiting_engine : Engine
waiting_engine = engine_with "queued" waiting_acks

abbrev pub held_engine : Engine
held_engine = engine_with "audit" waiting_acks

abbrev pub paused_engine : Engine
paused_engine = record waiting_engine { pause_state = record default_pause { paused = true } }

-- After a restart: the row is queued, and no state is left.
abbrev pub restarted_engine : Engine
restarted_engine = record queued_engine { pipeline_states = [] }
