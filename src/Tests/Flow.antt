-- ===== src/Tests/Flow.antt =====
-- The theorems about the pipeline's flow, at the sample engine.
use cockatiel_engine_rs.Wire.{pre_process_reply, in_process_reply, EnginePayload, ChatMessage}
use cockatiel_engine_rs.Pipeline.Pause
use cockatiel_engine_rs.Shared.{
  String, ◌≡◌, refl, true, eq_iff, none, [], arith, any, lookup, string_eq,
}
use cockatiel_engine_rs.Pipeline.Replies.{handle_message_from_module}
use cockatiel_engine_rs.Pipeline.Ingest.{PipelineMessage}
use cockatiel_engine_rs.Pipeline.Progress.Messages.{concerns, handle_message_from_module-Ends}
use cockatiel_engine_rs.Pipeline.State.{ok, ◌>>=◌, ◌>>◌}
use cockatiel_engine_rs.Pipeline.Progress.{settled, Ends}
use cockatiel_engine_rs.Timeline.{is_audited}
use cockatiel_engine_rs.Pipeline.Replies.Ownership.{
  reply_stage, handle_message_from_module-not_owner,
}
use cockatiel_engine_rs.Pipeline.Terminal.Holds.{Kept, OkThen, Ended, mark-Ended, audit_hold-Kept}
use cockatiel_engine_rs.Pipeline.Dispatch.{broadcast_pre_process}
use cockatiel_engine_rs.Pipeline.Progress.Replies.{known_stage, KnownStages}
use cockatiel_engine_rs.Pipeline.Ack.{is_pending_for, has_pending}
use cockatiel_engine_rs.Tests.Samples.{queued_engine, sample_world, held_engine, waiting_engine}
use cockatiel_engine_rs.Pipeline.Sweep.{replay_hold}
use cockatiel_engine_rs.Pipeline.Progress.Entry.{broadcast_pre_process-Ends}
use cockatiel_engine_rs.Pipeline.Terminal.{mark_complete, mark_failed, mark_dropped}
use cockatiel_engine_rs.Pipeline.Frame.{Elsewhere}
use cockatiel_engine_rs.Pipeline.Progress.NoneStuck.{
  NoneStuck, replay_hold-NoneStuck, handle_message_from_module-NoneStuck,
}
use cockatiel_engine_rs.Pipeline.Frame.Messages.{handle_message_from_module-Elsewhere}

broadcast_pre_process-Ends_example :
    Ends "m1" (broadcast_pre_process sample_world "m1" queued_engine)
broadcast_pre_process-Ends_example = broadcast_pre_process-Ends sample_world "m1" queued_engine

abbrev filter_reply : EnginePayload
filter_reply = pre_process_reply "m1" none [] ""

handle_message_from_module-Ends_example :
    Ends "m1" (handle_message_from_module sample_world "filter" filter_reply waiting_engine)
unfolding concerns known_stage settled any has_pending lookup
handle_message_from_module-Ends_example =
    handle_message_from_module-Ends sample_world "m1" "filter" filter_reply waiting_engine refl refl
      refl refl

audit_hold-Kept_example :
    Kept "m1" held_engine (mark_complete sample_world "m1" held_engine).1
    × Kept "m1" held_engine (mark_failed sample_world "m1" "timed out" held_engine).1
    × Kept "m1" held_engine (mark_dropped sample_world "m1" "timed out" held_engine).1
unfolding is_audited lookup
audit_hold-Kept_example = audit_hold-Kept sample_world "m1" held_engine "timed out" refl

mark-Ended_example :
    OkThen (Ended "m1" "complete" waiting_engine) (mark_complete sample_world "m1" waiting_engine)
    × OkThen
        (Ended "m1" "failed" waiting_engine)
        (mark_failed sample_world "m1" "timed out" waiting_engine)
unfolding is_audited lookup
mark-Ended_example = mark-Ended sample_world "m1" "timed out" waiting_engine refl refl

abbrev foreign_reply : EnginePayload
foreign_reply = in_process_reply "m1" "forged" true [] ""

handle_message_from_module-not_owner_example :
    handle_message_from_module sample_world "display" foreign_reply waiting_engine
    ≡ (ok true, waiting_engine)
unfolding reply_stage is_pending_for lookup any
handle_message_from_module-not_owner_example =
    handle_message_from_module-not_owner sample_world "display" "m1" "in_process" foreign_reply
      waiting_engine refl refl refl

abbrev blocked_chat : ChatMessage
blocked_chat = record {
  platform = "twitch";
  raw_data = [];
  raw_message = "let me in";
  user_uuid7 = "u9";
  command = none;
  channel_id = "c1";
  user_data = none;
}

abbrev new_message : PipelineMessage
new_message = record {
  uuid7 = "m2";
  raw_message = "hi";
  platform = "twitch";
  event_type = 1;
  command = none;
  flags = none;
  parsed_command = none;
  channel_id = "c1";
  user_uuid7 = "u1";
  user_data = none;
  raw_data = [];
}

waiting-NoneStuck : NoneStuck waiting_engine
unfolding settled has_pending lookup
waiting-NoneStuck u = ground (arith, eq_iff "m1" u)

waiting_known : (u : String) → KnownStages u waiting_engine
unfolding known_stage lookup any
waiting_known u = ground (arith, eq_iff "m1" u)

handle_message_from_module-NoneStuck_example :
    OkThen NoneStuck (handle_message_from_module sample_world "filter" filter_reply waiting_engine)
handle_message_from_module-NoneStuck_example =
    handle_message_from_module-NoneStuck sample_world "filter" filter_reply waiting_engine
      waiting_known waiting-NoneStuck

handle_message_from_module-Elsewhere_example :
    Elsewhere "m1" waiting_engine
      (handle_message_from_module sample_world "filter" filter_reply waiting_engine).1
unfolding concerns
handle_message_from_module-Elsewhere_example =
    handle_message_from_module-Elsewhere sample_world "m1" "filter" filter_reply waiting_engine refl
      refl

replay_hold-NoneStuck_example :
    OkThen NoneStuck (replay_hold sample_world "m1" Pause.post_process waiting_engine)
replay_hold-NoneStuck_example =
    replay_hold-NoneStuck sample_world "m1" Pause.post_process waiting_engine waiting-NoneStuck
