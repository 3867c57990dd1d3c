-- ===== src/Pipeline/Sweep.antt =====
-- The timeout sweep of src/pipeline.rs, `handle_timeout`, with `resend_stage`; and `resume`, which
-- runs it, with the replay of what a pause held.
pub mod Resend
pub mod Resume
use cockatiel_engine_rs.Pipeline.Pause
use Prim.Native.String.{◌++◌ as append}
use cockatiel_engine_rs.Shared.{
  ℕ, String, Bool, true, false, ◌&&◌, ◌||◌, not, Option, none, some, List, [], ◌∷◌, map, ltb,
  if◌then◌else◌, ◌==◌, length, keep, contains, map_or, lookup, string_eq,
}
use cockatiel_engine_rs.Pipeline.Ack.{PendingAck, check_timeouts, restart_clocks, re_track}
use cockatiel_engine_rs.Pipeline.State.{
  ok, err, World, PipelineConfig, M, PipelineState, pure, ◌>>=◌, gets, ask, ◌>>◌, modify,
}
use cockatiel_engine_rs.Pipeline.Bans.{Set, add}
use cockatiel_engine_rs.Pipeline.Dispatch.{
  send_to_module, broadcast_pre_process, start_in_process, was_sent, start_post_process,
}
use cockatiel_engine_rs.Pipeline.Pause.{is_gated, HoldPoint, take_held}
use cockatiel_engine_rs.Pipeline.Terminal.{mark_failed}
use cockatiel_engine_rs.Pipeline.Advance.{advance_stage}
use cockatiel_engine_rs.Wire.{
  ModulePayload, message_pre_process, message_in_process, message_post_process,
}

abbrev pub max_ack_resends : ℕ
max_ack_resends = 3

-- The container is built anew for each stage, with no audio in any of them.
unfoldable pub resend_payload : String → String → PipelineState → Option ModulePayload
resend_payload uuid7 stage s =
    if stage == "pre_process"
    then some (
        message_pre_process uuid7
          (record {
            platform = s.platform;
            raw_data = s.raw_data;
            raw_message = s.raw_message;
            user_uuid7 = s.user_uuid7;
            command = s.parsed_command;
            channel_id = s.channel_id;
            user_data = s.user_data;
          })
          [] "")
    else if stage == "in_process"
    then some (
        message_in_process uuid7
          (record {
            platform = s.platform;
            raw_data = s.raw_data;
            raw_message = s.raw_message;
            user_uuid7 = s.user_uuid7;
            command = s.parsed_command;
            channel_id = s.channel_id;
            user_data = s.user_data;
          })
          s.processed_message false [] "")
    else if stage == "post_process"
    then some (
        message_post_process uuid7
          (record {
            platform = s.platform;
            raw_data = s.raw_data;
            raw_message = s.raw_message;
            user_uuid7 = s.user_uuid7;
            command = s.parsed_command;
            channel_id = s.channel_id;
            user_data = s.user_data;
          })
          s.processed_message [] "")
    else none

-- The three sets of message identifiers that the loop keeps.
pub record Swept : Type 0 where
  pub advanced : Set
  pub failed : Set
  pub resent : Set

unfoldable pub timed_out_reason : PendingAck → String
timed_out_reason a =
    append "Critical module '"
      (append a.module_name (append "' timed out at stage '" (append a.stage "'")))

unfoldable pub is_critical : PendingAck → PipelineConfig → Bool
is_critical a c = contains c.critical_modules a.module_name

unfoldable pub critical_uuids : PipelineConfig → List (PendingAck × Bool) → Set
unfolding is_critical
critical_uuids c expired = map (λ p. p.0.uuid7) (keep (λ p. is_critical (p.0) c) expired)

unfoldable pub wants_resend : PendingAck → Bool
wants_resend a = not a.receipt_received && ltb a.resend_count max_ack_resends

-- What `resume` reports; the replay of the backlog, which the code leaves to a task of its own, is
-- `replay_all`.
pub record ResumeOutcome : Type 0 where
  pub was_paused : Bool
  pub resumed_messages : ℕ
  pub sweep_failed : Bool

module _ (w : World) where
  unfoldable pub resend_to : PendingAck → ModulePayload → M Bool
  unfolding send_to_module was_sent re_track
  resend_to a payload = do
    outcome ← send_to_module w a.module_name payload
    if was_sent outcome
        then (do
          now ← ask w.now
          modify (λ e. record e { ack_tracker = re_track now a e.ack_tracker })
          pure true)
        else pure false

  unfoldable pub resend_stage : PendingAck → M Bool
  unfolding resend_payload resend_to
  resend_stage a = do
    found ← gets (λ e. lookup a.uuid7 e.pipeline_states)
    map_or found (pure false)
        (λ s. map_or (resend_payload a.uuid7 a.stage s) (pure false) (resend_to a))

  -- What the loop does with an expired entry that was not resent.
  unfoldable pub time_out : Set → PendingAck → Bool → Swept → M Swept
  unfolding is_critical timed_out_reason mark_failed advance_stage
  time_out criticals a still_pending x = do
    critical ← gets (λ e. is_critical a e.config)
    if critical
        then (if contains x.failed a.uuid7 then pure x else (do
          mark_failed w a.uuid7 (timed_out_reason a)
          pure (record x { failed = a.uuid7 ∷ x.failed })))
        else if still_pending
            || contains x.resent a.uuid7
            || contains criticals a.uuid7
            || contains x.advanced a.uuid7
        then pure x
        else (do
          advance_stage w a.uuid7 a.stage
          pure (record x { advanced = a.uuid7 ∷ x.advanced }))

  unfoldable pub sweep_entry : Set → PendingAck → Bool → Swept → M Swept
  unfolding wants_resend resend_stage time_out
  sweep_entry criticals a still_pending x =
      if wants_resend a
      then (do
        again ← resend_stage a
        if again
            then pure (record x { resent = add a.uuid7 x.resent })
            else time_out criticals a still_pending x)
      else time_out criticals a still_pending x

  unfoldable pub sweep_all : Set → List (PendingAck × Bool) → Swept → M Swept
  unfolding sweep_entry
  sweep_all criticals [] x = pure x
  sweep_all criticals ((a, still_pending) ∷ rest) x = do
    x' ← sweep_entry criticals a still_pending x
    sweep_all criticals rest x'

  unfoldable pub run_sweep : M (Unit {0})
  unfolding check_timeouts critical_uuids sweep_all
  run_sweep = do
    now ← ask w.now
    expired ← gets (λ e. (check_timeouts now e.ack_tracker).0)
    modify (λ e. record e { ack_tracker = (check_timeouts now e.ack_tracker).1 })
    criticals ← gets (λ e. critical_uuids e.config expired)
    done ← sweep_all criticals expired (record { advanced = []; failed = []; resent = [] })
    pure tt

  unfoldable pub handle_timeout : M (Unit {0})
  unfolding is_gated run_sweep
  handle_timeout = do
    gated ← gets (λ e. is_gated e.pause_state)
    if gated then pure tt else run_sweep

  unfoldable pub replay_hold : String → HoldPoint → M (Unit {0})
  unfolding broadcast_pre_process start_in_process start_post_process
  replay_hold uuid7 Pause.entry = broadcast_pre_process w uuid7
  replay_hold uuid7 Pause.in_process = start_in_process w uuid7
  replay_hold uuid7 Pause.post_process = start_post_process w uuid7

  -- An error of one replay is logged, and the next one goes on.
  unfoldable pub replay_all : List (String × HoldPoint) → M (Unit {0})
  unfolding replay_hold
  replay_all [] e = pure tt e
  replay_all ((uuid7, point) ∷ rest) e = replay_all rest (replay_hold uuid7 point e).1

  -- The part of `resume` under the locks of the pause and of the acks.
  unfoldable pub release : M (Bool × List (String × HoldPoint))
  unfolding take_held restart_clocks
  release = do
    taken ← gets (λ e. (take_held e.pause_state).0)
    modify (λ e. record e { pause_state = (take_held e.pause_state).1 })
    now ← ask w.now
    modify (λ e. record e { ack_tracker = restart_clocks now e.ack_tracker })
    pure taken

  unfoldable pub sweep_after : Bool × List (String × HoldPoint) → M ResumeOutcome
  unfolding handle_timeout replay_all
  sweep_after (was_paused, held) e =
      let swept = handle_timeout e in
      let outcome : Bool → ResumeOutcome = λ failed. record {
        was_paused = was_paused;
        resumed_messages = length held;
        sweep_failed = failed;
      } in
      elim (swept.0) [
        | ok _ ↦ (replay_all held >> pure (outcome false)) (swept.1)
        | err _ ↦ (replay_all held >> pure (outcome true)) (swept.1)
      ]

  unfoldable pub resume : M ResumeOutcome
  unfolding release sweep_after
  resume = release >>= sweep_after
