-- ===== src/Pipeline/Dispatch.antt =====
-- How a message of src/pipeline.rs moves: the bounded send, the module gate, the fanout of a stage,
-- and the three dispatch points `broadcast_pre_process`, `start_in_process`, `start_post_process`.
pub mod Cases
use cockatiel_engine_rs.Shared.{
  ℕ, zero, suc, ◌+◌, String, Bool, true, false, ◌||◌, not, Option, none, some, List, [], ◌∷◌, leb,
  if◌then◌else◌, ◌==◌, length, get_elem?, is_empty, contains, Map, or_default, map_or, lookup,
  adjust, string_eq,
}
use cockatiel_engine_rs.Wire.{
  ChatMessage, ModulePayload, message_pre_process, message_in_process, message_post_process, Bytes,
}
use cockatiel_engine_rs.Commands.Routes.{command_recipients, post_process_recipients}
use cockatiel_engine_rs.Pipeline.Ack.{track}
use cockatiel_engine_rs.Pipeline.Pause
use cockatiel_engine_rs.Pipeline.Pause.{HoldPoint, hold_if_gated}
use cockatiel_engine_rs.Shared.Text.{trim}
use cockatiel_engine_rs.Pipeline.Gate.{permit, ModuleGate}
use cockatiel_engine_rs.Pipeline.State.{
  World, Link, Engine, PipelineState, PipelineStage, in_processing, post_processing, out_of_fuel, M,
  pure, throw, ◌>>=◌, ◌>>◌, gets, modify, ask, PipelineConfig,
}
use cockatiel_engine_rs.Pipeline.Terminal.{read_audited, mark_complete}

pub data SendOutcome : Type 0 where
  sent not_connected dropped : SendOutcome

unfoldable pub was_sent : SendOutcome → Bool
was_sent sent = true
was_sent _ = false

abbrev pub chat_of : PipelineState → ChatMessage
chat_of s = record {
  platform = s.platform;
  raw_data = s.raw_data;
  raw_message = s.raw_message;
  user_uuid7 = s.user_uuid7;
  command = s.parsed_command;
  channel_id = s.channel_id;
  user_data = s.user_data;
}

-- Audio of an earlier stage goes along with the post-process message; audio of that stage does not.
unfoldable pub forwarded_audio : PipelineState → Bytes × String
forwarded_audio s =
    if s.audio_stage == "post" || is_empty s.audio then ([], "") else (s.audio, s.audio_type)

unfoldable pub pre_payload : String → PipelineState → ModulePayload
pre_payload uuid7 s = message_pre_process uuid7 (chat_of s) [] ""

unfoldable pub in_payload : String → PipelineState → ModulePayload
in_payload uuid7 s = message_in_process uuid7 (chat_of s) s.processed_message false [] ""

unfoldable pub post_payload : String → PipelineState → ModulePayload
unfolding forwarded_audio
post_payload uuid7 s =
    let (audio, audio_type) = forwarded_audio s in
    message_post_process uuid7 (chat_of s) s.processed_message audio audio_type

unfoldable pub hold : String → HoldPoint → M Bool
hold uuid7 point e =
    let (held, p) = hold_if_gated uuid7 point e.pause_state in
    let e' : Engine = record e { pause_state = p } in pure held e'

-- `states.get_mut(uuid7)`, the stage, and a copy of the state.
unfoldable pub enter_stage : String → PipelineStage → M (Option PipelineState)
enter_stage uuid7 stage = do
  modify (λ e. record e {
    pipeline_states = adjust uuid7 (λ s. record s { stage = stage }) e.pipeline_states;
  })
  gets (λ e. lookup uuid7 e.pipeline_states)

-- The next in-process index, or `none` where the state is gone.
unfoldable pub next_index : String → M (Option ℕ)
next_index uuid7 = do
  modify (λ e. record e {
    pipeline_states =
        adjust uuid7 (λ s. record s { current_in_process_index = s.current_in_process_index + 1 })
          e.pipeline_states;
  })
  gets (λ e. map_or (lookup uuid7 e.pipeline_states) none (λ s. some s.current_in_process_index))

unfoldable pub queue_for : String → ModulePayload → M SendOutcome
queue_for m payload = do modify (λ e. record e { sent = (m, payload) ∷ e.sent }); pure sent

unfoldable pub track_sent : World → String → String → String → M (Unit {0})
track_sent w uuid7 stage m = do
  now ← ask w.now
  modify (λ e. record e {
    ack_tracker = track now uuid7 stage m e.config.ack_timeout_ms e.ack_tracker;
  })

unfoldable pub set_module_gates : Map String ModuleGate → M (Unit {0})
set_module_gates gates = modify (λ e. record e { module_gates = gates })

unfoldable pub set_config : PipelineConfig → M (Unit {0})
set_config config = modify (λ e. record e { config = config })

module _ (w : World) where
  -- The last answer is the timed send finding the channel closed while it waits: the code takes
  -- that for a send, and nothing is queued.
  unfoldable pub try_link : String → ModulePayload → Link → M SendOutcome
  unfolding queue_for
  try_link m payload l =
      if l.is_closed
      then pure not_connected
      else if l.has_room || l.frees_up
      then queue_for m payload
      else if l.closes_waiting
      then pure sent
      else pure dropped

  unfoldable pub send_to_module : String → ModulePayload → M SendOutcome
  unfolding try_link
  send_to_module m payload = do
    connected ← gets (λ e. contains e.module_senders m)
    if connected then (do l ← ask (λ n. w.link n m); try_link m payload l) else pure not_connected

  -- The two answers of the user database are drawn first; where the code does not ask, they are
  -- not used.
  unfoldable pub permit_module : String → String → M Bool
  permit_module user_uuid7 m = do
    reply ← ask (λ n. w.get_user n user_uuid7)
    deducts ← ask (λ n. w.deduct_score n user_uuid7)
    decision ← gets (λ e.
        permit (lookup m e.module_gates) (trim user_uuid7 == "") w.user_db_wired reply deducts)
    modify (λ e. record e {
      charged = map_or (decision.1) e.charged (λ amount. (user_uuid7, amount) ∷ e.charged);
    })
    pure decision.0

  unfoldable pub deliver : String → String → String → ModulePayload → String → M Bool
  unfolding permit_module send_to_module track_sent was_sent
  deliver uuid7 stage user_uuid7 payload m = do
    permitted ← permit_module user_uuid7 m
    if permitted
        then (do
          outcome ← send_to_module m payload
          if was_sent outcome then (do track_sent w uuid7 stage m; pure true) else pure false)
        else pure false

  -- The loop over the recipients of a stage; the answer is `sent_any`.
  unfoldable pub fan_out : String → String → String → ModulePayload → List String → M Bool
  unfolding deliver
  fan_out uuid7 stage user_uuid7 payload [] = pure false
  fan_out uuid7 stage user_uuid7 payload (m ∷ ms) = do
    one ← deliver uuid7 stage user_uuid7 payload m
    others ← fan_out uuid7 stage user_uuid7 payload ms
    pure (one || others)

  unfoldable pub post_fan_out : String → PipelineState → M (Unit {0})
  unfolding fan_out post_payload
  post_fan_out uuid7 s = do
    modules ← gets (λ e. e.config.post_process_modules)
    recipients ← gets (λ e. post_process_recipients s.parsed_command e.command_registry modules)
    sent_any ← fan_out uuid7 "post_process" s.user_uuid7 (post_payload uuid7 s) recipients
    if is_empty modules || not sent_any then mark_complete w uuid7 else pure tt

  -- How `start_in_process` and `start_post_process` begin alike: the pause gate, the audit check,
  -- and the entry into the stage; `dispatch` is the rest.
  unfoldable pub when_free :
      String → HoldPoint → PipelineStage → (PipelineState → M (Unit {0})) → M (Unit {0})
  unfolding hold enter_stage
  when_free uuid7 point stage dispatch = do
    held ← hold uuid7 point
    if held then pure tt else (do
      audited ← read_audited w uuid7
      if audited
          then pure tt
          else (do entered ← enter_stage uuid7 stage; map_or entered (pure tt) dispatch))

  unfoldable pub start_post_process : String → M (Unit {0})
  unfolding when_free post_fan_out
  start_post_process uuid7 = when_free uuid7 Pause.post_process post_processing (post_fan_out uuid7)

  -- Skip the module at the index: on to the next one, by `again`, or to the next stage.
  unfoldable pub skip_module : M (Unit {0}) → String → M (Unit {0})
  unfolding next_index start_post_process
  skip_module again uuid7 = do
    next ← next_index uuid7
    modules ← gets (λ e. e.config.in_process_modules)
    map_or next (pure tt) (λ i. if leb (length modules) i then start_post_process uuid7 else again)

  unfoldable pub in_process_at : M (Unit {0}) → String → PipelineState → String → M (Unit {0})
  unfolding skip_module deliver in_payload
  in_process_at again uuid7 s m = do
    targets ←
        gets
          (λ e. command_recipients s.parsed_command e.command_registry e.config.in_process_modules)
    if map_or targets true (λ t. contains t m)
        then (do
          tracked ← deliver uuid7 "in_process" s.user_uuid7 (in_payload uuid7 s) m
          if tracked then pure tt else skip_module again uuid7)
        else skip_module again uuid7

  unfoldable pub in_process_step : M (Unit {0}) → String → PipelineState → M (Unit {0})
  unfolding in_process_at start_post_process
  in_process_step again uuid7 s = do
    modules ← gets (λ e. e.config.in_process_modules)
    map_or (get_elem? modules s.current_in_process_index) (start_post_process uuid7)
        (in_process_at again uuid7 s)

  -- `start_in_process` calls itself for the next module: `fuel` counts the modules left.
  unfoldable pub start_in : ℕ → String → M (Unit {0})
  unfolding when_free in_process_step
  start_in zero uuid7 = throw out_of_fuel
  start_in (suc fuel) uuid7 =
      when_free uuid7 Pause.in_process in_processing (in_process_step (start_in fuel uuid7) uuid7)

  unfoldable pub start_in_process : String → M (Unit {0})
  unfolding start_in
  start_in_process uuid7 e = start_in (suc (length e.config.in_process_modules)) uuid7 e

  unfoldable pub pre_fan_out : String → PipelineState → M (Unit {0})
  unfolding fan_out pre_payload start_in_process
  pre_fan_out uuid7 s = do
    modules ← gets (λ e. e.config.pre_process_modules)
    targets ← gets (λ e. command_recipients s.parsed_command e.command_registry modules)
    let recipients = or_default targets modules
    sent_any ← fan_out uuid7 "pre_process" s.user_uuid7 (pre_payload uuid7 s) recipients
    if is_empty recipients || not sent_any then start_in_process uuid7 else pure tt

  unfoldable pub broadcast_pre_process : String → M (Unit {0})
  unfolding hold pre_fan_out
  broadcast_pre_process uuid7 = do
    held ← hold uuid7 Pause.entry
    if held then pure tt else (do
      found ← gets (λ e. lookup uuid7 e.pipeline_states)
      map_or found (pure tt) (pre_fan_out uuid7))
