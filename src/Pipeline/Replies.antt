-- ===== src/Pipeline/Replies.antt =====
-- `handle_message_from_module` of src/pipeline.rs: what a module's reply does, and what an
-- adapter's new message does.
pub mod Ownership
use Prim.Native.String.{◌++◌ as append}
use cockatiel_engine_rs.Shared.{
  String, Bool, true, false, ◌&&◌, ◌||◌, not, Option, none, some, [], ◌∷◌, ◌++◌, if◌then◌else◌,
  ◌==◌, is_empty, any, contains, map_or, string_eq,
}
use cockatiel_engine_rs.Pipeline.State.{
  DonationInfo, World, PipelineState, M, gets, Engine, pure, ◌>>=◌, ◌>>◌, modify, ask,
}
use cockatiel_engine_rs.Wire.{
  pre_process_reply, in_process_reply, post_process_reply, message_ack, other, Bytes, Command,
  UserData, ChatMessage, EnginePayload,
}
use cockatiel_engine_rs.Pipeline.Ack.{is_pending_for, mark_receipt}
use cockatiel_engine_rs.Pipeline.Bans.{is_identifier_blocked}
use cockatiel_engine_rs.Pipeline.Advance.{handle_ack, update_state}
use cockatiel_engine_rs.Pipeline.Ingest.{insert_and_start, PipelineMessage}
use cockatiel_engine_rs.Stream.{note_attendance}
use cockatiel_engine_rs.Pipeline.Terminal.{mark_dropped}

unfoldable pub flags_string : DonationInfo → String
flags_string d =
    append "donation="
      (append d.kind (append ";amount=" (append d.display (append ";currency=" d.currency))))

unfoldable pub set_audio : String → String → Bytes → PipelineState → PipelineState
set_audio stage audio_type audio s =
    let mime = if audio_type == "" then "audio/mpeg" else audio_type in
    let marker = append "audio_type=" mime in
    record s {
      audio = audio;
      audio_type = mime;
      audio_stage = stage;
      audio_type_markers =
          if contains s.audio_type_markers marker
          then s.audio_type_markers
          else s.audio_type_markers ++ marker ∷ [];
    }

unfoldable pub store_audio : String → String → String → Bytes → M (Unit {0})
unfolding set_audio
store_audio uuid7 stage audio_type audio =
    if is_empty audio then pure tt else update_state uuid7 (set_audio stage audio_type audio)

unfoldable pub owns_pending_stage : String → String → String → M Bool
unfolding is_pending_for
owns_pending_stage uuid7 m stage = gets (λ e. is_pending_for uuid7 m stage e.ack_tracker)

unfoldable pub has_active_ban : Option UserData → Bool
has_active_ban user_data = map_or user_data false (λ ud. any (λ b. not b.unbanned) ud.bans)

unfoldable pub is_appeal : Option Command → Bool
is_appeal command = map_or command false (λ c. c.command_name == "appeal")

-- Who is dropped at the door: a banned or blocked user, unless the message is an appeal.
unfoldable pub is_refused : ChatMessage → Engine → Bool
unfolding has_active_ban is_appeal is_identifier_blocked
is_refused chat e =
    (has_active_ban chat.user_data || is_identifier_blocked chat.platform chat.user_uuid7 e.bans)
    && not (is_appeal chat.command)

module _ (w : World) where
  -- The new message of an adapter, under the identifier drawn for it.
  unfoldable pub message_in : String → ChatMessage → PipelineMessage
  unfolding flags_string
  message_in uuid7 chat = record {
    uuid7 = uuid7;
    raw_message = chat.raw_message;
    platform = chat.platform;
    event_type = 1;
    command = none;
    flags = map_or (w.parse_donation chat.raw_data) none (λ d. some (flags_string d));
    parsed_command = chat.command;
    channel_id = chat.channel_id;
    user_uuid7 = chat.user_uuid7;
    user_data = chat.user_data;
    raw_data = chat.raw_data;
  }

  unfoldable pub note_presence : ChatMessage → M (Unit {0})
  unfolding note_attendance
  note_presence chat = do
    now ← ask w.epoch_ms
    modify (λ e. record e { stream_tracker = note_attendance chat.user_uuid7 now e.stream_tracker })

  unfoldable pub ingest : ChatMessage → M Bool
  unfolding note_presence is_refused message_in insert_and_start
  ingest chat = do
    note_presence chat
    refused ← gets (is_refused chat)
    if refused
        then pure true
        else (do uuid7 ← ask w.fresh_uuid7; insert_and_start w (message_in uuid7 chat); pure true)

  -- What the three replies do alike, once the ownership is known: the text and the audio are kept on
  -- the state, and `finally` is the rest.
  unfoldable pub accept_reply : String → String → String → Bytes → String → M (Unit {0}) → M Bool
  unfolding store_audio
  accept_reply uuid7 stage processed audio audio_type finally = do
    update_state uuid7 (λ s. record s { processed_message = processed })
    store_audio uuid7 stage audio_type audio
    finally
    pure true

  -- The ownership gate: a reply of a module with no ack of this message and stage changes nothing.
  unfoldable pub if_owner : String → String → String → M Bool → M Bool
  unfolding owns_pending_stage
  if_owner uuid7 m stage accepted = do
    owner ← owns_pending_stage uuid7 m stage
    if owner then accepted else pure true

  unfoldable pub on_pre_process : String → String → Option ChatMessage → Bytes → String → M Bool
  unfolding ingest if_owner accept_reply handle_ack
  on_pre_process m uuid7 chat audio audio_type =
      if uuid7 == ""
      then map_or chat (pure true) ingest
      else if_owner uuid7 m "pre_process" (
          accept_reply uuid7 "pre" (map_or chat "" (λ c. c.raw_message)) audio audio_type
            (handle_ack w uuid7 m))

  unfoldable pub on_in_process : String → String → String → Bool → Bytes → String → M Bool
  unfolding if_owner accept_reply handle_ack mark_dropped
  on_in_process m uuid7 processed abandon audio audio_type =
      if uuid7 == ""
      then pure true
      else if_owner uuid7 m "in_process" (
          accept_reply uuid7 "in" processed audio audio_type (
            if abandon
            then mark_dropped w uuid7 (append "abandoned by module '" (append m "'"))
            else handle_ack w uuid7 m))

  unfoldable pub on_post_process : String → String → String → Bytes → String → M Bool
  unfolding if_owner accept_reply handle_ack
  on_post_process m uuid7 processed audio audio_type =
      if uuid7 == ""
      then pure true
      else if_owner uuid7 m "post_process"
          (accept_reply uuid7 "post" processed audio audio_type (handle_ack w uuid7 m))

  -- A receipt stops the resends, and moves nothing.
  unfoldable pub on_receipt : String → String → M Bool
  unfolding mark_receipt
  on_receipt m uuid7 = if uuid7 == "" then pure true else (do
    modify (λ e. record e { ack_tracker = mark_receipt uuid7 m e.ack_tracker })
    pure true)

  -- The answer is whether the pipeline knew the payload. `m` is the module that sent it.
  unfoldable pub handle_message_from_module : String → EnginePayload → M Bool
  unfolding on_pre_process on_in_process on_post_process on_receipt
  handle_message_from_module m (pre_process_reply uuid7 chat audio audio_type) =
      on_pre_process m uuid7 chat audio audio_type
  handle_message_from_module m (in_process_reply uuid7 processed abandon audio audio_type) =
      on_in_process m uuid7 processed abandon audio audio_type
  handle_message_from_module m (post_process_reply uuid7 processed audio audio_type) =
      on_post_process m uuid7 processed audio audio_type
  handle_message_from_module m (message_ack uuid7) = on_receipt m uuid7
  handle_message_from_module m other = pure false
