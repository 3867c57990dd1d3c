-- ===== src/Chat.antt =====
-- What src/main.rs does with a chat message before the pipeline: its classification as a command, the
-- engine's own replies, and whether the user database is asked.
pub mod Laws
use cockatiel_engine_rs.Shared.{
  String, Bool, true, false, ◌||◌, not, Option, none, some, List, [], ◌∷◌, map, if◌then◌else◌, ◌==◌,
  is_empty, any, keep, is_some, or_default, map_or, string_eq,
}
use cockatiel_engine_rs.Shared.Int.{ℤ, pos}
use cockatiel_engine_rs.Shared.Text.{◌<>◌, is_blank, trim, skip, starts_with, to_ascii_lowercase}
use cockatiel_engine_rs.Wire.{ChatMessage, Command, F32}
use cockatiel_engine_rs.Commands.{CommandRegistry, owner, alert_owner_for, catch_alls}
use cockatiel_engine_rs.Commands.Parse.{ParsedCommand, parse_command}
use cockatiel_engine_rs.Commands.Nearest.{closest_command}
use cockatiel_engine_rs.Commands.Help.{FlagLimitType, format_overview, format_module}
use cockatiel_engine_rs.Pipeline.Dispatch.{SendOutcome, was_sent}
use cockatiel_engine_rs.Pipeline.State.{PipelineConfig}

pub data CommandAction : Type 0 where
  attach : Command → CommandAction
  help : Option String → CommandAction
  alert : (flag name : String) → CommandAction
  no_action : CommandAction

unfoldable pub classify_parsed : CommandRegistry → Option ParsedCommand → CommandAction
classify_parsed r none = no_action
classify_parsed r (some p) =
    if is_some (owner p.command.command_flag p.command.command_name r)
    then attach p.command
    else if is_some (alert_owner_for p.command.command_flag r)
    then alert p.command.command_flag p.command.command_name
    else no_action

-- No character outside ASCII has a letter of `!help` as its lower case, so that lower case of ASCII letters
-- is enough to find it.
unfoldable pub classify_command : String → CommandRegistry → CommandAction
unfolding classify_parsed
classify_command text r =
    let raw = trim text in
    let lower = to_ascii_lowercase raw in
    let arg = trim (skip 6 raw) in
    if is_blank raw
    then no_action
    else if lower == "!help"
    then help none
    else if starts_with "!help " lower
    then help (if is_blank arg then none else some arg)
    else classify_parsed r (parse_command raw r)

pub data IngestCommandOutcome : Type 0 where
  attached engine_handled : IngestCommandOutcome

unfoldable pub command_attached : IngestCommandOutcome → Bool
command_attached attached = true
command_attached engine_handled = false

unfoldable pub should_fetch_user_data : Bool → CommandRegistry → PipelineConfig → List String → Bool
should_fetch_user_data command_is_attached r cfg connected =
    command_is_attached
    || not (is_empty (catch_alls r))
    || any (λ name. any (λ live. live == name) connected) cfg.post_process_modules

-- The module names with an open channel.
unfoldable pub connected_module_names : List (String × Bool) → List String
connected_module_names senders = map (λ s. s.0) (keep (λ s. not s.1) senders)

unfoldable pub send_to_platforms_allowed : Bool → Bool → Bool → Bool
send_to_platforms_allowed actor_ok is_proxy module_ok = is_proxy || actor_ok || module_ok

-- The fields that are set; the others are the default ones.
pub record SendToPlatforms : Type 0 where
  pub msg : String
  pub level : ℤ
  pub module_uuid7 : String
  pub pid : String
  pub platform : String
  pub actor_platform : String
  pub actor_handle : String
  pub actor_uuid7 : String
  pub channel_id : String

unfoldable pub reply_targets : String → List String
reply_targets platform =
    if platform == "all"
    then "twitch-adapter" ∷ "kick-adapter" ∷ "youtube-adapter" ∷ "discord-adapter" ∷ []
    else if platform == "twitch"
    then "twitch-adapter" ∷ []
    else if platform == "kick"
    then "kick-adapter" ∷ []
    else if platform == "youtube"
    then "youtube-adapter" ∷ []
    else if platform == "discord"
    then "discord-adapter" ∷ []
    else []

abbrev pub reply_to : String → String → String → SendToPlatforms
reply_to platform channel_id msg = record {
  msg = msg;
  level = pos 0;
  module_uuid7 = "";
  pid = "";
  platform = platform;
  actor_platform = "";
  actor_handle = "cockatiel";
  actor_uuid7 = "";
  channel_id = channel_id;
}

-- What is handed to each adapter, and the log.
pub record Replies : Type 0 where
  pub handed : List (String × SendToPlatforms)
  pub log : List String

abbrev pub no_replies : Replies
no_replies = record { handed = []; log = [] }

-- `send` is what becomes of the bounded send to an adapter.
module _ (send : String → SendOutcome) where
  unfoldable pub reply_each : SendToPlatforms → List String → Replies
  unfolding was_sent
  reply_each reply [] = no_replies
  reply_each reply (name ∷ targets) =
      let rest = reply_each reply targets in
      record {
        handed = (name, reply) ∷ rest.handed;
        log =
            if was_sent (send name)
            then ("[Commands] reply '" <> name <> "' -> " <> reply.msg) ∷ rest.log
            else rest.log;
      }

  unfoldable pub engine_reply_to_platform : String → String → String → Replies
  unfolding reply_each reply_targets
  engine_reply_to_platform platform channel_id msg =
      reply_each (reply_to platform channel_id msg) (reply_targets platform)

unfoldable pub addressee : ChatMessage → String
addressee chat =
    let name = map_or chat.user_data "" (λ u. u.username) in
    if not (is_blank name)
    then name
    else if not (is_blank chat.user_uuid7)
    then chat.user_uuid7
    else "user"

unfoldable pub apology : CommandRegistry → ChatMessage → String → String → String
unfolding addressee
apology r chat flag name = elim (closest_command r flag name) [
  | some c ↦
      addressee chat
      <> ", `"
      <> flag
      <> name
      <> "` isn't a command — did you mean `"
      <> flag
      <> c
      <> "`? (see `!help`)"
  | none ↦
      addressee chat
      <> ", `"
      <> flag
      <> name
      <> "` isn't a command — try `!help` to see all available commands"
]

pub record Ingested : Type 0 where
  pub chat : ChatMessage
  pub outcome : IngestCommandOutcome
  pub replies : Replies

module _ (limit_type : ℤ → Option FlagLimitType) (show_f32 : F32 → String)
    (send : String → SendOutcome) where
  unfoldable pub help_text : CommandRegistry → Option String → String
  help_text r none = format_overview r
  help_text r (some m) =
      or_default (format_module limit_type show_f32 r m)
        ("no module named '" <> m <> "' — try '!help' to see all modules")

  unfoldable pub engine_reply : ChatMessage → String → Ingested
  engine_reply chat msg = record {
    chat = chat;
    outcome = engine_handled;
    replies = engine_reply_to_platform send chat.platform chat.channel_id msg;
  }

  unfoldable pub act_on : CommandRegistry → ChatMessage → CommandAction → Ingested
  unfolding help_text engine_reply apology
  act_on r chat (attach cmd) = record {
    chat = record chat { command = some cmd };
    outcome = attached;
    replies = no_replies;
  }
  act_on r chat (help arg) = engine_reply chat (help_text r arg)
  act_on r chat (alert flag name) = engine_reply chat (apology r chat flag name)
  act_on r chat no_action = record { chat = chat; outcome = engine_handled; replies = no_replies }

  unfoldable pub handle_command_on_ingest : CommandRegistry → ChatMessage → Ingested
  unfolding act_on
  handle_command_on_ingest r chat = act_on r chat (classify_command chat.raw_message r)
