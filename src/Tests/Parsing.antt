-- ===== src/Tests/Parsing.antt =====
-- A chat message of src/command_registry.rs's own tests, and what is read of it.
use cockatiel_engine_rs.Shared.{
  ℕ, ◌≤◌, String, ◌≡◌, refl, ◌⊎◌, true, false, Option, none, some, List, [], ◌∷◌, keep, is_some,
  lookup, string_eq,
}
use cockatiel_engine_rs.Shared.Int.{ℤ, pos}
use cockatiel_engine_rs.Shared.Text.{
  starts_with, is_whitespace, strip_prefix, trim, trim_start, trim_end, to_ascii_lowercase,
}
use cockatiel_engine_rs.Wire.{ChatMessage, F32, Flag, Commands, Command}
use cockatiel_engine_rs.Commands.{CommandRegistry, command_flags, owner, names}
use cockatiel_engine_rs.Commands.Parse.{longest_flag, parse_command, flag_body, is_value}
use cockatiel_engine_rs.Commands.Parse.Items.{Item, bare, inline, valued, item_flags}
use cockatiel_engine_rs.Commands.Parse.RoundTrip.{parsed, parse_command-written}
use cockatiel_engine_rs.Commands.Nearest.{
  chars, counted, fill, last_row, edit_distance, distance_from, nearest, is_close, suggested,
  closest_command,
}
use cockatiel_engine_rs.Commands.Nearest.Edits.{Edits, edit_distance-IsLeast}
use cockatiel_engine_rs.Commands.Help.{FlagLimitType}
use cockatiel_engine_rs.Pipeline.Dispatch.{SendOutcome, sent}
use cockatiel_engine_rs.Chat.{handle_command_on_ingest, engine_handled}
use cockatiel_engine_rs.Chat.Laws.{with_command, written_command, ingest-attached, ingest-written}

abbrev sample_flag : String → String → Flag
sample_flag name description = record {
  flag_name = name;
  flag_description = description;
  limiting_type = pos 0;
  min_val = pos 0;
  max_val = pos 0;
  options = [];
  value = "";
}

abbrev tts : Commands
tts = record {
  commands =
      record {
        command_name = "tts";
        command_flag = "!";
        command_description = "read chat out loud";
        command_flags = sample_flag "p" "priority" ∷ sample_flag "v" "voice" ∷ [];
      }
      ∷ [];
  alert_on_unknown_command = true;
}

abbrev sample_registry : CommandRegistry
sample_registry = record {
  index = (("!", "tts"), "tts-service") ∷ [];
  modules =
      (
        "tts-service",
        record { commands = tts.commands; catch_all = false; alert_on_unknown = true },
      )
      ∷ [];
}

abbrev sample_items : List Item
sample_items = valued "p" "2" ∷ inline "r" "1.4" ∷ bare "v" ∷ []

parse_command-written_example :
    parse_command "!tts -p 2 -r:1.4 -v" sample_registry
    ≡ some (
        parsed "!" "tts"
          (item_flags (command_flags "!" "tts" sample_registry) sample_items)
          []
          sample_registry)
unfolding is_whitespace strip_prefix longest_flag flag_body is_value starts_with
parse_command-written_example =
    parse_command-written "!" "tts" sample_items sample_registry refl refl refl refl

abbrev sample_chat : ChatMessage
sample_chat = record {
  platform = "twitch";
  raw_data = [];
  raw_message = "!tts -p 2 -r:1.4 -v";
  user_uuid7 = "u1";
  command = none;
  channel_id = "c1";
  user_data = none;
}

abbrev no_limits : ℤ → Option FlagLimitType
no_limits n = none

abbrev no_digits : F32 → String
no_digits n = ""

abbrev all_open : String → SendOutcome
all_open name = sent

ingest-written_example :
    handle_command_on_ingest no_limits no_digits all_open sample_registry sample_chat
    ≡ with_command sample_chat (written_command "!" "tts" sample_items sample_registry)
unfolding is_whitespace strip_prefix longest_flag flag_body is_value trim_start trim_end trim
    to_ascii_lowercase owner starts_with lookup
ingest-written_example =
    ingest-written no_limits no_digits all_open sample_registry sample_chat "!" "tts" sample_items
      refl refl refl refl refl refl refl

suggested_tts : closest_command sample_registry "!" "Ts" ≡ some "tts"
unfolding closest_command nearest suggested is_close distance_from edit_distance last_row fill
    counted to_ascii_lowercase names starts_with strip_prefix keep
suggested_tts = refl

ingest-attached_example :
    ((c : Command) × (handle_command_on_ingest no_limits no_digits all_open sample_registry
          sample_chat
        ≡ with_command sample_chat c)
      × (is_some (owner c.command_flag c.command_name sample_registry) ≡ true))
    ⊎ (((handle_command_on_ingest no_limits no_digits all_open sample_registry sample_chat).outcome
          ≡ engine_handled)
        × ((handle_command_on_ingest no_limits no_digits all_open sample_registry sample_chat).chat
            ≡ sample_chat))
ingest-attached_example = ingest-attached no_limits no_digits all_open sample_registry sample_chat

edit_distance-IsLeast_example :
    (n : ℕ) × (edit_distance "rolll" "roll" ≡ some n)
    × Edits n (chars "rolll") (chars "roll")
    × ((m : ℕ) → Edits m (chars "rolll") (chars "roll") → n ≤ m)
edit_distance-IsLeast_example = edit_distance-IsLeast "rolll" "roll"
