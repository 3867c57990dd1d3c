-- ===== src/Chat/Laws.antt =====
-- What `handle_command_on_ingest` of src/main.rs does to a chat message.
use cockatiel_engine_rs.Shared.{
  String, ◌≡◌, refl, ◌⊎◌, inl, inr, Bool, true, false, ◌||◌, Option, none, some, List, ◌∷◌, arith,
  Bool-cases, ◌==◌, is_some, string_eq,
}
use cockatiel_engine_rs.Shared.Int.{ℤ}
use cockatiel_engine_rs.Shared.Text.{◌<>◌, starts_with, to_ascii_lowercase, is_blank, trim}
use cockatiel_engine_rs.Shared.Text.Words.{is_word, are_words, is_blank-word, spaced}
use cockatiel_engine_rs.Wire.{ChatMessage, Command, F32}
use cockatiel_engine_rs.Commands.{CommandRegistry, owner, command_flags}
use cockatiel_engine_rs.Commands.Help.{FlagLimitType}
use cockatiel_engine_rs.Commands.Parse.{ParsedCommand, longest_flag, parse_command}
use cockatiel_engine_rs.Commands.Parse.Items.{Item, tokens, are_items, item_flags, item_args}
use cockatiel_engine_rs.Commands.Parse.RoundTrip.{
  written, parsed, trim-written, parse_command-written,
}
use cockatiel_engine_rs.Pipeline.Dispatch.{SendOutcome}
use cockatiel_engine_rs.Chat.{
  CommandAction, attach, help, alert, no_action, classify_command, classify_parsed,
  handle_command_on_ingest, act_on, engine_reply, Ingested, no_replies, attached, engine_handled,
}

abbrev pub with_command : ChatMessage → Command → Ingested
with_command chat c = record {
  chat = record chat { command = some c };
  outcome = attached;
  replies = no_replies;
}

abbrev owned : CommandRegistry → CommandAction → Bool
owned r (attach c) = is_some (owner c.command_flag c.command_name r)
owned r _ = true

classify_parsed-owned :
    (r : CommandRegistry) (p : Option ParsedCommand) → owned r (classify_parsed r p) ≡ true
unfolding classify_parsed
classify_parsed-owned r none = refl
classify_parsed-owned r (some p) =
    ground (arith, Bool-cases (is_some (owner p.command.command_flag p.command.command_name r)))

classify_command-owned :
    (r : CommandRegistry) (text : String) → owned r (classify_command text r) ≡ true
unfolding classify_command
classify_command-owned r text =
    ground (arith, classify_parsed-owned r (parse_command (trim text) r))

module _ (limit_type : ℤ → Option FlagLimitType) (show_f32 : F32 → String)
    (send : String → SendOutcome) (r : CommandRegistry) (chat : ChatMessage) where
  act_on-attached :
      (action : CommandAction)
      → owned r action ≡ true
      → ((c : Command) × (act_on limit_type show_f32 send r chat action ≡ with_command chat c)
          × (is_some (owner c.command_flag c.command_name r) ≡ true))
        ⊎ (((act_on limit_type show_f32 send r chat action).outcome ≡ engine_handled)
            × ((act_on limit_type show_f32 send r chat action).chat ≡ chat))
  unfolding act_on engine_reply
  act_on-attached (attach c) has_owner = inl (c, refl, has_owner)
  act_on-attached (help arg) has_owner = inr (refl, refl)
  act_on-attached (alert flag name) has_owner = inr (refl, refl)
  act_on-attached no_action has_owner = inr (refl, refl)

  -- A message leaves the command handling in one of two ways. Either a command is attached to it that a module has
  -- registered, the outcome says so, and the engine replies nothing; or the message is as it came, and
  -- the outcome says that the engine handled it.
  pub ingest-attached :
      ((c : Command) × (handle_command_on_ingest limit_type show_f32 send r chat
          ≡ with_command chat c)
        × (is_some (owner c.command_flag c.command_name r) ≡ true))
      ⊎ (((handle_command_on_ingest limit_type show_f32 send r chat).outcome ≡ engine_handled)
          × ((handle_command_on_ingest limit_type show_f32 send r chat).chat ≡ chat))
  unfolding handle_command_on_ingest
  ingest-attached =
      act_on-attached (classify_command chat.raw_message r)
        (classify_command-owned r chat.raw_message)

abbrev is_help : String → Bool
is_help text =
    to_ascii_lowercase (trim text) == "!help"
    || starts_with "!help " (to_ascii_lowercase (trim text))

abbrev pub written_command : String → String → List Item → CommandRegistry → Command
written_command flag name is r =
    (parsed flag name (item_flags (command_flags flag name r) is) (item_args is) r).command

classify_command-parsed :
    (text : String) (p : ParsedCommand) (r : CommandRegistry)
    → is_blank (trim text) ≡ false
    → is_help text ≡ false
    → parse_command (trim text) r ≡ some p
    → is_some (owner p.command.command_flag p.command.command_name r) ≡ true
    → classify_command text r ≡ attach p.command
unfolding classify_command classify_parsed
classify_command-parsed text p r full no_help read registered = rw (read) (ground arith)

module _ (limit_type : ℤ → Option FlagLimitType) (show_f32 : F32 → String)
    (send : String → SendOutcome) (r : CommandRegistry) where
  -- A chat message that was written as a registered command reaches the pipeline with that command and its flags
  -- attached: the message is a registered flag, a name and items with single spaces, it is not `!help`, a
  -- module has registered the command, and the tokens are as `parse_command-written` has them.
  pub ingest-written :
      (chat : ChatMessage) (flag name : String) (is : List Item)
      → chat.raw_message ≡ written flag name is
      → is_word flag ≡ true
      → are_words (name ∷ tokens is) ≡ true
      → are_items is ≡ true
      → longest_flag (written flag name is) none r.index ≡ some flag
      → is_help (written flag name is) ≡ false
      → is_some (owner flag name r) ≡ true
      → handle_command_on_ingest limit_type show_f32 send r chat
        ≡ with_command chat (written_command flag name is r)
  unfolding handle_command_on_ingest act_on
  ingest-written chat flag name is text flag_word words items longest no_help registered =
      rw
        (
          text,
          classify_command-parsed (written flag name is)
              (parsed flag name (item_flags (command_flags flag name r) is) (item_args is) r) r
              (rw (trim-written flag name (tokens is) flag_word words)
                (is_blank-word flag (name <> spaced (tokens is)) flag_word))
              no_help
              (rw (trim-written flag name (tokens is) flag_word words)
                (parse_command-written flag name is r flag_word words items longest))
              registered,
        )
        refl
