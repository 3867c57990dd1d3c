-- ===== src/Tests/Parts.antt =====
-- The theorems about the acks and the command registry, at small inputs.
use cockatiel_engine_rs.Pipeline.Ack.{sent, ack_module, AckTracker, Acked, drop_module}
use cockatiel_engine_rs.Commands.Register.{claims}
use cockatiel_engine_rs.Commands.Subscribed.{recipients-register}
use cockatiel_engine_rs.Shared.{
  String, ◌≡◌, refl, Bool, true, false, ◌&&◌, none, some, [], ◌∷◌, ◌==◌, keep, find, contains,
  map_or, lookup, insert, string_eq,
}
use cockatiel_engine_rs.Wire.{Command, Commands}
use cockatiel_engine_rs.Commands.{
  CommandRegistry, is_command_scoped, wants_plain_messages, default_registry, register, key_of,
  owner,
}
use cockatiel_engine_rs.Pipeline.Ack.Timeouts.{Drained, drained}
use cockatiel_engine_rs.Commands.Routes.{command_recipients, post_process_recipients}
use cockatiel_engine_rs.Commands.Recipients.{
  Consistent, register-Consistent, scoped-not_a_recipient,
}
use cockatiel_engine_rs.Pipeline.Ack.Laws.{AckedRight, ack_module_lem}

abbrev the_tts : String
the_tts = "tts"

abbrev two_acks : AckTracker
two_acks =
    ("m1", sent 0 "m1" "pre_process" "filter" 2 ∷ sent 0 "m1" "pre_process" "slow" 9 ∷ []) ∷ []

abbrev one_left : AckTracker
one_left = ("m1", sent 0 "m1" "pre_process" "slow" 9 ∷ []) ∷ []

abbrev first_answer : Acked
first_answer = record { stage = "pre_process"; elapsed = 5; still_pending = true }

ack_module_lem_example : AckedRight 5 "m1" "filter" two_acks first_answer one_left
unfolding ack_module lookup find drop_module keep insert
ack_module_lem_example = ack_module_lem 5 "m1" "filter" two_acks refl

drained_example : Drained 3000000 "m1" two_acks
unfolding lookup
drained_example = drained 3000000 "m1" two_acks (refl, tt) ((refl, (refl, tt)), tt)

abbrev tts_command : Command
tts_command = record {
  command_name = "tts";
  command_flag = "!";
  command_description = "says it";
  command_flags = [];
}

abbrev tts_commands : Commands
tts_commands = record { commands = tts_command ∷ []; alert_on_unknown_command = false }

default-Consistent : Consistent default_registry
unfolding owner lookup
default-Consistent = record {
  distinct = tt;
  once = tt;
  owned = λ flag name m h. cc;
  scoped = λ m. refl;
}

abbrev tts_registry : CommandRegistry
tts_registry = (register "tts" tts_commands default_registry).1

tts_registry-Consistent : Consistent tts_registry
tts_registry-Consistent = register-Consistent "tts" tts_commands default_registry default-Consistent

scoped-not_a_recipient_example :
    (map_or (command_recipients none tts_registry ("tts" ∷ [])) false (λ t. contains t "tts")
      ≡ false)
    × (contains (post_process_recipients none tts_registry ("tts" ∷ [])) "tts" ≡ false)
unfolding is_command_scoped wants_plain_messages lookup register insert
scoped-not_a_recipient_example =
    scoped-not_a_recipient tts_registry ("tts" ∷ []) "tts" none tts_registry-Consistent refl refl
      refl

abbrev the_echo : String
the_echo = "echo"

-- Another module takes the command over.
recipients-register_example :
    let stage = the_tts ∷ the_echo ∷ [] in
    let after = (register the_echo tts_commands tts_registry).1 in
    let for_m = contains stage the_echo && claims (key_of tts_command) tts_commands.commands in
    let to_early : String → Bool =
      λ x. map_or (command_recipients (some tts_command) after stage) false (λ t. contains t x) in
    let to_late : String → Bool =
      λ x. contains (post_process_recipients (some tts_command) after stage) x in
    (to_early the_echo ≡ for_m)
    × (to_late the_echo ≡ for_m)
    × ((the_echo == the_tts) ≡ false
        → is_command_scoped the_tts tts_registry ≡ true
        → wants_plain_messages the_tts tts_registry ≡ false
        → claims (key_of tts_command) tts_commands.commands ≡ true
        → (to_early the_tts ≡ false) × (to_late the_tts ≡ false))
recipients-register_example =
    recipients-register the_echo tts_commands tts_registry the_tts (the_tts ∷ the_echo ∷ [])
      tts_command tts_registry-Consistent refl refl

-- Two modules that list the same command: the first one's is the one in the list of all commands.
abbrev shared_registry : CommandRegistry
shared_registry = (register "reader" tts_commands tts_registry).1
