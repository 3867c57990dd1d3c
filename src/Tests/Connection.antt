-- ===== src/Tests/Connection.antt =====
-- A connection to the engine, step by step: the theorems about sessions, PINs, files and the handshake at
-- small inputs.
use cockatiel_engine_rs.Shared.{
  ℕ, ◌+◌, ◌≤◌, ◌<◌, String, ◌≡◌, refl, true, false, ◌&&◌, none, some, List, [], ◌∷◌, arith, ltb,
  if◌then◌else◌, ◌==◌, find, contains, lookup, erase, string_eq,
}
use cockatiel_engine_rs.Shared.Int.{pos, to_u32}
use cockatiel_engine_rs.Shared.Text.{is_whitespace, trim, trim_start, trim_end}
use cockatiel_engine_rs.Connection.Hub.{Hub, Hello, Answers, Reason, rejected, accepted}
use cockatiel_engine_rs.Connection.Hub
use cockatiel_engine_rs.Connection.Sessions.{
  AuthSession, Sessions, is_bound, sweep_shutdown_sessions, remove_if_socket,
}
use cockatiel_engine_rs.Connection.Placement.{Config, place_module, ConfigState}
use cockatiel_engine_rs.Tests.Encodings.{
  modules_json, settings_json, names_json, plain_jwt, modules_json-IsFaithful, plain_jwt-IsLawful,
}
use cockatiel_engine_rs.Connection.Tokens.{
  Jwt, verify_pin, verify_token, generate_auth_token, token_ttl_secs,
}
use cockatiel_engine_rs.Connection.Registry.{
  RegisteredModule, is_known_and_auto_auth, find_module, refresh, register_module, load,
}
use cockatiel_engine_rs.Connection.Handshake.{
  handshake, first_contact, introduce, assigned_uuid, approves, auto_approves, is_always_trusted,
  is_stale_control_surface, reconnect, is_valid_token, disconnect,
}
use cockatiel_engine_rs.Connection.PinGate.{check}
use cockatiel_engine_rs.Connection.Files.{read_file}
use cockatiel_engine_rs.Connection.Handshake.Admission.{
  after, is_entitled, handshake-accepted, handshake-rejected, handshake-pinned,
}
use cockatiel_engine_rs.Connection.Handshake.Slots.{handshake-Holds}
use cockatiel_engine_rs.Connection.PinGate.Budget.{
  compared, Attempt, spent, failures_of, InMinute, compared-spent,
}
use cockatiel_engine_rs.Connection.Sessions.Sockets.{Live, Run-Live, Run, Step}
use cockatiel_engine_rs.Connection.Handshake.Settled.{Holds}
use cockatiel_engine_rs.Connection.Registry.Laws.{find_module-register_module}
use cockatiel_engine_rs.Connection.Tokens.Laws.{verify_token-generate_auth_token}
use cockatiel_engine_rs.Connection.Handshake.Leaving.{disconnect-overtaken}
use cockatiel_engine_rs.Queries.{is_control_surface}

abbrev the_tts : String
the_tts = "tts"

abbrev the_instance : String
the_instance = "u1"

abbrev the_stage : String
the_stage = "inprocess"

abbrev empty_config : Config
empty_config = record {
  inputs = [];
  preprocess_modules = [];
  inprocess_modules = [];
  postprocess_modules = [];
  other_settings = [];
}

abbrev session_on : ℕ → AuthSession
session_on socket = record {
  module_name = "tts";
  instance_uuid7 = "u1";
  auth_token = "t";
  position = "postprocess";
  priority = pos 5;
  authenticated = true;
  connected_at = some 10;
  shutdown_at = none;
  last_activity_ms = 10;
  last_probe_at_ms = 0;
  probe_deadline_ms = 0;
  unresponsive = false;
  peer_loopback = true;
  socket_token = socket;
}

abbrev tts_sessions : Sessions
tts_sessions = ("u1", session_on 2) ∷ []

abbrev pinned_tui : RegisteredModule
pinned_tui = record {
  name = "cockatiel-tui";
  instance_uuid7 = "first";
  position = "input";
  priority = pos 0;
  auto_auth = true;
  auth_token = "";
}

abbrev tts_hub : Hub
tts_hub = record {
  secret = "s";
  pin = 1234;
  known_uuids = [];
  sessions = tts_sessions;
  pin_gate = [];
  registry = record { modules = pinned_tui ∷ []; modules_json = none };
  config_state = record { config_json = none; last_size = 0; config = empty_config };
  removed_json = none;
  senders = ("tts", 2) ∷ [];
  slot_owner = ("tts", "u1") ∷ [];
  kill_map = ("u1", 2) ∷ [];
  killed = [];
}

-- A library of tokens that reads the one token "t".
abbrev one_token : Jwt
one_token = record {
  encode = λ secret c. some "t";
  decode = λ secret now t.
      if t == "t"
      then some (record { sub = "second"; name = "cockatiel-tui"; iat = 0; exp = 1000 })
      else none;
}

abbrev quiet : Answers
quiet = record {
  jwt = one_token;
  registry_json = modules_json;
  config_json = settings_json;
  names_json = names_json;
  now_ms = 20;
  now_secs = 0;
  draw = λ n. "drawn";
  patience = 1;
  lowercase = λ s. s;
  manifest_capabilities = λ m. none;
  prompt_answer = none;
  terminal_answer = false;
  is_closed = λ s. false;
  can_send = true;
  can_write = true;
}

abbrev willing : Answers
willing = record quiet { terminal_answer = true }

abbrev tts_hello : Hello
tts_hello = record {
  module_name = "tts";
  module_instance_uuid7 = "";
  auth_token = "";
  pin = pos 1234;
  process_position = Hub.ProcessPosition.postprocess;
  priority = 5;
  requested_uuid = "u2";
  peer_ip = "127.0.0.1";
  peer_loopback = true;
  socket_token = 3;
}

abbrev tui_hello : Hello
tui_hello = record tts_hello {
  module_name = "cockatiel-tui";
  module_instance_uuid7 = "second";
  auth_token = "t";
}

tts_accepted : (handshake willing tts_hello tts_hub).0 ≡ accepted "u2" "tts"
unfolding handshake first_contact introduce check verify_pin to_u32 trim trim_start trim_end
    is_whitespace assigned_uuid contains approves auto_approves is_always_trusted
    is_known_and_auto_auth find find_module refresh is_stale_control_surface lookup read_file
tts_accepted = refl

handshake-accepted_example : is_entitled willing tts_hello tts_hub "u2" ≡ true
handshake-accepted_example = handshake-accepted willing tts_hello tts_hub "u2" "tts" tts_accepted

handshake-pinned_example :
    (is_valid_token quiet tui_hello tts_hub && tui_hello.module_instance_uuid7 == "second") ≡ true
unfolding handshake reconnect is_stale_control_surface is_valid_token verify_token lookup
    is_control_surface find_module find refresh read_file is_always_trusted
handshake-pinned_example =
    handshake-pinned quiet tui_hello tts_hub "second" "cockatiel-tui" pinned_tui refl refl refl refl
      refl

abbrev guessing : Hello
guessing = record tts_hello { pin = pos 1111 }

handshake-rejected_example :
    (handshake quiet guessing tts_hub).1 ≡ after quiet guessing tts_hub Reason.bad_pin
unfolding handshake first_contact is_stale_control_surface check lookup verify_pin to_u32
handshake-rejected_example = handshake-rejected quiet guessing tts_hub Reason.bad_pin refl

handshake-Holds_example :
    Holds "u2" "tts" 3 (handshake willing tts_hello tts_hub).1.sessions
    × (lookup "u2" (handshake willing tts_hello tts_hub).1.kill_map ≡ some 3)
unfolding lookup
handshake-Holds_example =
    handshake-Holds willing tts_hello tts_hub "u2" "tts" (refl, tt) tts_accepted

disconnect-overtaken_example :
    disconnect "tts" "u1" 1 30 tts_hub ≡ record tts_hub { kill_map = erase "u1" tts_hub.kill_map }
unfolding is_bound lookup
disconnect-overtaken_example = disconnect-overtaken "tts" "u1" 1 30 tts_hub refl

Run-Live_example :
    Live "u1" 2 "tts" (sweep_shutdown_sessions 99999 60000 (remove_if_socket "u1" 1 tts_sessions).1)
unfolding lookup
Run-Live_example =
    Run-Live "u1" 2 "tts"
      (Run.next (Run.next Run.here (Step.leave tts_sessions "u1" 1 refl))
        (Step.sweep (remove_if_socket "u1" 1 tts_sessions).1 99999 60000))
      (record { distinct = (refl, tt); live = refl })

verify_token-generate_auth_token_example :
    verify_token plain_jwt "s" 100 "u1" (generate_auth_token plain_jwt "s" 50 "u1" "tts") "tts"
    ≡ (the_instance == the_instance && ltb 100 (50 + token_ttl_secs) && the_tts == the_tts)
verify_token-generate_auth_token_example =
    verify_token-generate_auth_token plain_jwt plain_jwt-IsLawful "s" 50 100 "u1" "tts" "u1" "tts"

abbrev guess : ℕ → Attempt
guess now = record { now = now; identity = ("127.0.0.1", "tts"); is_right = false }

abbrev guesses : List Attempt
guesses = guess 1 ∷ guess 2 ∷ guess 3 ∷ guess 4 ∷ guess 5 ∷ guess 6 ∷ []

compared-spent_example :
    compared ("127.0.0.1", "tts") guesses [] + spent (failures_of ("127.0.0.1", "tts") []) ≤ 5
compared-spent_example =
    compared-spent 0 ("127.0.0.1", "tts") guesses [] tt (omega arith)
      (
        in_minute 1 (omega arith),
        (
          in_minute 2 (omega arith),
          (
            in_minute 3 (omega arith),
            (
              in_minute 4 (omega arith),
              (in_minute 5 (omega arith), (in_minute 6 (omega arith), tt)),
            ),
          ),
        ),
      )
  where
    in_minute : (n : ℕ) → n < 60000 → InMinute 0 ("127.0.0.1", "tts") (guess n)
    in_minute n h = (omega arith, omega (arith, h), λ e. refl)

find_module-register_module_example :
    (find_module "tts" (register_module modules_json false pinned_tui tts_hub.registry)
      ≡ (if pinned_tui.name == "tts" then some pinned_tui else find_module "tts" tts_hub.registry))
    × (find_module "tts" (
          load modules_json
            (register_module modules_json true pinned_tui tts_hub.registry).modules_json)
        ≡ (if pinned_tui.name == "tts"
            then some pinned_tui
            else find_module "tts" tts_hub.registry))
    × (refresh modules_json (register_module modules_json true pinned_tui tts_hub.registry)
        ≡ register_module modules_json true pinned_tui tts_hub.registry)
find_module-register_module_example =
    find_module-register_module modules_json modules_json-IsFaithful false pinned_tui "tts"
      tts_hub.registry

abbrev on_disk : ConfigState
on_disk = record tts_hub.config_state { config_json = settings_json.to_text empty_config }

abbrev with_tts : Config → Config
with_tts = place_module "tts" "inprocess" (pos 3)
