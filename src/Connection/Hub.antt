-- ===== src/Connection/Hub.antt =====
-- What the engine keeps of its connections, and what it asks of its surroundings during a handshake:
-- the arguments of `handle_connection` in src/main.rs.
use cockatiel_engine_rs.Shared.{ℕ, String, Bool, Option, List, Map}
use cockatiel_engine_rs.Shared.Int.{ℤ}
use cockatiel_engine_rs.Connection.Files.{File, Json}
use cockatiel_engine_rs.Connection.Tokens.{Jwt}
use cockatiel_engine_rs.Connection.PinGate.{PinGate}
use cockatiel_engine_rs.Connection.Sessions.{Sessions}
use cockatiel_engine_rs.Connection.Registry.{ModuleRegistry, RegisteredModule}
use cockatiel_engine_rs.Connection.Placement.{Config, ConfigState}

pub data ProcessPosition : Type 0 where
  unspecified connection preprocess inprocess postprocess : ProcessPosition

unfoldable pub process_position_to_string : ProcessPosition → String
process_position_to_string ProcessPosition.connection = "input"
process_position_to_string ProcessPosition.preprocess = "preprocess"
process_position_to_string ProcessPosition.inprocess = "inprocess"
process_position_to_string ProcessPosition.postprocess = "postprocess"
process_position_to_string ProcessPosition.unspecified = "input"

-- The first message of a connection, and what the engine knows of the peer. An unknown number of a position is
-- `unspecified`.
pub record Hello : Type 0 where
  pub module_name : String
  pub module_instance_uuid7 : String
  pub auth_token : String
  pub pin : ℤ
  pub process_position : ProcessPosition
  pub priority : ℕ
  pub requested_uuid : String
  pub peer_ip : String
  pub peer_loopback : Bool
  pub socket_token : ℕ

-- What the engine keeps of its connections. A sender is known by the token of its socket; `killed` are the
-- sockets that were told to close.
pub record Hub : Type 0 where
  pub secret : String
  pub pin : ℕ
  pub known_uuids : List String
  pub sessions : Sessions
  pub pin_gate : PinGate
  pub registry : ModuleRegistry
  pub config_state : ConfigState
  pub removed_json : File
  pub senders : Map String ℕ
  pub slot_owner : Map String String
  pub kill_map : Map String ℕ
  pub killed : List ℕ

-- What the engine asks of its surroundings during one handshake: the clocks, fresh identifiers, the operator, the
-- manifests, the files and the sockets. `patience` bounds how many identifiers are drawn.
pub record Answers : Type 0 where
  pub jwt : Jwt
  pub registry_json : Json (List RegisteredModule)
  pub config_json : Json Config
  pub names_json : Json (List String)
  pub now_ms : ℕ
  pub now_secs : ℕ
  pub draw : ℕ → String
  pub patience : ℕ
  pub lowercase : String → String
  pub manifest_capabilities : String → Option String
  pub prompt_answer : Option Bool
  pub terminal_answer : Bool
  pub is_closed : ℕ → Bool
  pub can_send : Bool
  pub can_write : Bool

pub data Reason : Type 0 where
  bad_token locked_out bad_pin no_name denied : Reason

-- `answer_lost`: the answer could not be sent, which ends the handler at once. `still_drawing`: the patience ran out.
pub data Verdict : Type 0 where
  rejected : Reason → Verdict
  accepted : String → String → Verdict
  answer_lost still_drawing : Verdict
