-- ===== src/Wire.antt =====
-- The messages on the wire, as the engine builds and reads them: the protobuf types whose every
-- field src/command_registry.rs and src/pipeline.rs write out, and of `UserData` the fields that
-- the engine reads (the rest of it is passed through).
use cockatiel_engine_rs.Shared.{ℕ, String, Bool, Option, List}
use cockatiel_engine_rs.Shared.Int.{ℤ}

abbrev pub Bytes : Type 0
Bytes = List ℕ

-- A finite `f32`, counted in units of 2^-149, of which every finite `f32` is a whole number.
abbrev pub F32 : Type 0
F32 = ℤ

pub record Flag : Type 0 where
  pub flag_name : String
  pub flag_description : String
  pub limiting_type : ℤ
  pub min_val : F32
  pub max_val : F32
  pub options : List String
  pub value : String

pub record Command : Type 0 where
  pub command_name : String
  pub command_flag : String
  pub command_description : String
  pub command_flags : List Flag

pub record Commands : Type 0 where
  pub commands : List Command
  pub alert_on_unknown_command : Bool

pub record Ban : Type 0 where
  pub unbanned : Bool

pub record UserData : Type 0 where
  pub username : String
  pub bans : List Ban
  pub css_properties : List (String × String)

pub record ChatMessage : Type 0 where
  pub platform : String
  pub raw_data : Bytes
  pub raw_message : String
  pub user_uuid7 : String
  pub command : Option Command
  pub channel_id : String
  pub user_data : Option UserData

pub record ChannelRef : Type 0 where
  pub platform : String
  pub channel_id : String
  pub handle : String

-- What the engine sends to a module for each of the three stages.
pub data ModulePayload : Type 0 where
  message_pre_process :
      (message_uuid7 : String) (raw_message : ChatMessage) (audio : Bytes) (audio_type : String)
      → ModulePayload
  message_in_process :
      (message_uuid7 : String) (raw_message : ChatMessage) (processed_message : String)
      (abandon_message : Bool) (audio : Bytes) (audio_type : String)
      → ModulePayload
  message_post_process :
      (message_uuid7 : String) (raw_message : ChatMessage) (processed_message : String)
      (audio : Bytes) (audio_type : String)
      → ModulePayload

-- What a module sends to the engine, as far as the pipeline handles it.
pub data EnginePayload : Type 0 where
  pre_process_reply :
      (message_uuid7 : String) (raw_message : Option ChatMessage) (audio : Bytes)
      (audio_type : String)
      → EnginePayload
  in_process_reply :
      (message_uuid7 : String) (processed_message : String) (abandon_message : Bool) (audio : Bytes)
      (audio_type : String)
      → EnginePayload
  post_process_reply :
      (message_uuid7 : String) (processed_message : String) (audio : Bytes) (audio_type : String)
      → EnginePayload
  message_ack : (message_uuid7 : String) → EnginePayload
  other : EnginePayload
