-- ===== src/Pipeline/State.antt =====
-- The state of `PipelineOrchestrator` of src/pipeline.rs, what it asks of the outside world, and the
-- monad of its methods.
use cockatiel_engine_rs.Shared.{ℕ, ◌+◌, String, Bool, Option, List, Map}
use cockatiel_engine_rs.Shared.Int.{ℤ}
use cockatiel_engine_rs.Wire.{Bytes, Command, UserData, ModulePayload}
use cockatiel_engine_rs.Timeline.{Table}
use cockatiel_engine_rs.Commands.{CommandRegistry}
use cockatiel_engine_rs.Stream.{StreamTracker}
use cockatiel_engine_rs.Pipeline.Ack.{AckTracker}
use cockatiel_engine_rs.Pipeline.Pause.{PauseState}
use cockatiel_engine_rs.Pipeline.Bans.{Bans}
use cockatiel_engine_rs.Pipeline.Gate.{ModuleGate, UserReply}
use cockatiel_engine_rs.Pipeline.Timing.{ModuleTimings}

pub record PipelineConfig : Type 0 where
  pub pre_process_modules : List String
  pub in_process_modules : List String
  pub post_process_modules : List String
  pub ack_timeout_ms : ℕ
  pub critical_modules : List String

pub data PipelineStage : Type 0 where
  inserted pre_processing in_processing post_processing complete failed : PipelineStage

unfoldable pub stage_str : PipelineStage → String
stage_str inserted = "queued"
stage_str pre_processing = "processing"
stage_str in_processing = "processing"
stage_str post_processing = "processing"
stage_str complete = "complete"
stage_str failed = "failed"

pub record DonationInfo : Type 0 where
  pub kind : String
  pub amount_micros : ℤ
  pub currency : String
  pub display : String
  pub message : String

pub record PipelineState : Type 0 where
  pub uuid7 : String
  pub stage : PipelineStage
  pub current_in_process_index : ℕ
  pub raw_message : String
  pub processed_message : String
  pub platform : String
  pub event_type : ℕ
  pub command : Option String
  pub flags : Option String
  pub parsed_command : Option Command
  pub channel_id : String
  pub user_uuid7 : String
  pub user_data : Option UserData
  pub audio : Bytes
  pub audio_type : String
  pub audio_stage : String
  pub pre_process_completed_at : Option ℕ
  pub in_process_completed_at : Option ℕ
  pub audio_type_markers : List String
  pub raw_data : Bytes
  pub donation : Option DonationInfo

-- A module's outbound channel, as a send finds it: closed, with room at once, with room in time, or
-- closing while the timed send waits.
pub record Link : Type 0 where
  pub is_closed : Bool
  pub has_room : Bool
  pub frees_up : Bool
  pub closes_waiting : Bool

-- What is not the engine: the clocks, whether the database runs a statement, the channels, the
-- user database and the identifiers. Each answer is given by the number of the question, so any
-- sequence of answers is covered.
pub record World : Type 0 where
  pub now : ℕ → ℕ
  pub epoch_ms : ℕ → ℕ
  pub runs : ℕ → Bool
  pub link : ℕ → String → Link
  pub user_db_wired : Bool
  pub get_user : ℕ → String → UserReply
  pub deduct_score : ℕ → String → ℤ → Bool
  pub enrich_chat_user : ℕ → String → String → Bytes → Option UserData
  pub fresh_uuid7 : ℕ → String
  pub parse_donation : Bytes → Option DonationInfo

-- `sent` and `charged` are what went out: the payloads queued for modules, and the deductions asked
-- of the user database, newest first. `calls` counts the questions to the world.
pub record Engine : Type 0 where
  pub rows : Table
  pub ack_tracker : AckTracker
  pub pipeline_states : Map String PipelineState
  pub config : PipelineConfig
  pub module_senders : List String
  pub command_registry : CommandRegistry
  pub pause_state : PauseState
  pub module_timings : ModuleTimings
  pub module_gates : Map String ModuleGate
  pub stream_tracker : StreamTracker
  pub bans : Bans
  pub sent : List (String × ModulePayload)
  pub charged : List (String × ℤ)
  pub calls : ℕ

-- `out_of_fuel` is no error of the code: that it does not come up is proved.
pub data Error : Type 0 where
  db_failed out_of_fuel : Error

pub data Result {ℓ} (A : Type ℓ) : Type ℓ where
  ok : A → Result A
  err : Error → Result A

abbrev pub M : Type 0 → Type 0
M A = Engine → Result A × Engine

abbrev pub pure : {A : Type 0} → A → M A
pure a e = (ok a, e)

abbrev pub throw : {A : Type 0} → Error → M A
throw x e = (err x, e)

abbrev pub and_then : {A B : Type 0} → Result A × Engine → (A → M B) → Result B × Engine
and_then (ok a, e) f = f a e
and_then (err x, e) f = (err x, e)

infixl 5 ◌>>=◌ ◌>>◌
abbrev pub ◌>>=◌ : {A B : Type 0} → M A → (A → M B) → M B
◌>>=◌ m f e = and_then (m e) f

abbrev pub ◌>>◌ : {B : Type 0} → M (Unit {0}) → M B → M B
◌>>◌ m k = m >>= λ _. k

abbrev pub gets : {A : Type 0} → (Engine → A) → M A
gets f e = (ok (f e), e)

abbrev pub modify : (Engine → Engine) → M (Unit {0})
modify f e = (ok tt, f e)

-- One question to the world.
abbrev pub ask : {A : Type 0} → (ℕ → A) → M A
ask f e = (ok (f e.calls), record e { calls = e.calls + 1 })
