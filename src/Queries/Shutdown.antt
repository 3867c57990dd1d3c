-- ===== src/Queries/Shutdown.antt =====
-- The shutdown that a control surface may ask for: `ShutdownSignal` and `engine_shutdown` of src/queries.rs, and the
-- reader and the writer of a connection in `handle_connection` of src/main.rs, each step of theirs that
-- another task may come between as a step of its own.
pub mod Asked
pub mod Release
use cockatiel_engine_rs.Shared.{
  ℕ, String, ◌≡◌, Bool, true, false, ◌&&◌, ◌||◌, not, List, [], ◌∷◌, ◌++◌, nat_beq, if◌then◌else◌,
}

pub data ShutdownStage : Type 0 where
  idle requested answered : ShutdownStage

abbrev pub is_requested : ShutdownStage → Bool
is_requested requested = true
is_requested _ = false

pub record QueryOutcome : Type 0 where
  pub success : Bool
  pub result_blob : String
  pub error : String

abbrev pub succeeded : String → QueryOutcome
succeeded blob = record { success = true; result_blob = blob; error = "" }

abbrev pub denied : String → QueryOutcome
denied error = record { success = false; result_blob = ""; error = error }

-- `accepted_json` prints the answer, as `serde_json` does.
unfoldable pub engine_shutdown :
    (String → String) → Bool → String → ShutdownStage → QueryOutcome × ShutdownStage
engine_shutdown accepted_json shutdown_on_request requester stage =
    if shutdown_on_request then (succeeded (accepted_json requester), requested) else (
      denied
          "engine_shutdown denied: engine shutdown is disabled (shutdown_on_request is false in config.json)",
      stage,
    )

-- Where the reader of a connection is in its answer to a query. Before the query it has read whether a shutdown
-- was requested, after the query it reads whether one is; `accepted` is whether this query asked for a
-- shutdown and the engine accepted it.
pub data Reader : Type 0 where
  reading : Reader
  serving : (was_requested : Bool) → Reader
  served : (was_requested accepted : Bool) → Reader
  answering : (answered_with_shutdown accepted : Bool) → Reader
  arming : (answered_with_shutdown queued : Bool) → Reader

-- `flush` is `shutdown_flush`, `writes` whether the writer still runs; a frame is known by whether it is the answer to
-- an accepted request.
pub record Socket : Type 0 where
  pub reader : Reader
  pub outbound : List Bool
  pub writes : Bool
  pub flush : Bool
  pub written : List Bool

-- `asked` is whether a request was ever accepted.
pub record System : Type 0 where
  pub stage : ShutdownStage
  pub asked : Bool
  pub socket : ℕ → Socket

abbrev pub new_socket : Socket
new_socket = record { reader = reading; outbound = []; writes = true; flush = false; written = [] }

unfoldable pub put : ℕ → Socket → (ℕ → Socket) → ℕ → Socket
put i s sockets j = if nat_beq i j then s else sockets j

abbrev pub set_socket : ℕ → Socket → System → System
set_socket i s y = record y { socket = put i s y.socket }

abbrev pub set_reader : ℕ → Reader → System → System
set_reader i r y = set_socket i (record (y.socket i) { reader = r }) y

-- A query arrives: the stage before it is read.
unfoldable pub take_query : ℕ → System → System
take_query i y = set_reader i (serving (is_requested y.stage)) y

-- `handle_query`, of a query that asks for a shutdown and passes the caller gate, or of another.
unfoldable pub serve : Bool → Bool → ℕ → Bool → System → System
unfolding engine_shutdown
serve shutdown_on_request asks i was_requested y =
    let outcome = engine_shutdown (λ s. s) shutdown_on_request "" y.stage in
    let y' = record y { stage = outcome.1; asked = y.asked || outcome.0.success } in
    if asks
    then set_reader i (served was_requested outcome.0.success) y'
    else set_reader i (served was_requested false) y

-- The stage after the query is read.
unfoldable pub look_again : ℕ → Bool → Bool → System → System
look_again i was_requested accepted y =
    set_reader i (answering (not was_requested && is_requested y.stage) accepted) y

-- `send_query_response`, and whether the answer got onto the channel.
unfoldable pub queue_answer : Bool → ℕ → Bool → Bool → System → System
queue_answer queued i answered_with_shutdown accepted y =
    let s = y.socket i in
    set_socket i
      (record s {
        reader = arming answered_with_shutdown queued;
        outbound = if queued then s.outbound ++ accepted ∷ [] else s.outbound;
      })
      y

unfoldable pub mark_answered : System → System
mark_answered y = record y { stage = answered }

-- The flag is set; where the answer could not be queued, the exit is released.
unfoldable pub arm : ℕ → Bool → Bool → System → System
unfolding mark_answered
arm i answered_with_shutdown queued y =
    let y' =
      set_socket i
        (record (y.socket i) { reader = reading; flush = answered_with_shutdown && queued }) y in
    if answered_with_shutdown && not queued then mark_answered y' else y'

-- The writer has put a frame on the socket, and swaps the flag.
unfoldable pub write_frame : ℕ → Bool → List Bool → System → System
unfolding mark_answered
write_frame i frame rest y =
    let s = y.socket i in
    let y' =
      set_socket i (record s { outbound = rest; flush = false; written = frame ∷ s.written }) y in
    if s.flush then mark_answered y' else y'

-- A write fails or takes too long: the writer stops, and its frames are lost.
unfoldable pub fail_write : ℕ → System → System
fail_write i y = set_socket i (record (y.socket i) { outbound = []; writes = false }) y

-- The typed query of the same name: its answer is queued, if there is room, and no flag is set.
unfoldable pub serve_typed : Bool → Bool → ℕ → System → System
unfolding engine_shutdown
serve_typed shutdown_on_request queued i y =
    let outcome = engine_shutdown (λ s. s) shutdown_on_request "" y.stage in
    let s = y.socket i in
    set_socket i
      (record s { outbound = if queued then s.outbound ++ outcome.0.success ∷ [] else s.outbound })
      (record y { stage = outcome.1; asked = y.asked || outcome.0.success })

-- The end of the connection, at whatever its reader was; its number is free for another.
unfoldable pub hang_up : ℕ → System → System
unfolding mark_answered
hang_up i y =
    let s = y.socket i in
    let y' = set_socket i new_socket y in if s.flush then mark_answered y' else y'

-- Another task queues a frame for the module.
unfoldable pub push_frame : ℕ → System → System
push_frame i y =
    let s = y.socket i in set_socket i (record s { outbound = s.outbound ++ false ∷ [] }) y

-- The tasks of all connections, in any order. The engine's flag may change between two queries.
pub data Step : System → System → Type 0 where
  takes : (i : ℕ) (y : System) → (y.socket i).reader ≡ reading → Step y (take_query i y)
  serves :
      (shutdown_on_request asks : Bool) (i : ℕ) (w : Bool) (y : System)
      → (y.socket i).reader ≡ serving w
      → Step y (serve shutdown_on_request asks i w y)
  looks :
      (i : ℕ) (w a : Bool) (y : System)
      → (y.socket i).reader ≡ served w a
      → Step y (look_again i w a y)
  queues :
      (queued : Bool) (i : ℕ) (r a : Bool) (y : System)
      → (y.socket i).reader ≡ answering r a
      → Step y (queue_answer queued i r a y)
  arms :
      (i : ℕ) (r queued : Bool) (y : System)
      → (y.socket i).reader ≡ arming r queued
      → Step y (arm i r queued y)
  writes :
      (i : ℕ) (frame : Bool) (rest : List Bool) (y : System)
      → (y.socket i).outbound ≡ frame ∷ rest
      → (y.socket i).writes ≡ true
      → Step y (write_frame i frame rest y)
  fails : (i : ℕ) (y : System) → Step y (fail_write i y)
  types :
      (shutdown_on_request queued : Bool) (i : ℕ) (y : System)
      → (y.socket i).reader ≡ reading
      → Step y (serve_typed shutdown_on_request queued i y)
  hangs_up : (i : ℕ) (y : System) → Step y (hang_up i y)
  pushes : (i : ℕ) (y : System) → Step y (push_frame i y)

pub data Run : System → System → Type 0 where
  here : (y : System) → Run y y
  then_step : {x y z : System} → Run x y → Step y z → Run x z

abbrev pub new_system : System
new_system = record { stage = idle; asked = false; socket = λ i. new_socket }
