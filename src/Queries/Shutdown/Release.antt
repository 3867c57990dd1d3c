-- ===== src/Queries/Shutdown/Release.antt =====
-- When the exit of src/queries.rs's shutdown is released, as the tasks of src/main.rs stand to each other.
use cockatiel_engine_rs.Shared.{ℕ, ◌≡◌, refl, Bool, true, false, not, List, [], ◌∷◌, ◌++◌, arith}
use cockatiel_engine_rs.Queries.Shutdown.{
  requested, answered, is_requested, Socket, System, engine_shutdown, take_query, serve, look_again,
  queue_answer, mark_answered, arm, write_frame, put,
}

put-same : (i : ℕ) (s : Socket) (sockets : ℕ → Socket) → put i s sockets i ≡ s
unfolding put
put-same i s sockets = ground arith

-- The reader of connection `i` answers a request that the engine accepts, from before the query to the channel.
abbrev pub answer_shutdown : ℕ → System → System
answer_shutdown i y =
    let w = is_requested y.stage in
    queue_answer true i (not w) true (look_again i w true (serve true true i w (take_query i y)))

abbrev pub armed : ℕ → System → System
armed i y = arm i (not (is_requested y.stage)) true (answer_shutdown i y)

-- On a connection whose channel is empty when the first request arrives, the exit waits until the answer is
-- written, if no other task comes between: then that write releases it.
pub arm-empty_channel :
    (i : ℕ) (y : System)
    → is_requested y.stage ≡ false
    → (y.socket i).outbound ≡ []
    → ((armed i y).stage ≡ requested)
      × (((armed i y).socket i).outbound ≡ true ∷ [])
      × ((write_frame i true [] (armed i y)).stage ≡ answered)
      × (((write_frame i true [] (armed i y)).socket i).written ≡ true ∷ (y.socket i).written)
unfolding arm write_frame mark_answered queue_answer look_again serve take_query engine_shutdown
arm-empty_channel i y first empty = simp (put-same, first, empty) (refl, refl, refl, refl)

-- The same steps with the writer before the reader's last one.
abbrev pub overtaken : ℕ → System → System
overtaken i y =
    arm i (not (is_requested y.stage)) true (write_frame i true [] (answer_shutdown i y))

-- Where the writer is faster than the reader, the first request is answered and the exit is not released: the flag is left
-- set on an empty channel.
pub write_frame-overtaken :
    (i : ℕ) (y : System)
    → is_requested y.stage ≡ false
    → (y.socket i).outbound ≡ []
    → (y.socket i).flush ≡ false
    → (((answer_shutdown i y).socket i).outbound ≡ true ∷ [])
      × ((overtaken i y).stage ≡ requested)
      × (((overtaken i y).socket i).written ≡ true ∷ (y.socket i).written)
      × (((overtaken i y).socket i).flush ≡ true)
      × (((overtaken i y).socket i).outbound ≡ [])
unfolding arm write_frame mark_answered queue_answer look_again serve take_query engine_shutdown
write_frame-overtaken i y first empty unset =
    simp (put-same, first, empty, unset) (refl, refl, refl, refl, refl)

-- On a connection that has other frames in its channel when the first request arrives, the next of them that is written
-- after the flag is set releases the exit, while the answer is still in the channel.
pub arm-busy_channel :
    (i : ℕ) (y : System) (frame : Bool) (older : List Bool)
    → is_requested y.stage ≡ false
    → (y.socket i).outbound ≡ frame ∷ older
    → (((armed i y).socket i).outbound ≡ frame ∷ older ++ true ∷ [])
      × ((write_frame i frame (older ++ true ∷ []) (armed i y)).stage ≡ answered)
      × (((write_frame i frame (older ++ true ∷ []) (armed i y)).socket i).outbound
          ≡ older ++ true ∷ [])
      × (((write_frame i frame (older ++ true ∷ []) (armed i y)).socket i).written
          ≡ frame ∷ (y.socket i).written)
unfolding arm write_frame mark_answered queue_answer look_again serve take_query engine_shutdown
arm-busy_channel i y frame older first busy = simp (put-same, first, busy) (refl, refl, refl, refl)
