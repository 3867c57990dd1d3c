-- ===== src/Queries/Shutdown/Asked.antt =====
-- The shutdown of src/queries.rs in every order of the tasks: nobody's is released, and none is taken back to the
-- beginning.
use cockatiel_engine_rs.Shared.{
  ℕ, ◌≡◌, refl, sym, Bool, true, false, ◌&&◌, not, arith, nat_beq, if◌then◌else◌,
}
use cockatiel_engine_rs.Queries.Shutdown.{
  ShutdownStage, idle, requested, answered, is_requested, Reader, answering, arming, Socket, System,
  engine_shutdown, take_query, serve, look_again, queue_answer, mark_answered, arm, write_frame,
  fail_write, serve_typed, hang_up, push_frame, Step, takes, serves, looks, queues, arms, writes,
  fails, types, hangs_up, pushes, Run, here, then_step, new_system, set_socket, new_socket, put,
}

abbrev pub is_idle : ShutdownStage → Bool
is_idle idle = true
is_idle _ = false

abbrev raised : Reader → Bool
raised (answering r a) = r
raised (arming r q) = r
raised _ = false

abbrev is_quiet : Socket → Bool
is_quiet s = not (s.flush) && not (raised s.reader)

-- What holds as long as no request was accepted.
abbrev pub IsUnasked : System → Type 0
IsUnasked y = (is_idle y.stage ≡ true) × ((i : ℕ) → is_quiet (y.socket i) ≡ true)

abbrev Unless : System → Type 0
Unless y = y.asked ≡ false → IsUnasked y

choose-quiet :
    (b : Bool) (s t : Socket)
    → is_quiet s ≡ true
    → is_quiet t ≡ true
    → is_quiet (if b then s else t) ≡ true
choose-quiet true s t qs qt = qs
choose-quiet false s t qs qt = qt

set_socket-quiet :
    (i : ℕ) (s : Socket) (y : System)
    → is_quiet s ≡ true
    → ((j : ℕ) → is_quiet (y.socket j) ≡ true)
    → (j : ℕ) → is_quiet ((set_socket i s y).socket j) ≡ true
unfolding put
set_socket-quiet i s y quiet all_quiet j =
    choose-quiet (nat_beq i j) s (y.socket j) quiet (all_quiet j)

quiet-flush : (s : Socket) → is_quiet s ≡ true → s.flush ≡ false
quiet-flush s quiet = ground arith

quiet-raised : (s : Socket) (r : Reader) → s.reader ≡ r → is_quiet s ≡ true → raised r ≡ false
quiet-raised s r at quiet = rw (sym at) (ground arith)

idle-requested : (s : ShutdownStage) → is_idle s ≡ true → is_requested s ≡ false
idle-requested idle yet = refl
idle-requested requested yet = ground arith
idle-requested answered yet = refl

release-asked :
    (b : Bool) (y : System) → (if b then mark_answered y else y).asked ≡ false → y.asked ≡ false
unfolding mark_answered
release-asked true y quiet = quiet
release-asked false y quiet = quiet

release-IsUnasked :
    (b : Bool) (y : System) → b ≡ false → IsUnasked y → IsUnasked (if b then mark_answered y else y)
release-IsUnasked true y off unasked = absurd (ground arith)
release-IsUnasked false y off unasked = unasked

Step-Unless : {x y : System} → Step x y → Unless x → Unless y
unfolding take_query serve look_again queue_answer arm write_frame fail_write serve_typed hang_up
    push_frame engine_shutdown
Step-Unless (takes i y at) before quiet =
    let (idle_yet, all) = before quiet in
    let flush = quiet-flush (y.socket i) (all i) in
    (idle_yet, set_socket-quiet i _ y (rw flush refl) all)
Step-Unless (serves true true i w y at) before quiet = absurd (ground arith)
Step-Unless (serves false true i w y at) before quiet =
    let (idle_yet, all) = before (ground arith) in
    let flush = quiet-flush (y.socket i) (all i) in
    (idle_yet, set_socket-quiet i _ y (rw flush refl) all)
Step-Unless (serves b false i w y at) before quiet =
    let (idle_yet, all) = before quiet in
    let flush = quiet-flush (y.socket i) (all i) in
    (idle_yet, set_socket-quiet i _ y (rw flush refl) all)
Step-Unless (looks i w a y at) before quiet =
    let (idle_yet, all) = before quiet in
    let flush = quiet-flush (y.socket i) (all i) in
    let asked = idle-requested y.stage idle_yet in
    (idle_yet, set_socket-quiet i _ y (ground arith) all)
Step-Unless (queues queued i r a y at) before quiet =
    let (idle_yet, all) = before quiet in
    let flush = quiet-flush (y.socket i) (all i) in
    let low = quiet-raised (y.socket i) (answering r a) at (all i) in
    (idle_yet, set_socket-quiet i _ y (ground arith) all)
Step-Unless (arms i false queued y at) before quiet =
    let (idle_yet, all) = before quiet in (idle_yet, set_socket-quiet i _ y refl all)
Step-Unless (arms i true queued y at) before quiet =
    let (idle_yet, all) = before (release-asked (not queued) _ quiet) in
    let low = quiet-raised (y.socket i) (arming true queued) at (all i) in absurd (ground arith)
Step-Unless (writes i frame rest y at running) before quiet =
    let (idle_yet, all) = before (release-asked (y.socket i).flush _ quiet) in
    let flush = quiet-flush (y.socket i) (all i) in
    release-IsUnasked (y.socket i).flush _ flush
      (idle_yet, set_socket-quiet i _ y (ground (arith, all i)) all)
Step-Unless (fails i y) before quiet =
    let (idle_yet, all) = before quiet in (idle_yet, set_socket-quiet i _ y (all i) all)
Step-Unless (types true queued i y at) before quiet = absurd (ground arith)
Step-Unless (types false queued i y at) before quiet =
    let (idle_yet, all) = before (ground arith) in (idle_yet, set_socket-quiet i _ y (all i) all)
Step-Unless (hangs_up i y) before quiet =
    let (idle_yet, all) = before (release-asked (y.socket i).flush _ quiet) in
    release-IsUnasked (y.socket i).flush _ (quiet-flush (y.socket i) (all i))
      (idle_yet, set_socket-quiet i new_socket y refl all)
Step-Unless (pushes i y) before quiet =
    let (idle_yet, all) = before quiet in (idle_yet, set_socket-quiet i _ y (all i) all)

Run-Unless : {x y : System} → Run x y → Unless x → Unless y
Run-Unless (here y) before = before
Run-Unless (then_step run step) before = Step-Unless step (Run-Unless run before)

-- In every order of the tasks of all connections, an engine that has accepted no request for a shutdown has not
-- left the first stage, and on no connection a flag is set that would release its exit.
pub Run-IsUnasked : (y : System) → Run new_system y → y.asked ≡ false → IsUnasked y
Run-IsUnasked y run = Run-Unless run (λ unasked. (refl, λ i. refl))

release-past :
    (b : Bool) (y : System)
    → is_idle y.stage ≡ false
    → is_idle (if b then mark_answered y else y).stage ≡ false
unfolding mark_answered
release-past true y past = refl
release-past false y past = past

Step-past : {x y : System} → Step x y → is_idle x.stage ≡ false → is_idle y.stage ≡ false
unfolding take_query serve look_again queue_answer arm write_frame fail_write serve_typed hang_up
    push_frame engine_shutdown
Step-past (takes i y at) past = past
Step-past (serves true true i w y at) past = refl
Step-past (serves false true i w y at) past = past
Step-past (serves b false i w y at) past = past
Step-past (looks i w a y at) past = past
Step-past (queues queued i r a y at) past = past
Step-past (arms i r queued y at) past = release-past (r && not queued) _ past
Step-past (writes i frame rest y at running) past = release-past (y.socket i).flush _ past
Step-past (fails i y) past = past
Step-past (types true queued i y at) past = refl
Step-past (types false queued i y at) past = past
Step-past (hangs_up i y) past = release-past (y.socket i).flush _ past
Step-past (pushes i y) past = past

-- A request that was accepted is not taken back: once the stage is past the first, no order of the tasks brings it
-- back there.
pub Run-past : {x y : System} → Run x y → is_idle x.stage ≡ false → is_idle y.stage ≡ false
Run-past (here y) past = past
Run-past (then_step run step) past = Step-past step (Run-past run past)
