-- ===== src/Pipeline/Pause.antt =====
-- The pause and the dependency block of src/pipeline.rs: `PauseState` and the methods that read
-- and change it alone. (`resume` is in Pipeline/Resume.)
pub mod Laws
pub mod Order
use cockatiel_engine_rs.Shared.{
  ℕ, String, Bool, true, false, ◌||◌, Option, none, some, [], ltb, if◌then◌else◌, Map, is_some,
  map_or, insert_in_order,
}

pub data HoldPoint : Type 0 where
  entry in_process post_process : HoldPoint

pub data BlockedReason : Type 0 where
  user_db timeline_db : BlockedReason

unfoldable pub as_str : BlockedReason → String
as_str user_db = "user_db"
as_str timeline_db = "timeline_db"

unfoldable pub priority : BlockedReason → ℕ
priority timeline_db = 2
priority user_db = 1

-- `held` is a `BTreeMap`: its list ascends in the uuid7, which is the order of the replay.
pub record PauseState : Type 0 where
  pub paused : Bool
  pub held : Map String HoldPoint
  pub blocked : Option BlockedReason
  pub resume_when_unblocked : Bool

abbrev pub default_pause : PauseState
default_pause = record { paused = false; held = []; blocked = none; resume_when_unblocked = false }

unfoldable pub is_gated : PauseState → Bool
is_gated p = p.paused || is_some p.blocked

unfoldable pub set_block : BlockedReason → PauseState → PauseState
unfolding priority
set_block reason p = elim p.blocked [
  | none ↦ record p { blocked = some reason }
  | some current ↦
      if ltb (priority current) (priority reason) then record p { blocked = some reason } else p
]

unfoldable pub same_reason : BlockedReason → BlockedReason → Bool
same_reason user_db user_db = true
same_reason timeline_db timeline_db = true
same_reason _ _ = false

-- The answer is whether the caller is now to resume.
unfoldable pub clear_block : BlockedReason → PauseState → Bool × PauseState
unfolding same_reason
clear_block reason p =
    if map_or p.blocked false (λ current. same_reason current reason)
    then (p.resume_when_unblocked, record p { blocked = none; resume_when_unblocked = false })
    else (false, p)

unfoldable pub defer_resume : PauseState → PauseState
defer_resume p = record p { resume_when_unblocked = true }

unfoldable pub defer_pause : PauseState → PauseState
defer_pause p = record p { resume_when_unblocked = false; paused = true }

unfoldable pub pause : PauseState → Bool × PauseState
pause p = if p.paused then (false, p) else (true, record p { paused = true })

-- `true` is HELD: the caller returns without dispatching.
unfoldable pub hold_if_gated : String → HoldPoint → PauseState → Bool × PauseState
unfolding is_gated
hold_if_gated uuid7 point p =
    if is_gated p
    then (true, record p { held = insert_in_order uuid7 point p.held })
    else (false, p)

-- The part of `resume` under the lock: the backlog is taken, and the pause is over.
unfoldable pub take_held : PauseState → (Bool × Map String HoldPoint) × PauseState
take_held p = ((p.paused, p.held), record p { held = []; paused = false })
