-- ===== src/Pipeline/Progress.antt =====
-- What "not stuck" means for a message of src/pipeline.rs.
pub mod Terminal
pub mod Stages
pub mod Entry
pub mod Replies
pub mod Messages
pub mod Ingest
pub mod NoneStuck
use cockatiel_engine_rs.Shared.{
  String, ◌≡◌, Bool, true, false, ◌||◌, not, is_some, lookup, string_eq,
}
use cockatiel_engine_rs.Timeline.{is_audited}
use cockatiel_engine_rs.Pipeline.Ack.{has_pending}
use cockatiel_engine_rs.Pipeline.State.{Engine, Result, ok, err, db_failed, out_of_fuel}

-- A module still owes an answer, or a pause holds the dispatch, or the message has left the
-- pipeline, or its row is held for audit.
unfoldable pub settled : String → Engine → Bool
settled u e =
    has_pending u e.ack_tracker
    || is_some (lookup u e.pause_state.held)
    || not (is_some (lookup u e.pipeline_states))
    || is_audited u e.rows

-- A run either ends with the message not stuck, or was cut off by a statement that the database
-- refused. (Running out of fuel would be neither.)
unfoldable pub ends : {A : Type 0} → String → Result A × Engine → Bool
unfolding settled
ends u (ok a, e) = settled u e
ends u (err db_failed, e) = true
ends u (err out_of_fuel, e) = false

abbrev pub Ends : {A : Type 0} → String → Result A × Engine → Type 0
Ends u r = ends u r ≡ true
