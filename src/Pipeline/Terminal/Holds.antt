-- ===== src/Pipeline/Terminal/Holds.antt =====
-- The audit hold of src/pipeline.rs and src/database.rs: no terminal path publishes, fails or drops a
-- message that an operator holds, and a message that is not held ends as it should.
use cockatiel_engine_rs.Timeline.Outcome
use cockatiel_engine_rs.Shared.{
  ℕ, ◌+◌, String, ◌≡◌, refl, ◌∙◌, Bool, true, false, eq_iff, Option, none, some, arith,
  if◌then◌else◌, ◌==◌, is_some, map_or, lookup, lookup-erase, string_eq,
}
use cockatiel_engine_rs.Pipeline.State.{
  ok, err, World, Engine, M, pure, ◌>>=◌, and_then, Result, db_failed,
}
use cockatiel_engine_rs.Timeline.Outcome.{
  write_terminal_outcome, PipelineOutcome, nothing_to_write, PipelineResult, is_complete, status,
  update_row,
}
use cockatiel_engine_rs.Pipeline.Terminal.{
  mark_complete, preserve_audit_hold, mark_failed, mark_dropped, take_result, finish, drop_taken,
  result_snapshot,
}
use cockatiel_engine_rs.Pipeline.Ack.{has_pending, ack}
use cockatiel_engine_rs.Timeline.{is_audited, Row}
use cockatiel_engine_rs.Pipeline.Terminal.Cases.{
  preserve_audit_hold_cases, ending_cases, finished, tick, taken,
}
use cockatiel_engine_rs.Pipeline.Progress.Terminal.{is_audited-update}
use cockatiel_engine_rs.Timeline.Writes.{status-written, status-update_row, other-written}

-- The row is held as before, and the engine still has the message and what modules owe it.
abbrev pub Kept : String → Engine → Engine → Type 0
Kept u e e' =
    (is_audited u e'.rows ≡ true)
    × (e'.pipeline_states ≡ e.pipeline_states)
    × (e'.ack_tracker ≡ e.ack_tracker)

module _ (w : World) (u : String) (e : Engine) where
  held-Kept :
      (o : PipelineOutcome)
      → is_audited u e.rows ≡ true
      → Kept u e ((preserve_audit_hold w u >>= λ held. if held then pure tt else finish w u o) e).1
  held-Kept o h =
      preserve_audit_hold_cases w u e
        (λ r. Kept u e (and_then r (λ held. if held then pure tt else finish w u o)).1)
        (λ calls. (h, refl, refl))
        (λ calls _. (
          is_audited-update (w.epoch_ms (e.calls + 1)) u (result_snapshot u e) e.rows ∙ h,
          refl,
          refl,
        ))
        (λ free. cc)

  -- If the row of message `u` is held for audit, then completing, failing or dropping `u` leaves it held,
  -- and leaves its state and its pending acks in place, also where a statement of the database
  -- fails on the way.
  pub audit_hold-Kept :
      (reason : String)
      → is_audited u e.rows ≡ true
      → Kept u e (mark_complete w u e).1
        × Kept u e (mark_failed w u reason e).1
        × Kept u e (mark_dropped w u reason e).1
  unfolding mark_complete mark_failed mark_dropped
  audit_hold-Kept reason h = (
    held-Kept Outcome.complete h,
    held-Kept (Outcome.failed reason) h,
    preserve_audit_hold_cases w u e (λ r. Kept u e (and_then r after_hold).1)
        (λ calls. (h, refl, refl))
        (λ calls _. (
          is_audited-update (w.epoch_ms (e.calls + 1)) u (result_snapshot u e) e.rows ∙ h,
          refl,
          refl,
        ))
        (λ free. cc),
  )
    where
      after_hold : Bool → M (Unit {0})
      after_hold held =
          if held then pure tt else (do result ← take_result u; drop_taken w u reason result)

-- What ends for `u`: its state and its acks are gone, and the row has the new status; the rows, states
-- and acks of the other messages are as before.
pub record Ended (u : String) (s : String) (e e' : Engine) : Type 0 where
  pub gone : lookup u e'.pipeline_states ≡ none
  pub owed : has_pending u e'.ack_tracker ≡ false
  pub status : map_or (lookup u e'.rows) "" (λ row. row.pipeline_status) ≡ s
  pub rows : (j : String) → (u == j) ≡ false → lookup j e'.rows ≡ lookup j e.rows
  pub states :
      (j : String) → (u == j) ≡ false → lookup j e'.pipeline_states ≡ lookup j e.pipeline_states
  pub acks : (j : String) → (u == j) ≡ false → lookup j e'.ack_tracker ≡ lookup j e.ack_tracker

finished-Ended :
    (w : World) (u : String) (o : PipelineOutcome) (s : String) (calls : ℕ) (e : Engine)
    → status o ≡ some s
    → is_audited u e.rows ≡ false
    → is_some (lookup u e.rows) ≡ true
    → Ended u s e (finished w u o calls (tick e))
unfolding ack has_pending
finished-Ended w u o s calls e st free there = record {
  gone = ground (arith, lookup-erase u u e.pipeline_states, eq_iff u u);
  owed = ground (arith, lookup-erase u u e.ack_tracker, eq_iff u u);
  status = written (lookup u e.rows) refl;
  rows = λ j h. other-written (w.epoch_ms (e.calls + 1)) u j o (taken u (tick e)) e.rows h;
  states = λ j h. lookup-erase u j e.pipeline_states ∙ rw h refl;
  acks = λ j h. lookup-erase u j e.ack_tracker ∙ rw h refl;
}
  where
    written :
        (found : Option Row)
        → lookup u e.rows ≡ found
        → map_or
            (lookup u
              (write_terminal_outcome (w.epoch_ms (e.calls + 1)) u o (taken u (tick e)) e.rows))
            ""
            (λ row. row.pipeline_status)
          ≡ s
    written none h = absurd (ground (arith, h, there))
    written (some row) h =
        rw (status-written (w.epoch_ms (e.calls + 1)) u o (taken u (tick e)) e.rows row s st h free)
          (status-update_row (w.epoch_ms (e.calls + 1)) o (taken u (tick e)) row s st)

-- Of a result, its engine has `P` where the run ends well, and otherwise the database failed.
abbrev pub OkThen : {A : Type 0} → (Engine → Type 0) → Result A × Engine → Type 0
OkThen P (ok a, e) = P e
OkThen P (err x, e) = x ≡ db_failed

-- If message `u` has a row that is not held for audit, then completing it makes the row `complete` and
-- failing it makes the row `failed`; its state and its acks are gone, and the rows, states and acks
-- of all other messages are as before; unless a statement of the database failed, which is then
-- the error.
pub mark-Ended :
    (w : World) (u reason : String) (e : Engine)
    → is_audited u e.rows ≡ false
    → is_some (lookup u e.rows) ≡ true
    → OkThen (Ended u "complete" e) (mark_complete w u e)
      × OkThen (Ended u "failed" e) (mark_failed w u reason e)
unfolding mark_complete mark_failed status
mark-Ended w u reason e free there =
    (ends Outcome.complete "complete" refl, ends (Outcome.failed reason) "failed" refl)
  where
    ends :
        (o : PipelineOutcome) (s : String)
        → status o ≡ some s
        → OkThen
            (Ended u s e)
            ((preserve_audit_hold w u >>= λ held. if held then pure tt else finish w u o) e)
    ends o s st =
        ending_cases w u e o (OkThen (Ended u s e)) (λ _ _. refl) (λ _ h. cc)
          (λ calls _. finished-Ended w u o s calls e st free there)
