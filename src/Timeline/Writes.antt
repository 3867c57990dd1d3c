-- ===== src/Timeline/Writes.antt =====
-- What the terminal write of src/database.rs does to the row it is for, and to the others.
use cockatiel_engine_rs.Timeline.Outcome
use cockatiel_engine_rs.Timeline.Outcome.{
  status, PipelineOutcome, write_terminal_outcome, update_row, PipelineResult, nothing_to_write,
  is_complete,
}
use cockatiel_engine_rs.Shared.{
  ℕ, String, ◌≡◌, refl, false, ◌&&◌, eq_iff, some, arith, if◌then◌else◌, ◌==◌, lookup,
  lookup-adjust, string_eq,
}
use cockatiel_engine_rs.Timeline.{Table, is_audited, Row}

-- A row that the terminal write finds is given the status and the error of the outcome.
pub status-written :
    (now : ℕ) (u : String) (o : PipelineOutcome) (r : PipelineResult) (t : Table) (row : Row)
    (s : String)
    → status o ≡ some s
    → lookup u t ≡ some row
    → is_audited u t ≡ false
    → lookup u (write_terminal_outcome now u o r t) ≡ some (update_row now o r row)
unfolding write_terminal_outcome nothing_to_write is_audited
status-written now u o r t row s st h free = ground (
  arith,
  lookup-adjust u u
      (λ row.
        if is_complete o && row.pipeline_status == "audit" then row else update_row now o r row)
      t,
  eq_iff u u,
)

pub other-written :
    (now : ℕ) (u j : String) (o : PipelineOutcome) (r : PipelineResult) (t : Table)
    → (u == j) ≡ false
    → lookup j (write_terminal_outcome now u o r t) ≡ lookup j t
unfolding write_terminal_outcome
other-written now u j o r t h = ground (
  arith,
  lookup-adjust u j
      (λ row.
        if is_complete o && row.pipeline_status == "audit" then row else update_row now o r row)
      t,
)

pub status-update_row :
    (now : ℕ) (o : PipelineOutcome) (r : PipelineResult) (row : Row) (s : String)
    → status o ≡ some s
    → (update_row now o r row).pipeline_status ≡ s
unfolding update_row
status-update_row now o r row s st = rw st refl

-- No outcome puts a row back in the queue.
pub status-not_queued :
    (o : PipelineOutcome) (s : String) → status o ≡ some s → (s == "queued") ≡ false
unfolding status
status-not_queued o s h = by_outcome o h
  where
    is_not : (x : String) → (x == "queued") ≡ false → some x ≡ some s → (s == "queued") ≡ false
    is_not x k h = ground arith

    by_outcome : (o : PipelineOutcome) → status o ≡ some s → (s == "queued") ≡ false
    by_outcome Outcome.complete h = is_not "complete" refl h
    by_outcome (Outcome.failed e) h = is_not "failed" refl h
    by_outcome (Outcome.dropped e) h = is_not "dropped" refl h
    by_outcome (Outcome.audit e) h = is_not "audit" refl h
    by_outcome Outcome.audit_held h = cc
