-- ===== src/Pipeline/Terminal.antt =====
-- How a message of src/pipeline.rs ends: the accumulated result, the one write that lands it, the
-- audit hold that stops every terminal path, and `mark_complete`, `mark_failed`, `mark_dropped`.
pub mod Cases
pub mod Holds
use cockatiel_engine_rs.Shared.{
  String, Bool, true, false, Option, none, some, if◌then◌else◌, is_empty, or_default, map_or,
  lookup, erase, string_eq,
}
use cockatiel_engine_rs.Timeline.{is_audited}
use cockatiel_engine_rs.Timeline.Outcome
use cockatiel_engine_rs.Timeline.Outcome.{
  PipelineOutcome, PipelineResult, default_result, nothing_to_write, write_terminal_outcome,
}
use cockatiel_engine_rs.Pipeline.Ack.{ack}
use cockatiel_engine_rs.Pipeline.State.{
  World, Engine, PipelineState, db_failed, M, pure, throw, ◌>>=◌, ◌>>◌, gets, modify, ask,
}

unfoldable pub result_of : PipelineState → PipelineResult
result_of s = record {
  processed_message = some s.processed_message;
  pre_process_completed_at = s.pre_process_completed_at;
  in_process_completed_at = s.in_process_completed_at;
  audio = if is_empty s.audio then none else some (s.audio_type, s.audio);
  audio_type_markers = s.audio_type_markers;
}

unfoldable pub result_snapshot : String → Engine → PipelineResult
unfolding result_of
result_snapshot uuid7 e = map_or (lookup uuid7 e.pipeline_states) default_result result_of

-- `states.remove(uuid7)`.
unfoldable pub take_result : String → M (Option PipelineResult)
unfolding result_of
take_result uuid7 = do
  taken ← gets (λ e. lookup uuid7 e.pipeline_states)
  modify (λ e. record e { pipeline_states = erase uuid7 e.pipeline_states })
  pure (map_or taken none (λ s. some (result_of s)))

unfoldable pub clear_acks : String → M (Unit {0})
clear_acks uuid7 = modify (λ e. record e { ack_tracker = (ack uuid7 e.ack_tracker).1 })

module _ (w : World) where
  -- A statement that the database runs, or refuses with an error.
  unfoldable pub run_statement : M (Unit {0})
  run_statement = do good ← ask w.runs; if good then pure tt else throw db_failed

  unfoldable pub read_audited : String → M Bool
  unfolding run_statement
  read_audited uuid7 = do run_statement; gets (λ e. is_audited uuid7 e.rows)

  unfoldable pub write_outcome : String → PipelineOutcome → PipelineResult → M (Unit {0})
  unfolding run_statement
  write_outcome uuid7 outcome result = do
    now ← ask w.epoch_ms
    if nothing_to_write outcome result then pure tt else run_statement
    modify (λ e. record e { rows = write_terminal_outcome now uuid7 outcome result e.rows })

  unfoldable pub preserve_audit_hold : String → M Bool
  unfolding read_audited write_outcome result_snapshot
  preserve_audit_hold uuid7 = do
    audited ← read_audited uuid7
    if audited
        then (do
          held ← gets (result_snapshot uuid7)
          write_outcome uuid7 Outcome.audit_held held
          pure true)
        else pure false

  -- What the completion and the failure share: the result is taken, written, and the acks go.
  unfoldable pub finish : String → PipelineOutcome → M (Unit {0})
  unfolding take_result write_outcome clear_acks
  finish uuid7 outcome = do
    result ← take_result uuid7
    write_outcome uuid7 outcome (or_default result default_result)
    clear_acks uuid7

  unfoldable pub mark_complete : String → M (Unit {0})
  unfolding preserve_audit_hold finish
  mark_complete uuid7 = do
    held ← preserve_audit_hold uuid7
    if held then pure tt else finish uuid7 Outcome.complete

  unfoldable pub mark_failed : String → String → M (Unit {0})
  unfolding preserve_audit_hold finish
  mark_failed uuid7 error = do
    held ← preserve_audit_hold uuid7
    if held then pure tt else finish uuid7 (Outcome.failed error)

  unfoldable pub drop_taken : String → String → Option PipelineResult → M (Unit {0})
  unfolding write_outcome clear_acks
  drop_taken uuid7 reason none = pure tt
  drop_taken uuid7 reason (some result) = do
    write_outcome uuid7 (Outcome.dropped reason) result
    clear_acks uuid7

  unfoldable pub mark_dropped : String → String → M (Unit {0})
  unfolding preserve_audit_hold take_result drop_taken
  mark_dropped uuid7 reason = do
    held ← preserve_audit_hold uuid7
    if held then pure tt else (do result ← take_result uuid7; drop_taken uuid7 reason result)
