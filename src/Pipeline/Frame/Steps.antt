-- ===== src/Pipeline/Frame/Steps.antt =====
-- The single steps of src/pipeline.rs that concern one message.
use cockatiel_engine_rs.Timeline.Outcome
use cockatiel_engine_rs.Shared.{
  ℕ, ◌+◌, String, refl, ◌∙◌, inl, inr, Option, none, some, Bool-cases, ne_of_beq, or_default, erase,
  adjust, lookup-erase, lookup-adjust, lookup-insert_in_order, string_eq,
}
use cockatiel_engine_rs.Pipeline.State.{Engine, PipelineState, World, PipelineStage}
use cockatiel_engine_rs.Pipeline.Terminal.{
  clear_acks, take_result, mark_dropped, mark_failed, finish, mark_complete, drop_taken,
  preserve_audit_hold, read_audited, run_statement, write_outcome, result_snapshot,
}
use cockatiel_engine_rs.Pipeline.Dispatch.{enter_stage, next_index, hold}
use cockatiel_engine_rs.Pipeline.Frame.{
  Local, Elsewhere, and_then-Local, if-Local, Elsewhere-refl, Leaves,
}
use cockatiel_engine_rs.Pipeline.Ack.{ack, track}
use cockatiel_engine_rs.Timeline.Outcome.{PipelineOutcome, PipelineResult, default_result}
use cockatiel_engine_rs.Pipeline.Pause.{hold_if_gated, HoldPoint, is_gated}
use cockatiel_engine_rs.Pipeline.Terminal.Cases.{
  read_audited_cases, run_statement_cases, write_outcome_cases,
}
use cockatiel_engine_rs.Pipeline.Ack.Laws.{track_lem}
use cockatiel_engine_rs.Timeline.Writes.{other-written}

module _ (u : String) where
  pub adjust-Local :
      (f : PipelineState → PipelineState) (e : Engine)
      → Elsewhere u e (record e { pipeline_states = adjust u f e.pipeline_states })
  adjust-Local f e j h = (refl, lookup-adjust u j f e.pipeline_states ∙ rw h refl, refl, refl)

  pub erase-Local :
      (e : Engine) → Elsewhere u e (record e { pipeline_states = erase u e.pipeline_states })
  erase-Local e j h = (refl, lookup-erase u j e.pipeline_states ∙ rw h refl, refl, refl)

  pub clear_acks-Local : Local u (clear_acks u)
  unfolding clear_acks ack
  clear_acks-Local e j h = (refl, refl, lookup-erase u j e.ack_tracker ∙ rw h refl, refl)

  pub hold-Local : (point : HoldPoint) → Local u (hold u point)
  unfolding hold hold_if_gated
  hold-Local point e j h = elim (Bool-cases (is_gated e.pause_state)) [
    | inl k ↦
        rw (k, hold_if_gated)
          (refl, refl, refl, lookup-insert_in_order u j point e.pause_state.held ∙ rw h refl)
    | inr k ↦ rw (k, hold_if_gated) (refl, refl, refl, refl)
  ]

  pub track-Local :
      (now : ℕ) (stage m : String) (timeout_ms : ℕ) (e : Engine)
      → Elsewhere u e (record e { ack_tracker = track now u stage m timeout_ms e.ack_tracker })
  track-Local now stage m timeout_ms e j h =
      (refl, refl, (track_lem now u stage m timeout_ms e.ack_tracker).2 j (ne_of_beq u j h), refl)

  pub enter_stage-Local : (stage : PipelineStage) → Local u (enter_stage u stage)
  unfolding enter_stage
  enter_stage-Local stage e = adjust-Local (λ s. record s { stage = stage }) e

  pub next_index-Local : Local u (next_index u)
  unfolding next_index
  next_index-Local e =
      adjust-Local (λ s. record s { current_in_process_index = s.current_in_process_index + 1 }) e

  pub take_result-Local : Local u (take_result u)
  unfolding take_result
  take_result-Local e = erase-Local e

module _ (w : World) (u : String) where
  pub run_statement-Local : Local u (run_statement w)
  run_statement-Local e =
      run_statement_cases w e (λ r. Leaves u e r) (Elsewhere-refl u e) (Elsewhere-refl u e)

  pub read_audited-Local : Local u (read_audited w u)
  read_audited-Local e =
      read_audited_cases w e u (λ r. Leaves u e r) (Elsewhere-refl u e) (λ _. Elsewhere-refl u e)
        (λ _. Elsewhere-refl u e)

  pub write_outcome-Local :
      (o : PipelineOutcome) (r : PipelineResult) → Local u (write_outcome w u o r)
  write_outcome-Local o r e =
      write_outcome_cases w e u o r (λ x. Leaves u e x) (Elsewhere-refl u e)
        (λ calls j h. (other-written (w.epoch_ms e.calls) u j o r e.rows h, refl, refl, refl))

  pub finish-Local : (o : PipelineOutcome) → Local u (finish w u o)
  unfolding finish
  finish-Local o e = and_then-Local u e (take_result u e) _ (take_result-Local u e) λ result e1.
      and_then-Local u e1 (write_outcome w u o (or_default result default_result) e1)
        (λ _. clear_acks u) (write_outcome-Local o (or_default result default_result) e1)
        (λ _. clear_acks-Local u)

  pub preserve_audit_hold-Local : Local u (preserve_audit_hold w u)
  unfolding preserve_audit_hold
  preserve_audit_hold-Local e =
      and_then-Local u e (read_audited w u e) _ (read_audited-Local e) λ audited.
        if-Local u audited _ _
          (λ e1.
            and_then-Local u e1 (write_outcome w u Outcome.audit_held (result_snapshot u e1) e1) _
              (write_outcome-Local Outcome.audit_held (result_snapshot u e1) e1)
              (λ _. Elsewhere-refl u))
          (Elsewhere-refl u)

  pub mark_complete-Local : Local u (mark_complete w u)
  unfolding mark_complete
  mark_complete-Local e =
      and_then-Local u e (preserve_audit_hold w u e) _ (preserve_audit_hold-Local e)
        λ held. if-Local u held _ _ (Elsewhere-refl u) (finish-Local Outcome.complete)

  pub mark_failed-Local : (reason : String) → Local u (mark_failed w u reason)
  unfolding mark_failed
  mark_failed-Local reason e =
      and_then-Local u e (preserve_audit_hold w u e) _ (preserve_audit_hold-Local e)
        λ held. if-Local u held _ _ (Elsewhere-refl u) (finish-Local (Outcome.failed reason))

  drop_taken-Local :
      (reason : String) (o : Option PipelineResult) → Local u (drop_taken w u reason o)
  unfolding drop_taken
  drop_taken-Local reason none e = Elsewhere-refl u e
  drop_taken-Local reason (some r) e =
      and_then-Local u e (write_outcome w u (Outcome.dropped reason) r e) (λ _. clear_acks u)
        (write_outcome-Local (Outcome.dropped reason) r e) (λ _. clear_acks-Local u)

  pub mark_dropped-Local : (reason : String) → Local u (mark_dropped w u reason)
  unfolding mark_dropped
  mark_dropped-Local reason e =
      and_then-Local u e (preserve_audit_hold w u e) _ (preserve_audit_hold-Local e) λ held.
        if-Local u held _ _ (Elsewhere-refl u) (λ e1.
          and_then-Local u e1 (take_result u e1) _ (take_result-Local u e1)
            (drop_taken-Local reason))
