-- ===== src/Pipeline/Frame/Ingest.antt =====
-- Inserting, recovering or replaying one message of src/pipeline.rs leaves all others alone.
use cockatiel_engine_rs.Pipeline.Pause
use cockatiel_engine_rs.Shared.{
  ℕ, String, ◌≡◌, refl, subst, ◌∙◌, inl, inr, false, Option, some, [], arith, Bool-cases,
  Option-cases, ◌==◌, is_some, or_default, lookup, insert, lookup-insert, lookup-adjust, string_eq,
}
use cockatiel_engine_rs.Pipeline.State.{World, ◌>>=◌, pure, Engine}
use cockatiel_engine_rs.Pipeline.Ingest.{
  insert_row, insert_and_start, PipelineMessage, write_rows, fresh_state,
}
use cockatiel_engine_rs.Timeline.{Table, insert_event, set_command, set_user_uuid, Row, queued_row}
use cockatiel_engine_rs.Pipeline.Sweep.{replay_hold}
use cockatiel_engine_rs.Pipeline.Frame.{
  Local, and_then-Local, map_or-Local, if-Local, Elsewhere-refl, after-Local,
}
use cockatiel_engine_rs.Pipeline.Pause.{HoldPoint}
use cockatiel_engine_rs.Pipeline.Terminal.{run_statement}
use cockatiel_engine_rs.Pipeline.Frame.Dispatch.{
  broadcast_pre_process-Local, start_in_process-Local, start_post_process-Local,
}
use cockatiel_engine_rs.Pipeline.Frame.Steps.{run_statement-Local}
use cockatiel_engine_rs.Pipeline.Dispatch.{broadcast_pre_process}
use cockatiel_engine_rs.Wire.{Bytes}

insert_event-other :
    (u : String) (event_type : ℕ) (platform : String) (raw_data : Bytes)
    (raw_message command flags : String) (t t' : Table) (j : String)
    → insert_event u event_type platform raw_data raw_message command flags t ≡ some t'
    → (u == j) ≡ false
    → lookup j t' ≡ lookup j t
unfolding insert_event
insert_event-other u event_type platform raw_data raw_message command flags t t' j h k =
    elim (Bool-cases (is_some (lookup u t))) [
      | inl q ↦ absurd (ground (arith, h, q))
      | inr q ↦
          changed (queued_row event_type platform raw_data raw_message command flags)
            (ground (arith, h, q))
    ]
  where
    changed : (r : Row) → insert u r t ≡ t' → lookup j t' ≡ lookup j t
    changed r p = subst (λ x. lookup j x ≡ lookup j t) p (lookup-insert u j r t ∙ rw k refl)

module _ (w : World) where
  write-Local :
      (u : String) (f : Table → Table)
      → ((t : Table) (j : String) → (u == j) ≡ false → lookup j (f t) ≡ lookup j t)
      → Local u (run_statement w >>= λ _. write_rows f)
  write-Local u f kept e =
      and_then-Local u e (run_statement w e) (λ _. write_rows f) (run_statement-Local w u e)
        (λ _ e1 j h. (kept e1.rows j h, refl, refl, refl))

  insert_row-Local : (msg : PipelineMessage) → Local msg.uuid7 (insert_row w msg)
  unfolding insert_row
  insert_row-Local msg e =
      and_then-Local msg.uuid7 e (run_statement w e) _ (run_statement-Local w msg.uuid7 e) λ _ e1.
        elim (Option-cases (inserted e1)) [
          | inl h ↦ rw h (Elsewhere-refl msg.uuid7 e1)
          | inr (t, h) ↦ rw h (λ j k. (
            insert_event-other msg.uuid7 msg.event_type msg.platform [] msg.raw_message
                (or_default msg.command "") (or_default msg.flags "{}") e1.rows t j h k,
            refl,
            refl,
            refl,
          ))
        ]
    where
      inserted : Engine → Option Table
      inserted e =
          insert_event msg.uuid7 msg.event_type msg.platform [] msg.raw_message
            (or_default msg.command "") (or_default msg.flags "{}") e.rows

  pub insert_and_start-Local : (msg : PipelineMessage) → Local msg.uuid7 (insert_and_start w msg)
  unfolding insert_and_start set_command set_user_uuid
  insert_and_start-Local msg e =
      let u = msg.uuid7 in
      and_then-Local u e (insert_row w msg e) _ (insert_row-Local msg e) λ _ e1.
        and_then-Local u e1 _ _
          (map_or-Local u msg.command (pure tt)
            (λ c. run_statement w >>= λ _. write_rows (set_command u c)) (Elsewhere-refl u)
            (λ c.
              write-Local u (set_command u c)
                (λ t j h. lookup-adjust u j (λ r. record r { command = c }) t ∙ rw h refl))
            e1)
          λ _ e2.
            and_then-Local u e2 _ _
              (if-Local u (msg.user_uuid7 == "") (pure tt)
                (run_statement w >>= λ _. write_rows (set_user_uuid u msg.user_uuid7))
                (Elsewhere-refl u)
                (write-Local u (set_user_uuid u msg.user_uuid7) (λ t j h.
                  lookup-adjust u j
                    (λ r. record r { user_uuid7 = some (or_default r.user_uuid7 msg.user_uuid7) }) t
                  ∙ rw h refl))
                e2)
              λ _ e3.
                after-Local u e3
                  (record e3 { pipeline_states = insert u (fresh_state w msg) e3.pipeline_states })
                  (broadcast_pre_process w u)
                  (λ j h. (
                    refl,
                    lookup-insert u j (fresh_state w msg) e3.pipeline_states ∙ rw h refl,
                    refl,
                    refl,
                  ))
                  (broadcast_pre_process-Local w u)

  pub replay_hold-Local : (u : String) (point : HoldPoint) → Local u (replay_hold w u point)
  unfolding replay_hold
  replay_hold-Local u Pause.entry = broadcast_pre_process-Local w u
  replay_hold-Local u Pause.in_process = start_in_process-Local w u
  replay_hold-Local u Pause.post_process = start_post_process-Local w u
