-- ===== src/Pipeline/Progress/Entry.antt =====
-- No message is stuck after `broadcast_pre_process` or `start_in_process` of src/pipeline.rs.
use cockatiel_engine_rs.Pipeline.Pause
use cockatiel_engine_rs.Shared.{
  suc, String, inl, inr, Bool, ◌||◌, not, List, arith, if◌then◌else◌, Bool-cases, Option-cases,
  length, is_empty, or_default, map_or, lookup, string_eq,
}
use cockatiel_engine_rs.Pipeline.State.{
  World, Engine, PipelineState, M, pure, ◌>>=◌, gets, and_then,
}
use cockatiel_engine_rs.Pipeline.Dispatch.{
  broadcast_pre_process, pre_fan_out, start_in_process, pre_payload,
}
use cockatiel_engine_rs.Pipeline.Progress.{ends, Ends}
use cockatiel_engine_rs.Pipeline.Progress.Stages.{
  start_in-Ends, held-settled, pending-settled, absent-settled,
}
use cockatiel_engine_rs.Commands.Routes.{command_recipients}
use cockatiel_engine_rs.Pipeline.Dispatch.Cases.{fan_out_cases, hold_cases}

module _ (w : World) (u : String) where
  -- From any state of the engine, `start_in_process` comes to an end (its calls of itself included):
  -- either a statement of the database failed on the way, or afterwards a module owes the message an
  -- answer, or a pause holds it, or it has left the pipeline, or its row is held for audit.
  pub start_in_process-Ends : (e : Engine) → Ends u (start_in_process w u e)
  unfolding start_in_process
  start_in_process-Ends e =
      start_in-Ends w u (suc (length e.config.in_process_modules)) e (ground arith, ground arith)

  pre_fan_out-Ends : (s : PipelineState) (e : Engine) → Ends u (pre_fan_out w u s e)
  unfolding pre_fan_out ends
  pre_fan_out-Ends s e =
      fan_out_cases w u "pre_process" s.user_uuid7 (pre_payload u s) recipients e
        (λ r. Ends u (and_then r after))
        λ b e' d. elim (Bool-cases (is_empty recipients || not b)) [
          | inl h ↦ rw h (start_in_process-Ends e')
          | inr h ↦ rw h (pending-settled u e' (d.pending (ground arith)))
        ]
    where
      recipients : List String
      recipients =
          or_default
            (command_recipients s.parsed_command e.command_registry e.config.pre_process_modules)
            e.config.pre_process_modules

      after : Bool → M (Unit {0})
      after sent_any = if is_empty recipients || not sent_any then start_in_process w u else pure tt

  -- From any state of the engine, `broadcast_pre_process` of a message comes to an end: either a
  -- statement of the database failed on the way, or afterwards a module owes the message an answer, or a
  -- pause holds it, or it has left the pipeline, or its row is held for audit.
  pub broadcast_pre_process-Ends : (e : Engine) → Ends u (broadcast_pre_process w u e)
  unfolding broadcast_pre_process ends
  broadcast_pre_process-Ends e =
      hold_cases u Pause.entry e (λ r. Ends u (and_then r after))
        (λ _. held-settled u Pause.entry e)
        λ _. elim (Option-cases (lookup u e.pipeline_states)) [
          | inl h ↦ rw h (absent-settled u e h)
          | inr (s, h) ↦ rw h (pre_fan_out-Ends s e)
        ]
    where
      after : Bool → M (Unit {0})
      after held = if held then pure tt else (do
        found ← gets (λ e. lookup u e.pipeline_states)
        map_or found (pure tt) (pre_fan_out w u))
