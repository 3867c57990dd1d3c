-- ===== src/Pipeline/Frame/Dispatch.antt =====
-- The dispatch of one message of src/pipeline.rs leaves all other messages alone.
use cockatiel_engine_rs.Pipeline.Pause
use cockatiel_engine_rs.Shared.{
  ℕ, zero, suc, String, inl, inr, Bool, true, false, ◌||◌, not, List, [], ◌∷◌, leb, if◌then◌else◌,
  Bool-cases, length, get_elem?, is_empty, contains, or_default, map_or, lookup, string_eq,
}
use cockatiel_engine_rs.Pipeline.State.{
  World, PipelineState, M, post_processing, PipelineStage, pure, in_processing, ◌>>◌, and_then, ok,
}
use cockatiel_engine_rs.Pipeline.Dispatch.{
  post_fan_out, in_process_at, deliver, pre_fan_out, fan_out, when_free, start_post_process,
  skip_module, broadcast_pre_process, start_in_process, start_in, in_process_step, track_sent,
  SendOutcome, post_payload, pre_payload, next_index, was_sent, hold, in_payload, enter_stage,
}
use cockatiel_engine_rs.Pipeline.Pause.{HoldPoint}
use cockatiel_engine_rs.Wire.{ModulePayload}
use cockatiel_engine_rs.Pipeline.Frame.{
  Local, map_or-Local, and_then-Local, Elsewhere-refl, if-Local, Leaves,
}
use cockatiel_engine_rs.Commands.Routes.{command_recipients, post_process_recipients}
use cockatiel_engine_rs.Pipeline.Frame.Steps.{
  next_index-Local, hold-Local, mark_complete-Local, read_audited-Local, enter_stage-Local,
  track-Local,
}
use cockatiel_engine_rs.Pipeline.Terminal.{mark_complete, read_audited}
use cockatiel_engine_rs.Pipeline.Dispatch.Cases.{asked, decision, send_to_module_cases}

module _ (w : World) (u : String) where
  deliver-Local :
      (stage user m : String) (payload : ModulePayload) → Local u (deliver w u stage user payload m)
  unfolding deliver track_sent
  deliver-Local stage user m payload e = elim (Bool-cases (decision w user m e).0) [
    | inl h ↦ rw h (
        send_to_module_cases w m payload (asked w user m e)
          (λ r. Leaves u e (and_then r after_send)) by_outcome)
    | inr h ↦ rw h (Elsewhere-refl u e)
  ]
    where
      after_send : SendOutcome → M Bool
      after_send outcome =
          if was_sent outcome then (do track_sent w u stage m; pure true) else pure false

      by_outcome :
          (o : SendOutcome) (out : List (String × ModulePayload)) (calls : ℕ)
          → Leaves u e
              (and_then (ok o, record (asked w user m e) { sent = out; calls = calls }) after_send)
      by_outcome o out calls = elim (Bool-cases (was_sent o)) [
        | inl h ↦ rw h (track-Local u (w.now calls) stage m e.config.ack_timeout_ms e)
        | inr h ↦ rw h (Elsewhere-refl u e)
      ]

  fan_out-Local :
      (stage user : String) (payload : ModulePayload) (ms : List String)
      → Local u (fan_out w u stage user payload ms)
  unfolding fan_out
  fan_out-Local stage user payload [] e = Elsewhere-refl u e
  fan_out-Local stage user payload (m ∷ ms) e =
      and_then-Local u e (deliver w u stage user payload m e) _
        (deliver-Local stage user m payload e)
        λ one e1.
          and_then-Local u e1 (fan_out w u stage user payload ms e1)
            (λ others. pure (one || others)) (fan_out-Local stage user payload ms e1)
            (λ _. Elsewhere-refl u)

  post_fan_out-Local : (s : PipelineState) → Local u (post_fan_out w u s)
  unfolding post_fan_out
  post_fan_out-Local s e =
      and_then-Local u e (fan_out w u "post_process" s.user_uuid7 (post_payload u s) recipients e) _
        (fan_out-Local "post_process" s.user_uuid7 (post_payload u s) recipients e)
        (λ sent_any.
          if-Local u (is_empty e.config.post_process_modules || not sent_any) (mark_complete w u)
            (pure tt) (mark_complete-Local w u) (Elsewhere-refl u))
    where
      recipients : List String
      recipients =
          post_process_recipients s.parsed_command e.command_registry e.config.post_process_modules

  when_free-Local :
      (point : HoldPoint) (stage : PipelineStage) (dispatch : PipelineState → M (Unit {0}))
      → ((s : PipelineState) → Local u (dispatch s))
      → Local u (when_free w u point stage dispatch)
  unfolding when_free
  when_free-Local point stage dispatch every e =
      and_then-Local u e (hold u point e) _ (hold-Local u point e) λ held.
        if-Local u held (pure tt) _ (Elsewhere-refl u) λ e1.
          and_then-Local u e1 (read_audited w u e1) _ (read_audited-Local w u e1) λ audited.
            if-Local u audited (pure tt) _ (Elsewhere-refl u) λ e2.
              and_then-Local u e2 (enter_stage u stage e2)
                (λ entered. map_or entered (pure tt) dispatch) (enter_stage-Local u stage e2)
                λ entered. map_or-Local u entered (pure tt) dispatch (Elsewhere-refl u) every

  pub start_post_process-Local : Local u (start_post_process w u)
  unfolding start_post_process
  start_post_process-Local =
      when_free-Local Pause.post_process post_processing (post_fan_out w u) post_fan_out-Local

  skip_module-Local : (again : M (Unit {0})) → Local u again → Local u (skip_module w again u)
  unfolding skip_module
  skip_module-Local again h e =
      and_then-Local u e (next_index u e) _ (next_index-Local u e) λ next e1.
        map_or-Local u next (pure tt)
          (λ i.
            if leb (length e1.config.in_process_modules) i then start_post_process w u else again)
          (Elsewhere-refl u)
          (λ i.
            if-Local u (leb (length e1.config.in_process_modules) i) (start_post_process w u) again
              start_post_process-Local h)
          e1

  in_process_at-Local :
      (again : M (Unit {0})) (s : PipelineState) (m : String)
      → Local u again
      → Local u (in_process_at w again u s m)
  unfolding in_process_at
  in_process_at-Local again s m h e =
      if-Local u is_recipient _ (skip_module w again u)
        (λ e1.
          and_then-Local u e1 (deliver w u "in_process" s.user_uuid7 (in_payload u s) m e1)
            (λ tracked. if tracked then pure tt else skip_module w again u)
            (deliver-Local "in_process" s.user_uuid7 m (in_payload u s) e1)
            (λ tracked.
              if-Local u tracked (pure tt) (skip_module w again u) (Elsewhere-refl u)
                (skip_module-Local again h)))
        (skip_module-Local again h) e
    where
      is_recipient : Bool
      is_recipient =
          map_or
            (command_recipients s.parsed_command e.command_registry e.config.in_process_modules)
            true (λ t. contains t m)

  in_process_step-Local :
      (again : M (Unit {0})) (s : PipelineState)
      → Local u again
      → Local u (in_process_step w again u s)
  unfolding in_process_step
  in_process_step-Local again s h e =
      map_or-Local u (get_elem? e.config.in_process_modules s.current_in_process_index)
        (start_post_process w u) (in_process_at w again u s) start_post_process-Local
        (λ m. in_process_at-Local again s m h) e

  start_in-Local : (fuel : ℕ) → Local u (start_in w fuel u)
  unfolding start_in
  start_in-Local zero e = Elsewhere-refl u e
  start_in-Local (suc fuel) e =
      when_free-Local Pause.in_process in_processing (in_process_step w (start_in w fuel u) u)
        (λ s. in_process_step-Local (start_in w fuel u) s (start_in-Local fuel)) e

  pub start_in_process-Local : Local u (start_in_process w u)
  unfolding start_in_process
  start_in_process-Local e = start_in-Local (suc (length e.config.in_process_modules)) e

  pre_fan_out-Local : (s : PipelineState) → Local u (pre_fan_out w u s)
  unfolding pre_fan_out
  pre_fan_out-Local s e =
      and_then-Local u e (fan_out w u "pre_process" s.user_uuid7 (pre_payload u s) recipients e) _
        (fan_out-Local "pre_process" s.user_uuid7 (pre_payload u s) recipients e)
        (λ sent_any.
          if-Local u (is_empty recipients || not sent_any) (start_in_process w u) (pure tt)
            start_in_process-Local (Elsewhere-refl u))
    where
      recipients : List String
      recipients =
          or_default
            (command_recipients s.parsed_command e.command_registry e.config.pre_process_modules)
            e.config.pre_process_modules

  pub broadcast_pre_process-Local : Local u (broadcast_pre_process w u)
  unfolding broadcast_pre_process
  broadcast_pre_process-Local e =
      and_then-Local u e (hold u Pause.entry e) _ (hold-Local u Pause.entry e) λ held.
        if-Local u held (pure tt) _ (Elsewhere-refl u) λ e1.
          map_or-Local u (lookup u e1.pipeline_states) (pure tt) (pre_fan_out w u)
            (Elsewhere-refl u) pre_fan_out-Local e1
