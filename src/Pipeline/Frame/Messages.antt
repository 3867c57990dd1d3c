-- ===== src/Pipeline/Frame/Messages.antt =====
-- What a module sends about one message leaves all others alone: src/pipeline.rs.
use cockatiel_engine_rs.Wire.{
  pre_process_reply, in_process_reply, post_process_reply, message_ack, other, Bytes, EnginePayload,
}
use cockatiel_engine_rs.Shared.{
  ℕ, String, ◌≡◌, refl, ◌∙◌, inl, inr, Bool, true, false, ◌&&◌, not, some, leb, if◌then◌else◌,
  Option-cases, ne_of_beq, ◌==◌, length, is_empty, is_some, map_or, lookup, adjust, lookup-adjust,
  string_eq,
}
use cockatiel_engine_rs.Pipeline.State.{World, PipelineState, pure, M, ◌>>=◌, Engine}
use cockatiel_engine_rs.Pipeline.Replies.{
  if_owner, handle_message_from_module, owns_pending_stage, on_pre_process, accept_reply,
  on_in_process, store_audio, on_post_process, on_receipt, set_audio,
}
use cockatiel_engine_rs.Pipeline.Advance.{
  refresh_user_data, start_next, advance_stage, handle_ack, refresh_with, acknowledged,
  note_pre_process_completed, update_state, note_in_process_completed,
}
use cockatiel_engine_rs.Pipeline.Frame.{
  Local, if-Local, Elsewhere-refl, and_then-Local, Leaves, map_or-Local, after-Local, Elsewhere,
  Leaves-Elsewhere,
}
use cockatiel_engine_rs.Pipeline.Ack.{
  Acked, AckTracker, is_pending_for, ack_module, mark_receipt, mark_first,
}
use cockatiel_engine_rs.Pipeline.Frame.Steps.{
  adjust-Local, next_index-Local, mark_complete-Local, mark_dropped-Local,
}
use cockatiel_engine_rs.Pipeline.Dispatch.{start_in_process, next_index, start_post_process}
use cockatiel_engine_rs.Pipeline.Ack.Laws.{AckedRight, ack_module_lem}
use cockatiel_engine_rs.Pipeline.Terminal.Cases.{tick}
use cockatiel_engine_rs.Pipeline.Progress.Messages.{concerns}
use cockatiel_engine_rs.Pipeline.Frame.Dispatch.{start_post_process-Local, start_in_process-Local}
use cockatiel_engine_rs.Pipeline.Timing.{record_timing}
use cockatiel_engine_rs.Pipeline.Terminal.{mark_complete, mark_dropped}

module _ (w : World) (u : String) where
  update_state-Local : (f : PipelineState → PipelineState) → Local u (update_state u f)
  update_state-Local f e = adjust-Local u f e

  refresh_user_data-Local : Local u (refresh_user_data w u)
  unfolding refresh_user_data refresh_with
  refresh_user_data-Local e =
      if-Local u w.user_db_wired _ (pure tt)
        (map_or-Local u (lookup u e.pipeline_states) (pure tt)
          (λ s. if s.user_uuid7 == "" then pure tt else refresh_with w u s) (Elsewhere-refl u)
          (λ s.
            if-Local u (s.user_uuid7 == "") (pure tt) (refresh_with w u s) (Elsewhere-refl u)
              (refresh_with-Local s)))
        (Elsewhere-refl u) e
    where
      refresh_with-Local : (s : PipelineState) → Local u (refresh_with w u s)
      refresh_with-Local s e =
          let enriched = w.enrich_chat_user e.calls s.platform s.user_uuid7 s.raw_data in
          if-Local u (is_some enriched) (update_state u (λ s. record s { user_data = enriched }))
            (pure tt) (update_state-Local (λ s. record s { user_data = enriched }))
            (Elsewhere-refl u) (tick e)

  start_next-Local : (i : ℕ) → Local u (start_next w u i)
  unfolding start_next
  start_next-Local i e =
      if-Local u (leb (length e.config.in_process_modules) i) _ (start_in_process w u)
        (λ e1.
          and_then-Local u e1 (refresh_user_data w u e1) (λ _. start_post_process w u)
            (refresh_user_data-Local e1) (λ _. start_post_process-Local w u))
        (start_in_process-Local w u) e

  advance_stage-Local : (stage : String) → Local u (advance_stage w u stage)
  unfolding advance_stage note_pre_process_completed note_in_process_completed
  advance_stage-Local stage =
      if-Local u (stage == "pre_process") _ _
        (λ e.
          after-Local u e _ (start_in_process w u)
            (adjust-Local u (λ s. record s { pre_process_completed_at = some (w.epoch_ms e.calls) })
              e)
            (start_in_process-Local w u))
        (if-Local u (stage == "in_process") _ _
          (λ e.
            after-Local u e
              (record (tick e) {
                pipeline_states =
                    adjust u (λ s. record s { in_process_completed_at = some (w.epoch_ms e.calls) })
                      e.pipeline_states;
              })
              in_process_done
              (adjust-Local u
                (λ s. record s { in_process_completed_at = some (w.epoch_ms e.calls) }) e)
              in_process_done-Local)
          (if-Local u (stage == "post_process") (mark_complete w u) (pure tt)
            (mark_complete-Local w u) (Elsewhere-refl u)))
    where
      in_process_done : M (Unit {0})
      in_process_done = next_index u >>= λ next. map_or next (pure tt) (start_next w u)

      in_process_done-Local : Local u in_process_done
      in_process_done-Local e =
          and_then-Local u e (next_index u e) (λ next. map_or next (pure tt) (start_next w u))
            (next_index-Local u e)
            (λ next.
              map_or-Local u next (pure tt) (start_next w u) (Elsewhere-refl u) start_next-Local)

  pub handle_ack-Local : (m : String) → Local u (handle_ack w u m)
  unfolding handle_ack acknowledged
  handle_ack-Local m e = elim (Option-cases (ack_module (w.now e.calls) u m e.ack_tracker)) [
    | inl h ↦ rw h (Elsewhere-refl u e)
    | inr ((a, t), h) ↦ rw h (answered a t (ack_module_lem (w.now e.calls) u m e.ack_tracker h))
  ]
    where
      answered :
          (a : Acked) (t : AckTracker)
          → AckedRight (w.now e.calls) u m e.ack_tracker a t
          → Leaves u e (acknowledged w u m (a, t) (tick e))
      answered a t r =
          after-Local u e
            (record (tick e) {
              ack_tracker = t;
              module_timings = record_timing m a.elapsed e.module_timings;
            })
            (if a.still_pending && not (a.stage == "in_process")
              then pure tt
              else advance_stage w u a.stage)
            (λ j h. (refl, refl, r.elsewhere j (ne_of_beq u j h), refl))
            (if-Local u (a.still_pending && not (a.stage == "in_process")) (pure tt)
              (advance_stage w u a.stage) (Elsewhere-refl u) (advance_stage-Local a.stage))

  reply-Local :
      (m stage kept processed : String) (audio : Bytes) (audio_type : String)
      (finally : M (Unit {0}))
      → Local u finally
      → Local u (if_owner w u m stage (accept_reply w u kept processed audio audio_type finally))
  unfolding if_owner owns_pending_stage accept_reply store_audio
  reply-Local m stage kept processed audio audio_type finally h e =
      if-Local u (is_pending_for u m stage e.ack_tracker) _ (pure true)
        (λ e1.
          after-Local u e1
            (record e1 {
              pipeline_states =
                  adjust u (λ s. record s { processed_message = processed }) e1.pipeline_states;
            })
            rest (adjust-Local u (λ s. record s { processed_message = processed }) e1) rest-Local)
        (Elsewhere-refl u) e
    where
      rest : M Bool
      rest = store_audio u kept audio_type audio >>= λ _. finally >>= λ _. pure true

      rest-Local : Local u rest
      rest-Local e2 =
          and_then-Local u e2 (store_audio u kept audio_type audio e2)
            (λ _. finally >>= λ _. pure true)
            (if-Local u (is_empty audio) (pure tt)
              (update_state u (set_audio kept audio_type audio)) (Elsewhere-refl u)
              (update_state-Local (set_audio kept audio_type audio)) e2)
            (λ _ e3.
              and_then-Local u e3 (finally e3) (λ _. pure true) (h e3) (λ _. Elsewhere-refl u))

  receipt-Local :
      (m : String) (e : Engine)
      → Elsewhere u e (record e { ack_tracker = mark_receipt u m e.ack_tracker })
  unfolding mark_receipt
  receipt-Local m e j h =
      (refl, refl, lookup-adjust u j (mark_first m) e.ack_tracker ∙ rw h refl, refl)

  pub message-Leaves :
      (m : String) (payload : EnginePayload) (e : Engine)
      → (concerns payload == "") ≡ false
      → concerns payload ≡ u
      → Leaves u e (handle_message_from_module w m payload e)
  unfolding handle_message_from_module on_pre_process on_in_process on_post_process on_receipt
      concerns
  message-Leaves m (pre_process_reply v chat audio audio_type) e named q =
      rw (named, q)
        (reply-Local m "pre_process" "pre" (map_or chat "" (λ c. c.raw_message)) audio audio_type
          (handle_ack w u m) (handle_ack-Local m) e)
  message-Leaves m (post_process_reply v processed audio audio_type) e named q =
      rw (named, q)
        (reply-Local m "post_process" "post" processed audio audio_type (handle_ack w u m)
          (handle_ack-Local m) e)
  message-Leaves m (in_process_reply v processed true audio audio_type) e named q =
      rw (named, q)
        (reply-Local m "in_process" "in" processed audio audio_type (mark_dropped w u _)
          (mark_dropped-Local w u _) e)
  message-Leaves m (in_process_reply v processed false audio audio_type) e named q =
      rw (named, q)
        (reply-Local m "in_process" "in" processed audio audio_type (handle_ack w u m)
          (handle_ack-Local m) e)
  message-Leaves m (message_ack v) e named q = rw (named, q) (receipt-Local m e)
  message-Leaves m other e named q = Elsewhere-refl u e

  -- Whatever a module sends about message `u` (a reply of any stage, or a receipt), and whatever comes of
  -- it, well or not: the row of every other message, its state, what modules owe it and where a pause
  -- holds it are as before.
  pub handle_message_from_module-Elsewhere :
      (m : String) (payload : EnginePayload) (e : Engine)
      → (concerns payload == "") ≡ false
      → concerns payload ≡ u
      → Elsewhere u e (handle_message_from_module w m payload e).1
  handle_message_from_module-Elsewhere m payload e named q =
      Leaves-Elsewhere u e (handle_message_from_module w m payload e)
        (message-Leaves m payload e named q)
