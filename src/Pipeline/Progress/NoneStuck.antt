-- ===== src/Pipeline/Progress/NoneStuck.antt =====
-- The invariant of the whole engine of src/pipeline.rs: no message of it is stuck.
use cockatiel_engine_rs.Pipeline.State.{
  ok, err, db_failed, out_of_fuel, Engine, Result, World, and_then, pure,
}
use cockatiel_engine_rs.Shared.{
  ◌+◌, String, ◌≡◌, refl, subst, ◌∙◌, inl, inr, true, none, some, arith, Bool-cases, eq_of_beq,
  ◌==◌, string_eq,
}
use cockatiel_engine_rs.Pipeline.Progress.{ends, settled, Ends}
use cockatiel_engine_rs.Pipeline.Ack.{has_pending}
use cockatiel_engine_rs.Timeline.{is_audited}
use cockatiel_engine_rs.Pipeline.Frame.{Leaves, Same, and_then-Local, Elsewhere-refl}
use cockatiel_engine_rs.Pipeline.Terminal.Holds.{OkThen}
use cockatiel_engine_rs.Wire.{
  pre_process_reply, in_process_reply, post_process_reply, message_ack, other, EnginePayload,
  ChatMessage,
}
use cockatiel_engine_rs.Pipeline.Replies.{
  handle_message_from_module, ingest, note_presence, on_pre_process, on_in_process, on_post_process,
  is_refused, on_receipt, message_in,
}
use cockatiel_engine_rs.Pipeline.Pause.{HoldPoint}
use cockatiel_engine_rs.Pipeline.Ingest.{PipelineMessage, insert_and_start}
use cockatiel_engine_rs.Pipeline.Sweep.{replay_hold}
use cockatiel_engine_rs.Pipeline.Progress.Replies.{KnownStages}
use cockatiel_engine_rs.Pipeline.Progress.Messages.{concerns, handle_message_from_module-Ends}
use cockatiel_engine_rs.Pipeline.Progress.Ingest.{
  replay_hold-Ends, and_pure-Ends, insert_and_start-Ends,
}
use cockatiel_engine_rs.Stream.{note_attendance}
use cockatiel_engine_rs.Pipeline.Frame.Ingest.{replay_hold-Local, insert_and_start-Local}
use cockatiel_engine_rs.Pipeline.Frame.Messages.{message-Leaves}
use cockatiel_engine_rs.Pipeline.Terminal.Cases.{tick}

-- Each message is owed an answer, or held by a pause, or not in the pipeline, or held for audit.
abbrev pub NoneStuck : Engine → Type 0
NoneStuck e = (u : String) → settled u e ≡ true

settled-Same : (j : String) (e e' : Engine) → Same j e e' → settled j e' ≡ settled j e
unfolding settled has_pending is_audited
settled-Same j e e' s = ground (arith, s.0, s.1, s.2, s.3)

-- A run that settles its own message, and leaves the others alone, keeps the invariant.
run-NoneStuck :
    {A : Type 0} (u : String) (e : Engine) (r : Result A × Engine)
    → NoneStuck e
    → Ends u r
    → Leaves u e r
    → OkThen NoneStuck r
unfolding ends
run-NoneStuck u e (ok a, e') before own others = λ j. elim (Bool-cases (u == j)) [
  | inl h ↦ subst (λ x. settled x e' ≡ true) (eq_of_beq u j h) own
  | inr h ↦ settled-Same j e e' (others j h) ∙ before j
]
run-NoneStuck u e (err db_failed, e') before own others = refl
run-NoneStuck u e (err out_of_fuel, e') before own others = cc

module _ (w : World) where
  started-NoneStuck :
      (msg : PipelineMessage) (e : Engine)
      → NoneStuck e
      → OkThen NoneStuck (and_then (insert_and_start w msg e) (λ _. pure true))
  started-NoneStuck msg e before =
      run-NoneStuck msg.uuid7 e (and_then (insert_and_start w msg e) (λ _. pure true)) before
        (and_pure-Ends msg.uuid7 true (insert_and_start w msg e) (insert_and_start-Ends w msg e))
        (and_then-Local msg.uuid7 e (insert_and_start w msg e) (λ _. pure true)
          (insert_and_start-Local w msg e) (λ _. Elsewhere-refl msg.uuid7))

  ingest-NoneStuck :
      (chat : ChatMessage) (e : Engine) → NoneStuck e → OkThen NoneStuck (ingest w chat e)
  unfolding ingest note_presence settled
  ingest-NoneStuck chat e before = elim (Bool-cases (is_refused chat (noted e))) [
    | inl h ↦ rw h before
    | inr h ↦ rw h (
        started-NoneStuck (message_in w (w.fresh_uuid7 (e.calls + 1)) chat) (tick (noted e)) before)
  ]
    where
      noted : Engine → Engine
      noted e = record e {
        stream_tracker = note_attendance chat.user_uuid7 (w.epoch_ms e.calls) e.stream_tracker;
        calls = e.calls + 1;
      }

  about_none-NoneStuck :
      (m : String) (payload : EnginePayload) (e : Engine)
      → (concerns payload == "") ≡ true
      → NoneStuck e
      → OkThen NoneStuck (handle_message_from_module w m payload e)
  unfolding handle_message_from_module on_pre_process on_in_process on_post_process on_receipt
      concerns
  about_none-NoneStuck m (pre_process_reply v none audio audio_type) e h before = rw h before
  about_none-NoneStuck m (pre_process_reply v (some chat) audio audio_type) e h before =
      rw h (ingest-NoneStuck chat e before)
  about_none-NoneStuck m (in_process_reply v processed abandon audio audio_type) e h before =
      rw h before
  about_none-NoneStuck m (post_process_reply v processed audio audio_type) e h before = rw h before
  about_none-NoneStuck m (message_ack v) e h before = rw h before
  about_none-NoneStuck m other e h before = before

  -- Suppose that no message is stuck: each message is owed an answer by a module, or held by a pause, or
  -- not in the pipeline, or held for audit; and that every pending entry is of one of the three stages.
  -- Then whatever a module or an adapter sends (a reply, a receipt, a new message), its handling comes to
  -- an end, and either a statement of the database failed, or again no message is stuck.
  pub handle_message_from_module-NoneStuck :
      (m : String) (payload : EnginePayload) (e : Engine)
      → ((u : String) → KnownStages u e)
      → NoneStuck e
      → OkThen NoneStuck (handle_message_from_module w m payload e)
  handle_message_from_module-NoneStuck m payload e known before =
      elim (Bool-cases (concerns payload == "")) [
        | inl h ↦ about_none-NoneStuck m payload e h before
        | inr h ↦
            let u = concerns payload in
            run-NoneStuck u e (handle_message_from_module w m payload e) before
              (handle_message_from_module-Ends w u m payload e h refl (known u) (before u))
              (message-Leaves w u m payload e h refl)
      ]

  -- Suppose that no message is stuck. Then the replay of a hold of any message, at whichever point it was
  -- held, comes to an end, and either a statement of the database failed, or again no message is stuck.
  pub replay_hold-NoneStuck :
      (u : String) (point : HoldPoint) (e : Engine)
      → NoneStuck e
      → OkThen NoneStuck (replay_hold w u point e)
  replay_hold-NoneStuck u point e before =
      run-NoneStuck u e (replay_hold w u point e) before (replay_hold-Ends w u point e)
        (replay_hold-Local w u point e)
