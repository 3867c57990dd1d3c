-- ===== src/Pipeline/Progress/Messages.antt =====
-- No message of src/pipeline.rs is stuck after `handle_message_from_module` of what a module sends about it.
use cockatiel_engine_rs.Wire.{
  pre_process_reply, in_process_reply, post_process_reply, message_ack, other, EnginePayload, Bytes,
}
use cockatiel_engine_rs.Pipeline.Progress.Stages.{pending-settled}
use cockatiel_engine_rs.Pipeline.Terminal.{mark_dropped}
use cockatiel_engine_rs.Shared.{
  String, ◌≡◌, true, false, eq_iff, arith, ◌==◌, Map, map_or, lookup-adjust, string_eq,
}
use cockatiel_engine_rs.Pipeline.State.{World, M, Engine, PipelineState}
use cockatiel_engine_rs.Pipeline.Progress.{settled, Ends, ends}
use cockatiel_engine_rs.Pipeline.Replies.{
  handle_message_from_module, on_pre_process, on_in_process, on_post_process, on_receipt, if_owner,
  accept_reply,
}
use cockatiel_engine_rs.Pipeline.Ack.{has_pending, mark_receipt, mark_first, entries_of}
use cockatiel_engine_rs.Pipeline.Ack.Laws.{is_empty-mark_first}
use cockatiel_engine_rs.Pipeline.Progress.Replies.{
  KnownStages, if_owner-Ends, accept_reply-Ends, handle_ack-Ends,
}
use cockatiel_engine_rs.Pipeline.Advance.{handle_ack}
use cockatiel_engine_rs.Pipeline.Progress.Terminal.{mark_dropped-Ends}

-- The message that a payload is about; the empty text where it is about none.
unfoldable pub concerns : EnginePayload → String
concerns (pre_process_reply u chat audio audio_type) = u
concerns (in_process_reply u processed abandon audio audio_type) = u
concerns (post_process_reply u processed audio audio_type) = u
concerns (message_ack u) = u
concerns other = ""

module _ (w : World) (u : String) where
  reply-Ends :
      (m stage kept processed : String) (audio : Bytes) (audio_type : String)
      (finally : M (Unit {0})) (e : Engine)
      → settled u e ≡ true
      → ((states : Map String PipelineState)
          → settled u (record e { pipeline_states = states }) ≡ true
          → Ends u (finally (record e { pipeline_states = states })))
      → Ends u (if_owner w u m stage (accept_reply w u kept processed audio audio_type finally) e)
  reply-Ends m stage kept processed audio audio_type finally e before every =
      if_owner-Ends w u m stage (accept_reply w u kept processed audio audio_type finally) e before
        λ p.
          accept_reply-Ends w u kept processed audio audio_type finally e
            λ states. every states (pending-settled u (record e { pipeline_states = states }) p)

  mark_receipt-settled :
      (m : String) (e : Engine)
      → settled u e ≡ true
      → settled u (record e { ack_tracker = mark_receipt u m e.ack_tracker }) ≡ true
  unfolding settled has_pending mark_receipt
  mark_receipt-settled m e h = ground (
    arith,
    lookup-adjust u u (mark_first m) e.ack_tracker,
    eq_iff u u,
    is_empty-mark_first m (entries_of u e.ack_tracker),
  )

  -- Let every pending entry of message `u` be of one of the three stages, and let `u` not be stuck: a
  -- module owes it an answer, or a pause holds it, or it is not in the pipeline, or its row is held for
  -- audit. Then whatever a module sends about `u` (a reply of any stage, in turn or not, or a
  -- receipt), its handling comes to an end, and `u` is not stuck afterwards, unless a statement of the
  -- database failed.
  pub handle_message_from_module-Ends :
      (m : String) (payload : EnginePayload) (e : Engine)
      → (concerns payload == "") ≡ false
      → concerns payload ≡ u
      → KnownStages u e
      → settled u e ≡ true
      → Ends u (handle_message_from_module w m payload e)
  unfolding handle_message_from_module on_pre_process on_in_process on_post_process on_receipt
      concerns ends
  handle_message_from_module-Ends m (pre_process_reply v chat audio audio_type) e named q known
        before =
      rw (named, q)
        (reply-Ends m "pre_process" "pre" (map_or chat "" (λ c. c.raw_message)) audio audio_type
          (handle_ack w u m) e before
          (λ states s. handle_ack-Ends w u m (record e { pipeline_states = states }) known s))
  handle_message_from_module-Ends m (post_process_reply v processed audio audio_type) e named q
        known before =
      rw (named, q)
        (reply-Ends m "post_process" "post" processed audio audio_type (handle_ack w u m) e before
          (λ states s. handle_ack-Ends w u m (record e { pipeline_states = states }) known s))
  handle_message_from_module-Ends m (in_process_reply v processed true audio audio_type) e named q
        known before =
      rw (named, q)
        (reply-Ends m "in_process" "in" processed audio audio_type (mark_dropped w u _) e before
          (λ states s. mark_dropped-Ends w u _ (record e { pipeline_states = states })))
  handle_message_from_module-Ends m (in_process_reply v processed false audio audio_type) e named q
        known before =
      rw (named, q)
        (reply-Ends m "in_process" "in" processed audio audio_type (handle_ack w u m) e before
          (λ states s. handle_ack-Ends w u m (record e { pipeline_states = states }) known s))
  handle_message_from_module-Ends m (message_ack v) e named q known before =
      rw (named, q) (mark_receipt-settled m e before)
  handle_message_from_module-Ends m other e named q known before = before
