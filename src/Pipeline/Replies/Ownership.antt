-- ===== src/Pipeline/Replies/Ownership.antt =====
-- Who may change a message: the ownership gate and the door of `handle_message_from_module` of
-- src/pipeline.rs.
use cockatiel_engine_rs.Wire.{
  pre_process_reply, in_process_reply, post_process_reply, message_ack, other, EnginePayload,
  ChatMessage, UserData, Ban, ChannelRef,
}
use cockatiel_engine_rs.Shared.{
  ◌+◌, String, ◌≡◌, refl, sym, subst, true, false, Option, none, some, List, ◌∷◌, ◌++◌, ◌==◌,
  string_eq,
}
use cockatiel_engine_rs.Pipeline.Replies.{
  handle_message_from_module, on_pre_process, on_in_process, on_post_process, if_owner,
  owns_pending_stage,
}
use cockatiel_engine_rs.Pipeline.State.{World, Engine, ok, ◌>>=◌, ◌>>◌}
use cockatiel_engine_rs.Shared.Text.{trim}
use cockatiel_engine_rs.Pipeline.Bans.{Bans, mark_user_blocked}
use cockatiel_engine_rs.Pipeline.Ack.{is_pending_for}
use cockatiel_engine_rs.Stream.{note_attendance}

-- A reply of a stage, with the message it names and the stage.
unfoldable pub reply_stage : EnginePayload → Option (String × String)
reply_stage (pre_process_reply u chat audio audio_type) = some (u, "pre_process")
reply_stage (in_process_reply u processed abandon audio audio_type) = some (u, "in_process")
reply_stage (post_process_reply u processed audio audio_type) = some (u, "post_process")
reply_stage (message_ack u) = none
reply_stage other = none

abbrev named_stage : String → String → Option (String × String)
named_stage u stage = some (u, stage)

-- A reply about a message from a module that owes none for it at that stage changes nothing at all:
-- the engine afterwards is the engine before, and the payload counts as handled.
pub handle_message_from_module-not_owner :
    (w : World) (m u stage : String) (payload : EnginePayload) (e : Engine)
    → reply_stage payload ≡ some (u, stage)
    → (u == "") ≡ false
    → is_pending_for u m stage e.ack_tracker ≡ false
    → handle_message_from_module w m payload e ≡ (ok true, e)
unfolding handle_message_from_module on_pre_process on_in_process on_post_process if_owner
    owns_pending_stage reply_stage
handle_message_from_module-not_owner w m u stage payload e q named h = by_payload payload q
  where
    q_u : (v s : String) → named_stage v s ≡ some (u, stage) → v ≡ u
    q_u v s q = cc

    stage_of : (v s : String) → named_stage v s ≡ some (u, stage) → s ≡ stage
    stage_of v s q = cc

    not_pending :
        (s v : String)
        → named_stage v s ≡ some (u, stage)
        → is_pending_for u m s e.ack_tracker ≡ false
    not_pending s v q =
        subst (λ x. is_pending_for u m x e.ack_tracker ≡ false) (sym (stage_of v s q)) h

    by_payload :
        (payload : EnginePayload)
        → reply_stage payload ≡ some (u, stage)
        → handle_message_from_module w m payload e ≡ (ok true, e)
    by_payload (pre_process_reply v chat audio audio_type) q =
        rw (q_u v "pre_process" q, named, not_pending "pre_process" v q) refl
    by_payload (in_process_reply v processed abandon audio audio_type) q =
        rw (q_u v "in_process" q, named, not_pending "in_process" v q) refl
    by_payload (post_process_reply v processed audio audio_type) q =
        rw (q_u v "post_process" q, named, not_pending "post_process" v q) refl
    by_payload (message_ack v) q = cc
    by_payload other q = cc

-- Who is not to enter: a user with a ban that is not lifted among the bans that the user database
-- sent, or whose identifier was blocked, with whatever channels.
pub data IsUnwelcome (chat : ChatMessage) (bans : Bans) : Type 0 where
  banned :
      (ud : UserData) (before after : List Ban) (b : Ban)
      → chat.user_data ≡ some ud
      → ud.bans ≡ before ++ b ∷ after
      → b.unbanned ≡ false
      → IsUnwelcome chat bans
  blocked :
      (channels : List ChannelRef) (old : Bans)
      → (chat.user_uuid7 == "") ≡ false
      → trim chat.user_uuid7 ≡ chat.user_uuid7
      → bans ≡ mark_user_blocked chat.user_uuid7 channels old
      → IsUnwelcome chat bans

-- The engine once the user's presence is noted.
abbrev pub noted : World → ChatMessage → Engine → Engine
noted w chat e = record e {
  stream_tracker = note_attendance chat.user_uuid7 (w.epoch_ms e.calls) e.stream_tracker;
  calls = e.calls + 1;
}
