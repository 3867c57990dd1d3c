-- ===== src/Pipeline/Sweep/Resend.antt =====
-- What a resend of src/pipeline.rs repeats.
use cockatiel_engine_rs.Wire.{message_post_process, ModulePayload, Bytes}
use cockatiel_engine_rs.Shared.{
  String, ◌≡◌, refl, sym, ap, ◌↔◌, false, Option, none, some, [], arith,
}
use cockatiel_engine_rs.Pipeline.Sweep.{resend_payload}
use cockatiel_engine_rs.Pipeline.Progress.Replies.{known_stage}
use cockatiel_engine_rs.Pipeline.Dispatch.{post_payload, pre_payload, in_payload, forwarded_audio}
use cockatiel_engine_rs.Pipeline.State.{PipelineState}

-- A resend of the pre-process or the in-process message of a state repeats what the dispatch of that
-- state sends; a resend of the post-process message does so exactly where the dispatch forwards no
-- audio; and for any other stage there is no resend.
pub resend_payload_lem :
    (u stage : String) (s : PipelineState)
    → (resend_payload u "pre_process" s ≡ some (pre_payload u s))
      × (resend_payload u "in_process" s ≡ some (in_payload u s))
      × ((resend_payload u "post_process" s ≡ some (post_payload u s))
          ↔ (forwarded_audio s ≡ ([], "")))
      × (known_stage stage ≡ false → resend_payload u stage s ≡ none)
unfolding resend_payload known_stage pre_payload in_payload post_payload
resend_payload_lem u stage s =
    (refl, refl, (λ k. sym (ap audio_of k), λ k. rw k refl), λ h. ground arith)
  where
    audio_of : Option ModulePayload → Bytes × String
    audio_of (some (message_post_process v chat processed audio audio_type)) = (audio, audio_type)
    audio_of _ = ([], "")
