-- ===== src/Pipeline/Progress/Replies.antt =====
-- No message is stuck after a reply: `handle_ack` and `handle_message_from_module` of
-- src/pipeline.rs leave a message settled.
use cockatiel_engine_rs.Shared.{
  ℕ, String, ◌≡◌, refl, ◌∙◌, inl, inr, Bool, true, false, ◌&&◌, ◌||◌, not, some, List, [], ◌∷◌,
  arith, leb, Bool-cases, Option-cases, ◌==◌, length, is_empty, any, find, Map, is_some, map_or,
  lookup, string_eq,
}
use cockatiel_engine_rs.Pipeline.State.{
  ok, err, db_failed, out_of_fuel, World, Engine, PipelineState, Result, ok, and_then, ◌>>=◌, pure,
  M,
}
use cockatiel_engine_rs.Wire.{Bytes}
use cockatiel_engine_rs.Pipeline.Advance.{
  start_next, refresh_with, advance_stage, refresh_user_data, note_pre_process_completed,
  note_in_process_completed, acknowledged, handle_ack,
}
use cockatiel_engine_rs.Pipeline.Ack.{
  entries_of, Acked, AckTracker, has_pending, of_module, ack_module, is_pending_for,
}
use cockatiel_engine_rs.Pipeline.Dispatch.{next_index, start_post_process}
use cockatiel_engine_rs.Pipeline.Progress.{ends, Ends, settled}
use cockatiel_engine_rs.Pipeline.Progress.Entry.{start_in_process-Ends}
use cockatiel_engine_rs.Pipeline.Progress.Stages.{
  advanced, start_post_process-Ends, absent-settled, pending-settled,
}
use cockatiel_engine_rs.Pipeline.Progress.Terminal.{mark_complete-Ends}
use cockatiel_engine_rs.Pipeline.Ack.Laws.{AckedRight, ack_module_lem}
use cockatiel_engine_rs.Pipeline.Terminal.Cases.{tick}
use cockatiel_engine_rs.Pipeline.Timing.{record_timing}
use cockatiel_engine_rs.Pipeline.Replies.{if_owner, accept_reply, store_audio, owns_pending_stage}

-- The three names the code gives a stage.
unfoldable pub known_stage : String → Bool
known_stage stage = stage == "pre_process" || stage == "in_process" || stage == "post_process"

abbrev pub KnownStages : String → Engine → Type 0
KnownStages u e = any (λ a. not (known_stage a.stage)) (entries_of u e.ack_tracker) ≡ false

find_none :
    {A : Type 0} (p q : A → Bool) (xs : List A) {x : A}
    → find p xs ≡ some x
    → any q xs ≡ false
    → q x ≡ false
unfolding find any
find_none p q [] h k = absurd (ground arith)
find_none p q (y ∷ ys) h k = elim (Bool-cases (p y)) [
  | inl b ↦ ground (arith, h, b, k)
  | inr b ↦ find_none p q ys (ground (arith, h, b)) (ground (arith, k))
]

module _ (w : World) (u : String) where
  refresh_with_cases {ℓ} :
      (s : PipelineState) (e : Engine) (P : Result (Unit {0}) × Engine → Type ℓ)
      → ((states : Map String PipelineState) (calls : ℕ)
          → P (ok tt, record e { pipeline_states = states; calls = calls }))
      → P (refresh_with w u s e)
  unfolding refresh_with
  refresh_with_cases s e P every =
      elim (Bool-cases (is_some (w.enrich_chat_user e.calls s.platform s.user_uuid7 s.raw_data))) [
        | inl h ↦ rw (h, refresh_with) (every _ _)
        | inr h ↦ rw (h, refresh_with) (every _ _)
      ]

  refresh_user_data_cases {ℓ} :
      (e : Engine) (P : Result (Unit {0}) × Engine → Type ℓ)
      → ((states : Map String PipelineState) (calls : ℕ)
          → P (ok tt, record e { pipeline_states = states; calls = calls }))
      → P (refresh_user_data w u e)
  unfolding refresh_user_data
  refresh_user_data_cases e P every = elim (Bool-cases w.user_db_wired) [
    | inr h ↦ rw (h, refresh_user_data) (every _ _)
    | inl h ↦ elim (Option-cases (lookup u e.pipeline_states)) [
      | inl k ↦ rw (h, k, refresh_user_data) (every _ _)
      | inr (s, k) ↦ elim (Bool-cases (s.user_uuid7 == "")) [
        | inl q ↦ rw (h, k, q, refresh_user_data) (every _ _)
        | inr q ↦ rw (h, k, q, refresh_user_data) (refresh_with_cases s e P every)
      ]
    ]
  ]

  start_next-Ends : (i : ℕ) (e : Engine) → Ends u (start_next w u i e)
  unfolding start_next ends
  start_next-Ends i e = elim (Bool-cases (leb (length e.config.in_process_modules) i)) [
    | inl h ↦
        rw (h, start_next)
          (refresh_user_data_cases e (λ r. Ends u (and_then r (λ _. start_post_process w u)))
            (λ states calls. start_post_process-Ends w u _))
    | inr h ↦ rw (h, start_next) (start_in_process-Ends w u e)
  ]

  in_process_done-Ends :
      (e : Engine) → Ends u ((next_index u >>= λ next. map_or next (pure tt) (start_next w u)) e)
  unfolding next_index ends
  in_process_done-Ends e = elim (Option-cases (lookup u (advanced u e).pipeline_states)) [
    | inl h ↦ rw h (absent-settled u (advanced u e) h)
    | inr (s, h) ↦ rw h (start_next-Ends s.current_in_process_index (advanced u e))
  ]

  pub advance_stage-Ends :
      (stage : String) (e : Engine) → known_stage stage ≡ true → Ends u (advance_stage w u stage e)
  unfolding advance_stage known_stage note_pre_process_completed note_in_process_completed
  advance_stage-Ends stage e known = elim (Bool-cases (stage == "pre_process")) [
    | inl h ↦ rw (h, advance_stage) (start_in_process-Ends w u _)
    | inr h ↦ elim (Bool-cases (stage == "in_process")) [
      | inl k ↦ rw (h, k, advance_stage) (in_process_done-Ends _)
      | inr k ↦ rw (h, k, advance_stage, last h k) (mark_complete-Ends w u e)
    ]
  ]
    where
      last :
          (stage == "pre_process") ≡ false
          → (stage == "in_process") ≡ false
          → (stage == "post_process") ≡ true
      last h k = ground arith

  acknowledged-Ends :
      (m : String) (a : Acked) (t : AckTracker) (e : Engine)
      → known_stage a.stage ≡ true
      → has_pending u t ≡ a.still_pending
      → Ends u (acknowledged w u m (a, t) e)
  unfolding acknowledged ends
  acknowledged-Ends m a t e known snapshot =
      elim (Bool-cases (a.still_pending && not (a.stage == "in_process"))) [
        | inl h ↦ rw h (
            pending-settled u
              (record e {
                ack_tracker = t;
                module_timings = record_timing m a.elapsed e.module_timings;
              })
              (snapshot ∙ ground arith))
        | inr h ↦ rw h (advance_stage-Ends a.stage _ known)
      ]

  pub handle_ack-Ends :
      (m : String) (e : Engine) → KnownStages u e → settled u e ≡ true → Ends u (handle_ack w u m e)
  unfolding handle_ack ends known_stage
  handle_ack-Ends m e known before =
      elim (Option-cases (ack_module (w.now e.calls) u m e.ack_tracker)) [
        | inl h ↦ rw h before
        | inr ((a, t), h) ↦
            rw h (by_answer a t (ack_module_lem (w.now e.calls) u m e.ack_tracker h))
      ]
    where
      by_answer :
          (a : Acked) (t : AckTracker)
          → AckedRight (w.now e.calls) u m e.ack_tracker a t
          → Ends u (acknowledged w u m (a, t) (tick e))
      by_answer a t r =
          acknowledged-Ends m a t (tick e)
            (rw r.stage (
              ground (
                arith,
                find_none (of_module m) (λ x. not (known_stage x.stage))
                    (entries_of u e.ack_tracker) r.found known,
              )))
            r.snapshot

  is_owner-pending :
      (m stage : String) (e : Engine)
      → is_pending_for u m stage e.ack_tracker ≡ true
      → has_pending u e.ack_tracker ≡ true
  unfolding is_pending_for has_pending any
  is_owner-pending m stage e h = elim (Option-cases (lookup u e.ack_tracker)) [
    | inl k ↦ absurd (ground (arith, h, k))
    | inr ([], k) ↦ absurd (ground (arith, h, k))
    | inr (x ∷ xs, k) ↦ ground (arith, k)
  ]

  pub accept_reply-Ends :
      (stage processed : String) (audio : Bytes) (audio_type : String) (finally : M (Unit {0}))
      (e : Engine)
      → ((states : Map String PipelineState)
          → Ends u (finally (record e { pipeline_states = states })))
      → Ends u (accept_reply w u stage processed audio audio_type finally e)
  unfolding accept_reply store_audio ends
  accept_reply-Ends stage processed audio audio_type finally e every =
      elim (Bool-cases (is_empty audio)) [
        | inl h ↦ rw h (after_finally _ (every _))
        | inr h ↦ rw h (after_finally _ (every _))
      ]
    where
      after_finally :
          (r : Result (Unit {0}) × Engine) → Ends u r → Ends u (and_then r (λ _. pure true))
      after_finally (ok a, e) h = h
      after_finally (err db_failed, e) h = refl
      after_finally (err out_of_fuel, e) h = h

  pub if_owner-Ends :
      (m stage : String) (accepted : M Bool) (e : Engine)
      → settled u e ≡ true
      → (has_pending u e.ack_tracker ≡ true → Ends u (accepted e))
      → Ends u (if_owner w u m stage accepted e)
  unfolding if_owner owns_pending_stage ends
  if_owner-Ends m stage accepted e before owned =
      elim (Bool-cases (is_pending_for u m stage e.ack_tracker)) [
        | inl h ↦ rw h (owned (is_owner-pending m stage e h))
        | inr h ↦ rw h before
      ]
