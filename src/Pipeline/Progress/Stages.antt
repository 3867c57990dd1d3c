-- ===== src/Pipeline/Progress/Stages.antt =====
-- Each dispatch point of src/pipeline.rs leaves its message settled, and the walk along the
-- in-process modules ends.
use cockatiel_engine_rs.Pipeline.Pause
use cockatiel_engine_rs.Shared.{
  ℕ, zero, suc, ◌+◌, ◌<◌, String, ◌≡◌, refl, inl, inr, Bool, true, false, ◌||◌, not, eq_iff, Option,
  none, some, List, arith, leb, if◌then◌else◌, Bool-cases, Option-cases, length, get_elem?,
  is_empty, contains, map_or, lookup, adjust, lookup-adjust, lookup-insert_in_order, string_eq,
}
use cockatiel_engine_rs.Pipeline.Progress.{settled, ends, Ends}
use cockatiel_engine_rs.Pipeline.State.{
  World, PipelineStage, Engine, PipelineState, M, pure, post_processing, and_then, in_processing,
}
use cockatiel_engine_rs.Pipeline.Pause.{HoldPoint}
use cockatiel_engine_rs.Pipeline.Dispatch.{
  post_fan_out, start_post_process, post_payload, skip_module, when_free, next_index,
  in_process_step, in_process_at, start_in, in_payload,
}
use cockatiel_engine_rs.Timeline.{is_audited}
use cockatiel_engine_rs.Pipeline.Dispatch.Cases.{
  on_hold, staged, fan_out_cases, when_free_cases, Delivered, deliver_cases,
}
use cockatiel_engine_rs.Pipeline.Ack.{has_pending}
use cockatiel_engine_rs.Commands.Routes.{post_process_recipients, command_recipients}
use cockatiel_engine_rs.Pipeline.Terminal.{mark_complete}
use cockatiel_engine_rs.Pipeline.Progress.Terminal.{mark_complete-Ends}
use cockatiel_engine_rs.Pipeline.Terminal.Cases.{tick}

pub held-settled :
    (u : String) (point : HoldPoint) (e : Engine) → settled u (on_hold u point e) ≡ true
unfolding settled
held-settled u point e =
    ground (arith, lookup-insert_in_order u u point e.pause_state.held, eq_iff u u)

audited-settled : (u : String) (e : Engine) → is_audited u e.rows ≡ true → settled u e ≡ true
unfolding settled
audited-settled u e h = ground arith

pub pending-settled :
    (u : String) (e : Engine) → has_pending u e.ack_tracker ≡ true → settled u e ≡ true
unfolding settled
pending-settled u e h = ground arith

pub absent-settled :
    (u : String) (e : Engine) → lookup u e.pipeline_states ≡ none → settled u e ≡ true
unfolding settled
absent-settled u e h = ground arith

lookup-staged-none :
    (u : String) (stage : PipelineStage) (e : Engine)
    → lookup u e.pipeline_states ≡ none
    → lookup u (staged u stage e).pipeline_states ≡ none
lookup-staged-none u stage e h =
    ground (
      arith,
      lookup-adjust u u (λ (s : PipelineState). record s { stage = stage }) e.pipeline_states,
    )

abbrev pub next_module : PipelineState → PipelineState
next_module s = record s { current_in_process_index = s.current_in_process_index + 1 }

abbrev pub advanced : String → Engine → Engine
advanced u e = record e { pipeline_states = adjust u next_module e.pipeline_states }

module _ (w : World) (u : String) where
  post_fan_out-Ends : (s : PipelineState) (e : Engine) → Ends u (post_fan_out w u s e)
  unfolding post_fan_out ends
  post_fan_out-Ends s e =
      fan_out_cases w u "post_process" s.user_uuid7 (post_payload u s) recipients e
        (λ r. Ends u (and_then r after))
        λ b e' d. elim (Bool-cases (is_empty e.config.post_process_modules || not b)) [
          | inl h ↦ rw h (mark_complete-Ends w u e')
          | inr h ↦ rw h (pending-settled u e' (d.pending (ground arith)))
        ]
    where
      recipients : List String
      recipients =
          post_process_recipients s.parsed_command e.command_registry e.config.post_process_modules

      after : Bool → M (Unit {0})
      after sent_any =
          if is_empty e.config.post_process_modules || not sent_any
          then mark_complete w u
          else pure tt

  when_free-Ends :
      (point : HoldPoint) (stage : PipelineStage) (dispatch : PipelineState → M (Unit {0}))
      (e : Engine)
      → ((s : PipelineState)
          → lookup u e.pipeline_states ≡ some s
          → Ends u (dispatch (record s { stage = stage }) (staged u stage (tick e))))
      → Ends u (when_free w u point stage dispatch e)
  unfolding ends
  when_free-Ends point stage dispatch e found =
      when_free_cases w u point stage dispatch e (Ends u) (λ _. held-settled u point e) (λ _. refl)
        (λ _ h. audited-settled u (tick e) h)
        (λ _ h. absent-settled u (staged u stage (tick e)) (lookup-staged-none u stage (tick e) h))
        (λ s _ _ h. found s h)

  pub start_post_process-Ends : (e : Engine) → Ends u (start_post_process w u e)
  unfolding start_post_process
  start_post_process-Ends e =
      when_free-Ends Pause.post_process post_processing (post_fan_out w u) e (λ s h.
        post_fan_out-Ends (record s { stage = post_processing })
          (staged u post_processing (tick e)))

  -- How far the message is along the in-process modules; past them all where its state is gone.
  abbrev index_of : Engine → ℕ
  index_of e =
      map_or (lookup u e.pipeline_states) (length e.config.in_process_modules)
        (λ s. s.current_in_process_index)

  -- The fuel covers the modules that are left.
  abbrev Enough : ℕ → Engine → Type 0
  Enough fuel e = (0 < fuel) × (length e.config.in_process_modules < fuel + index_of e)

  pub skip_module-Ends :
      (again : M (Unit {0})) (fuel : ℕ) (e : Engine)
      → ((e' : Engine) → Enough fuel e' → Ends u (again e'))
      → Enough (suc fuel) e
      → Ends u (skip_module w again u e)
  unfolding skip_module ends next_index
  skip_module-Ends again fuel e ih enough = elim (Option-cases (lookup u e.pipeline_states)) [
    | inl h ↦ rw (found none h) (absent-settled u (advanced u e) (found none h))
    | inr (s, h) ↦
        elim (Bool-cases
          (leb (length e.config.in_process_modules) (s.current_in_process_index + 1))) [
            | inl k ↦ rw (found (some s) h, k) (start_post_process-Ends (advanced u e))
            | inr k ↦ rw (found (some s) h, k) (ih (advanced u e) (ground arith, enough_after s h))
          ]
  ]
    where
      found :
          (o : Option PipelineState)
          → lookup u e.pipeline_states ≡ o
          → lookup u (advanced u e).pipeline_states ≡ map_or o none (λ s. some (next_module s))
      found none h = ground (arith, lookup-adjust u u next_module e.pipeline_states, eq_iff u u)
      found (some s) h = ground (arith, lookup-adjust u u next_module e.pipeline_states, eq_iff u u)

      enough_after :
          (s : PipelineState)
          → lookup u e.pipeline_states ≡ some s
          → length e.config.in_process_modules < fuel + index_of (advanced u e)
      enough_after s h = ground (arith, found (some s) h)

  pub in_process_at-Ends :
      (again : M (Unit {0})) (fuel : ℕ) (s : PipelineState) (m : String) (e : Engine)
      → ((e' : Engine) → Enough fuel e' → Ends u (again e'))
      → Enough (suc fuel) e
      → Ends u (in_process_at w again u s m e)
  unfolding in_process_at ends
  in_process_at-Ends again fuel s m e ih enough =
      elim (Bool-cases (map_or targets true (λ t. contains t m))) [
        | inl h ↦
            rw (h, in_process_at)
              (deliver_cases w u "in_process" s.user_uuid7 (in_payload u s) m e
                (λ r. Ends u (and_then r after)) by_delivery)
        | inr h ↦ rw (h, in_process_at) (skip_module-Ends again fuel e ih enough)
      ]
    where
      targets : Option (List String)
      targets = command_recipients s.parsed_command e.command_registry e.config.in_process_modules

      after : Bool → M (Unit {0})
      after tracked = if tracked then pure tt else skip_module w again u

      by_delivery : (b : Bool) (e' : Engine) → Delivered u e b e' → Ends u (after b e')
      by_delivery true e' d = pending-settled u e' (d.pending refl)
      by_delivery false e' d = skip_module-Ends again fuel e' ih (rw (d.states, d.config) enough)

  in_process_step-Ends :
      (again : M (Unit {0})) (fuel : ℕ) (s : PipelineState) (e : Engine)
      → ((e' : Engine) → Enough fuel e' → Ends u (again e'))
      → Enough (suc fuel) e
      → Ends u (in_process_step w again u s e)
  unfolding in_process_step
  in_process_step-Ends again fuel s e ih enough =
      elim (Option-cases (get_elem? e.config.in_process_modules s.current_in_process_index)) [
        | inl h ↦ rw h (start_post_process-Ends e)
        | inr (m, h) ↦ rw h (in_process_at-Ends again fuel s m e ih enough)
      ]

  pub start_in-Ends : (fuel : ℕ) (e : Engine) → Enough fuel e → Ends u (start_in w fuel u e)
  unfolding start_in
  start_in-Ends zero e enough = ground arith
  start_in-Ends (suc fuel) e enough =
      when_free-Ends Pause.in_process in_processing (in_process_step w (start_in w fuel u) u) e
        (λ s h.
          in_process_step-Ends (start_in w fuel u) fuel (record s { stage = in_processing })
            (staged u in_processing (tick e)) (λ e' k. start_in-Ends fuel e' k)
            (ground arith, staged_enough s h))
    where
      staged_enough :
          (s : PipelineState)
          → lookup u e.pipeline_states ≡ some s
          → length e.config.in_process_modules
            < suc fuel + index_of (staged u in_processing (tick e))
      staged_enough s h = ground (
        arith,
        lookup-adjust u u (λ (s : PipelineState). record s { stage = in_processing })
            e.pipeline_states,
        eq_iff u u,
      )
