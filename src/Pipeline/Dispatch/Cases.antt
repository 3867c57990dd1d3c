-- ===== src/Pipeline/Dispatch/Cases.antt =====
-- The cases of the steps of a dispatch in src/pipeline.rs, and what a delivery leaves unchanged.
use cockatiel_engine_rs.Shared.{
  ℕ, ◌+◌, String, ◌≡◌, refl, sym, ap, subst, ◌∙◌, inl, inr, Bool, true, false, ◌||◌, eq_iff, Option,
  none, some, List, [], ◌∷◌, arith, if◌then◌else◌, Bool-cases, Option-cases, ◌==◌, contains, map_or,
  lookup, adjust, lookup-adjust, insert_in_order, string_eq,
}
use cockatiel_engine_rs.Pipeline.State.{
  World, Engine, Result, ok, PipelineStage, PipelineState, M, Link, ◌>>◌, pure, and_then, ◌>>=◌,
  err, db_failed,
}
use cockatiel_engine_rs.Pipeline.Dispatch.{
  hold, enter_stage, deliver, fan_out, send_to_module, SendOutcome, was_sent, try_link,
  not_connected, track_sent, when_free,
}
use cockatiel_engine_rs.Pipeline.Ack.{has_pending}
use cockatiel_engine_rs.Pipeline.Pause.{HoldPoint, hold_if_gated, is_gated}
use cockatiel_engine_rs.Wire.{ModulePayload}
use cockatiel_engine_rs.Shared.Int.{ℤ}
use cockatiel_engine_rs.Pipeline.Gate.{permit}
use cockatiel_engine_rs.Shared.Text.{trim}
use cockatiel_engine_rs.Pipeline.Ack.Laws.{track_lem}
use cockatiel_engine_rs.Pipeline.Terminal.Cases.{tick, read_audited_cases}
use cockatiel_engine_rs.Timeline.{is_audited}
use cockatiel_engine_rs.Pipeline.Terminal.{read_audited}

abbrev pub on_hold : String → HoldPoint → Engine → Engine
on_hold u point e = record e {
  pause_state = record (e.pause_state) { held = insert_in_order u point e.pause_state.held };
}

pub hold_cases {ℓ} :
    (u : String) (point : HoldPoint) (e : Engine) (P : Result Bool × Engine → Type ℓ)
    → (is_gated e.pause_state ≡ true → P (ok true, on_hold u point e))
    → (is_gated e.pause_state ≡ false → P (ok false, e))
    → P (hold u point e)
unfolding hold hold_if_gated
hold_cases u point e P held free = elim (Bool-cases (is_gated e.pause_state)) [
  | inl h ↦ rw (h, hold_if_gated) (held h)
  | inr h ↦ rw (h, hold_if_gated) (free h)
]

abbrev pub staged : String → PipelineStage → Engine → Engine
staged u stage e = record e {
  pipeline_states = adjust u (λ s. record s { stage = stage }) e.pipeline_states;
}

pub enter_stage_cases {ℓ} :
    (u : String) (stage : PipelineStage) (e : Engine)
    (P : Result (Option PipelineState) × Engine → Type ℓ)
    → (lookup u e.pipeline_states ≡ none → P (ok none, staged u stage e))
    → ((s : PipelineState)
        → lookup u e.pipeline_states ≡ some s
        → P (ok (some (record s { stage = stage })), staged u stage e))
    → P (enter_stage u stage e)
unfolding enter_stage
enter_stage_cases u stage e P absent found =
    let f = λ (s : PipelineState). record s { stage = stage } in
    elim (Option-cases (lookup u e.pipeline_states)) [
      | inl h ↦
          subst (λ (o : Option PipelineState). P (ok o, staged u stage e))
            (sym (lookup-adjust u u f e.pipeline_states ∙ ground (arith, eq_iff u u))) (absent h)
      | inr (s, h) ↦
          subst (λ (o : Option PipelineState). P (ok o, staged u stage e))
            (sym (lookup-adjust u u f e.pipeline_states ∙ ground (arith, eq_iff u u))) (found s h)
    ]

pub when_free_cases {ℓ} :
    (w : World) (u : String) (point : HoldPoint) (stage : PipelineStage)
    (dispatch : PipelineState → M (Unit {0})) (e : Engine) (P : Result (Unit {0}) × Engine → Type ℓ)
    → (is_gated e.pause_state ≡ true → P (ok tt, on_hold u point e))
    → (is_gated e.pause_state ≡ false → P (err db_failed, tick e))
    → (is_gated e.pause_state ≡ false → is_audited u e.rows ≡ true → P (ok tt, tick e))
    → (is_gated e.pause_state ≡ false
        → lookup u e.pipeline_states ≡ none
        → P (ok tt, staged u stage (tick e)))
    → ((s : PipelineState)
        → is_gated e.pause_state ≡ false
        → is_audited u e.rows ≡ false
        → lookup u e.pipeline_states ≡ some s
        → P (dispatch (record s { stage = stage }) (staged u stage (tick e))))
    → P (when_free w u point stage dispatch e)
unfolding when_free
when_free_cases w u point stage dispatch e P gated failed audited absent found =
    hold_cases u point e (λ r. P (and_then r after_hold)) gated
      λ free.
        read_audited_cases w e u (λ r. P (and_then r after_read)) (failed free) (audited free)
          λ shown.
            enter_stage_cases u stage (tick e) (λ r. P (and_then r after_enter)) (absent free)
              (λ s h. found s free shown h)
  where
    after_enter : Option PipelineState → M (Unit {0})
    after_enter entered = map_or entered (pure tt) dispatch

    after_read : Bool → M (Unit {0})
    after_read audited =
        if audited then pure tt else (do entered ← enter_stage u stage; after_enter entered)

    after_hold : Bool → M (Unit {0})
    after_hold held = if held then pure tt else (do audited ← read_audited w u; after_read audited)

-- A delivery to `m` of a message `u` changes nothing but the acks, what went out and the counter;
-- a delivery that is tracked leaves an ack pending.
pub record Delivered (u : String) (e : Engine) (b : Bool) (e' : Engine) : Type 0 where
  pub states : e'.pipeline_states ≡ e.pipeline_states
  pub config : e'.config ≡ e.config
  pub pause : e'.pause_state ≡ e.pause_state
  pub rows : e'.rows ≡ e.rows
  pub registry : e'.command_registry ≡ e.command_registry
  pub pending : b ≡ true → has_pending u e'.ack_tracker ≡ true
  pub kept : b ≡ false → e'.ack_tracker ≡ e.ack_tracker

-- A send only queues a payload, at most, and draws on the world.
pub send_to_module_cases {ℓ} :
    (w : World) (m : String) (payload : ModulePayload) (e : Engine)
    (P : Result SendOutcome × Engine → Type ℓ)
    → ((o : SendOutcome) (out : List (String × ModulePayload)) (calls : ℕ)
        → P (ok o, record e { sent = out; calls = calls }))
    → P (send_to_module w m payload e)
unfolding send_to_module
send_to_module_cases w m payload e P every = elim (Bool-cases (contains e.module_senders m)) [
  | inl h ↦ rw (h, send_to_module) (by_link (w.link e.calls m))
  | inr h ↦ rw (h, send_to_module) (every not_connected e.sent e.calls)
]
  where
    by_link : (l : Link) → P (try_link w m payload l (record e { calls = e.calls + 1 }))
    by_link l = elim (Bool-cases l.is_closed) [
      | inl h ↦ rw (h, try_link) (every not_connected e.sent _)
      | inr h ↦ elim (Bool-cases (l.has_room || l.frees_up)) [
        | inl k ↦ rw (h, k, try_link) (every SendOutcome.sent _ _)
        | inr k ↦ elim (Bool-cases l.closes_waiting) [
          | inl q ↦ rw (h, k, q, try_link) (every SendOutcome.sent e.sent _)
          | inr q ↦ rw (h, k, q, try_link) (every SendOutcome.dropped e.sent _)
        ]
      ]
    ]

-- What the gate of `m` answers for `user`, and the engine after the question.
abbrev pub decision : World → String → String → Engine → Bool × Option ℤ
decision w user m e =
    permit (lookup m e.module_gates) (trim user == "") w.user_db_wired (w.get_user e.calls user)
      (w.deduct_score (e.calls + 1) user)

abbrev pub asked : World → String → String → Engine → Engine
asked w user m e = record e {
  charged = map_or (decision w user m e).1 e.charged (λ amount. (user, amount) ∷ e.charged);
  calls = e.calls + 1 + 1;
}

nothing-Delivered :
    {u : String} (e e' : Engine)
    → e'.pipeline_states ≡ e.pipeline_states
    → e'.config ≡ e.config
    → e'.pause_state ≡ e.pause_state
    → e'.rows ≡ e.rows
    → e'.command_registry ≡ e.command_registry
    → e'.ack_tracker ≡ e.ack_tracker
    → Delivered u e false e'
nothing-Delivered e e' states config pause rows registry acks = record {
  states = states;
  config = config;
  pause = pause;
  rows = rows;
  registry = registry;
  pending = λ q. cc;
  kept = λ _. acks;
}

Delivered-trans :
    {u : String} {e e1 e2 : Engine} {b b' : Bool}
    → Delivered u e b e1
    → Delivered u e1 b' e2
    → Delivered u e (b || b') e2
Delivered-trans {u} {e} {e1} {e2} {b} {b'} d d' = record {
  states = d'.states ∙ d.states;
  config = d'.config ∙ d.config;
  pause = d'.pause ∙ d.pause;
  rows = d'.rows ∙ d.rows;
  registry = d'.registry ∙ d.registry;
  pending = pending b b' d.pending d'.pending d'.kept;
  kept = kept b b' d.kept d'.kept;
}
  where
    pending :
        (b b' : Bool)
        → (b ≡ true → has_pending u e1.ack_tracker ≡ true)
        → (b' ≡ true → has_pending u e2.ack_tracker ≡ true)
        → (b' ≡ false → e2.ack_tracker ≡ e1.ack_tracker)
        → (b || b') ≡ true
        → has_pending u e2.ack_tracker ≡ true
    pending b true p p' k q = p' refl
    pending true false p p' k q = ap (has_pending u) (k refl) ∙ p refl
    pending false false p p' k q = cc

    kept :
        (b b' : Bool)
        → (b ≡ false → e1.ack_tracker ≡ e.ack_tracker)
        → (b' ≡ false → e2.ack_tracker ≡ e1.ack_tracker)
        → (b || b') ≡ false
        → e2.ack_tracker ≡ e.ack_tracker
    kept false false k k' q = k' refl ∙ k refl
    kept true b' k k' q = cc
    kept false true k k' q = cc

module _ (w : World) (u stage user : String) (payload : ModulePayload) where
  pub deliver_cases {ℓ} :
      (m : String) (e : Engine) (P : Result Bool × Engine → Type ℓ)
      → ((b : Bool) (e' : Engine) → Delivered u e b e' → P (ok b, e'))
      → P (deliver w u stage user payload m e)
  unfolding deliver
  deliver_cases m e P every = elim (Bool-cases (decision w user m e).0) [
    | inl h ↦ rw h (
        send_to_module_cases w m payload (asked w user m e) (λ r. P (and_then r after_send))
          by_outcome)
    | inr h ↦
        rw h (every false (asked w user m e) (nothing-Delivered _ _ refl refl refl refl refl refl))
  ]
    where
      after_send : SendOutcome → M Bool
      after_send outcome =
          if was_sent outcome then (do track_sent w u stage m; pure true) else pure false

      by_outcome :
          (o : SendOutcome) (out : List (String × ModulePayload)) (calls : ℕ)
          → P (and_then (ok o, record (asked w user m e) { sent = out; calls = calls }) after_send)
      by_outcome o out calls = elim (Bool-cases (was_sent o)) [
        | inl h ↦ rw h (
            every true _ (record {
              states = refl;
              config = refl;
              pause = refl;
              rows = refl;
              registry = refl;
              pending =
                  λ _. (track_lem (w.now calls) u stage m e.config.ack_timeout_ms e.ack_tracker).1;
              kept = λ q. cc;
            }))
        | inr h ↦ rw h (every false _ (nothing-Delivered _ _ refl refl refl refl refl refl))
      ]

  -- A fanout leaves what a delivery leaves. If anything was sent, an ack is pending.
  pub fan_out_cases {ℓ} :
      (ms : List String) (e : Engine) (P : Result Bool × Engine → Type ℓ)
      → ((b : Bool) (e' : Engine) → Delivered u e b e' → P (ok b, e'))
      → P (fan_out w u stage user payload ms e)
  unfolding fan_out
  fan_out_cases [] e P every = every false e (nothing-Delivered _ _ refl refl refl refl refl refl)
  fan_out_cases (m ∷ ms) e P every =
      deliver_cases m e (λ r. P (and_then r after_one))
        λ b e1 d.
          fan_out_cases ms e1 (λ r. P (and_then r (λ others. pure (b || others))))
            λ b' e2 d'. every (b || b') e2 (Delivered-trans d d')
    where
      after_one : Bool → M Bool
      after_one one = do others ← fan_out w u stage user payload ms; pure (one || others)
