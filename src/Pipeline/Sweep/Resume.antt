-- ===== src/Pipeline/Sweep/Resume.antt =====
-- What `resume` of src/pipeline.rs does with the acks that were pending over the pause.
use cockatiel_engine_rs.Shared.{
  ◌+◌, ◌-◌, ◌≤◌, ◌≡◌, refl, ap, ◌∙◌, Bool, true, false, Option, none, [], if◌then◌else◌, length,
  All, is_some,
}
use cockatiel_engine_rs.Pipeline.State.{err, ok, ◌>>◌, World, Engine, pure, Result}
use cockatiel_engine_rs.Pipeline.Ack.{restart_clocks, check_timeouts}
use cockatiel_engine_rs.Pipeline.Sweep.{
  resume, release, sweep_after, handle_timeout, run_sweep, sweep_all, replay_all, ResumeOutcome,
}
use cockatiel_engine_rs.Pipeline.Pause.{is_gated, take_held, BlockedReason}
use cockatiel_engine_rs.Pipeline.Ack.Timeouts.{check_timeouts-restart_clocks}

module _ (w : World) (e : Engine) where
  -- The engine once the pause is lifted, the backlog taken and the clocks restarted.
  abbrev pub released : Engine
  released = record e {
    pause_state = record (e.pause_state) { held = []; paused = false };
    ack_tracker = restart_clocks (w.now e.calls) e.ack_tracker;
    calls = e.calls + 1;
  }

  -- The same, after a sweep that drained nothing.
  abbrev pub swept : Engine
  swept = record released {
    ack_tracker =
        (check_timeouts (w.now (e.calls + 1)) (restart_clocks (w.now e.calls) e.ack_tracker)).1;
    calls = e.calls + 1 + 1;
  }

  abbrev Early : Type 0
  Early = All (λ p. All (λ a. w.now (e.calls + 1) - w.now e.calls ≤ a.timeout) p.1) e.ack_tracker

  run_sweep-early : Early → run_sweep w released ≡ (ok tt, swept)
  unfolding run_sweep sweep_all
  run_sweep-early early =
      rw (check_timeouts-restart_clocks (w.now e.calls) (w.now (e.calls + 1)) e.ack_tracker early)
        refl

  handle_timeout-early :
      e.pause_state.blocked ≡ none → Early → handle_timeout w released ≡ (ok tt, swept)
  unfolding handle_timeout is_gated
  handle_timeout-early free early =
      ap (λ (o : Option BlockedReason). (if is_some o then pure tt else run_sweep w) released) free
      ∙ run_sweep-early early

  -- Let the engine not be blocked, and let the sweep of `resume` run before any entry's full budget has
  -- passed since `resume` began. Then, however long the pause was, that sweep fails, resends and advances
  -- nothing: `resume` is the release of the pause, the restart of the clocks, and the replay of all that
  -- was held, and it reports whether there was a pause and how many messages were held.
  pub resume_lem :
      e.pause_state.blocked ≡ none
      → All (λ p. All (λ a. w.now (e.calls + 1) - w.now e.calls ≤ a.timeout) p.1) e.ack_tracker
      → resume w e
        ≡ (replay_all w e.pause_state.held
              >> pure (record {
                was_paused = e.pause_state.paused;
                resumed_messages = length e.pause_state.held;
                sweep_failed = false;
              }))
            swept
  unfolding resume release sweep_after take_held
  resume_lem free early = ap conclude (handle_timeout-early free early)
    where
      outcome : Bool → ResumeOutcome
      outcome failed = record {
        was_paused = e.pause_state.paused;
        resumed_messages = length e.pause_state.held;
        sweep_failed = failed;
      }

      conclude : Result (Unit {0}) × Engine → Result ResumeOutcome × Engine
      conclude r = elim (r.0) [
        | ok _ ↦ (replay_all w e.pause_state.held >> pure (outcome false)) (r.1)
        | err _ ↦ (replay_all w e.pause_state.held >> pure (outcome true)) (r.1)
      ]
