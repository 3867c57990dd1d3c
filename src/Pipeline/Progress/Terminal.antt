-- ===== src/Pipeline/Progress/Terminal.antt =====
-- Every terminal path of src/pipeline.rs leaves the message settled.
use cockatiel_engine_rs.Timeline.Outcome
use cockatiel_engine_rs.Shared.{
  ℕ, ◌+◌, String, ◌≡◌, refl, inl, inr, Bool, true, eq_iff, arith, if◌then◌else◌, Option-cases,
  lookup, erase, lookup-erase, lookup-adjust, string_eq,
}
use cockatiel_engine_rs.Pipeline.Progress.{settled, Ends, ends}
use cockatiel_engine_rs.Pipeline.State.{World, Engine, ◌>>=◌, pure, M, and_then}
use cockatiel_engine_rs.Timeline.{is_audited, Table}
use cockatiel_engine_rs.Pipeline.Terminal.{
  preserve_audit_hold, finish, result_snapshot, mark_failed, mark_complete, mark_dropped,
  take_result, drop_taken, clear_acks, result_of,
}
use cockatiel_engine_rs.Timeline.Outcome.{
  write_terminal_outcome, PipelineResult, PipelineOutcome, update_row,
}
use cockatiel_engine_rs.Pipeline.Terminal.Cases.{
  landed, finished, ending_cases, tick, preserve_audit_hold_cases, write_outcome_cases,
}
use cockatiel_engine_rs.Pipeline.Ack.{AckTracker}

pub is_audited-update :
    (now : ℕ) (u : String) (r : PipelineResult) (t : Table)
    → is_audited u (write_terminal_outcome now u Outcome.audit_held r t) ≡ is_audited u t
unfolding is_audited write_terminal_outcome
is_audited-update now u r t =
    ground (arith, lookup-adjust u u (update_row now Outcome.audit_held r) t, eq_iff u u)

module _ (w : World) (u : String) where
  landed-settled :
      (e : Engine) (calls : ℕ) → is_audited u e.rows ≡ true → settled u (landed w u calls e) ≡ true
  unfolding settled
  landed-settled e calls h =
      ground (arith, is_audited-update (w.epoch_ms (e.calls + 1)) u (result_snapshot u e) e.rows)

  finished-settled :
      (o : PipelineOutcome) (e : Engine) (calls : ℕ) → settled u (finished w u o calls e) ≡ true
  unfolding settled
  finished-settled o e calls = ground (arith, lookup-erase u u e.pipeline_states, eq_iff u u)

  ending-Ends :
      (o : PipelineOutcome) (e : Engine)
      → Ends u ((preserve_audit_hold w u >>= λ held. if held then pure tt else finish w u o) e)
  unfolding ends
  ending-Ends o e =
      ending_cases w u e o (Ends u) (λ _ _. refl) (λ calls h. landed-settled e calls h)
        (λ calls _. finished-settled o (tick e) calls)

  pub mark_complete-Ends : (e : Engine) → Ends u (mark_complete w u e)
  unfolding mark_complete
  mark_complete-Ends e = ending-Ends Outcome.complete e

  pub mark_failed-Ends : (reason : String) (e : Engine) → Ends u (mark_failed w u reason e)
  unfolding mark_failed
  mark_failed-Ends reason e = ending-Ends (Outcome.failed reason) e

  abbrev without : Engine → Engine
  without e = record e { pipeline_states = erase u e.pipeline_states }

  without-settled :
      (e : Engine) (rows : Table) (acks : AckTracker) (calls : ℕ)
      → settled u (record (without e) { rows = rows; ack_tracker = acks; calls = calls }) ≡ true
  unfolding settled
  without-settled e rows acks calls = ground (arith, lookup-erase u u e.pipeline_states, eq_iff u u)

  pub mark_dropped-Ends : (reason : String) (e : Engine) → Ends u (mark_dropped w u reason e)
  unfolding mark_dropped take_result ends drop_taken clear_acks
  mark_dropped-Ends reason e =
      preserve_audit_hold_cases w u e (λ r. Ends u (and_then r after_hold)) (λ _. refl)
        (λ calls h. landed-settled e calls h)
        (λ _. elim (Option-cases (lookup u e.pipeline_states)) [
          | inl h ↦ rw h (without-settled e e.rows e.ack_tracker (e.calls + 1))
          | inr (s, h) ↦ rw h (
              write_outcome_cases w (without (tick e)) u (Outcome.dropped reason) (result_of s)
                (λ r. Ends u (and_then r (λ _. clear_acks u))) refl
                (λ calls. without-settled e _ _ calls))
        ])
    where
      after_hold : Bool → M (Unit {0})
      after_hold held =
          if held then pure tt else (do result ← take_result u; drop_taken w u reason result)
