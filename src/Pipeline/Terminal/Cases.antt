-- ===== src/Pipeline/Terminal/Cases.antt =====
-- The cases of the terminal paths of src/pipeline.rs: what holds of each way a step can go holds of
-- the step. The proofs about handlers go through these, with the steps shut.
use cockatiel_engine_rs.Timeline.Outcome
use cockatiel_engine_rs.Shared.{
  ℕ, ◌+◌, String, ◌≡◌, inl, inr, Bool, true, false, none, some, if◌then◌else◌, Bool-cases, Map,
  or_default, map_or, lookup, erase, string_eq,
}
use cockatiel_engine_rs.Timeline.{is_audited}
use cockatiel_engine_rs.Pipeline.State.{
  World, Engine, Result, ok, err, db_failed, and_then, gets, PipelineState, M, ◌>>=◌, pure, ◌>>◌,
}
use cockatiel_engine_rs.Pipeline.Terminal.{
  run_statement, read_audited, write_outcome, preserve_audit_hold, result_of, finish, take_result,
  clear_acks, result_snapshot,
}
use cockatiel_engine_rs.Timeline.Outcome.{
  PipelineOutcome, PipelineResult, write_terminal_outcome, nothing_to_write, default_result,
}
use cockatiel_engine_rs.Pipeline.Ack.{ack}

abbrev pub tick : Engine → Engine
tick e = record e { calls = e.calls + 1 }

module _ (w : World) (e : Engine) where
  pub run_statement_cases {ℓ} :
      (P : Result (Unit {0}) × Engine → Type ℓ)
      → P (ok tt, tick e)
      → P (err db_failed, tick e)
      → P (run_statement w e)
  unfolding run_statement
  run_statement_cases P good bad = elim (Bool-cases (w.runs e.calls)) [
    | inl h ↦ rw (h, run_statement) good
    | inr h ↦ rw (h, run_statement) bad
  ]

  pub read_audited_cases {ℓ} :
      (u : String) (P : Result Bool × Engine → Type ℓ)
      → P (err db_failed, tick e)
      → (is_audited u e.rows ≡ true → P (ok true, tick e))
      → (is_audited u e.rows ≡ false → P (ok false, tick e))
      → P (read_audited w u e)
  unfolding read_audited
  read_audited_cases u P bad held free =
      run_statement_cases (λ r. P (and_then r (λ _. gets (λ e'. is_audited u e'.rows))))
        (elim (Bool-cases (is_audited u e.rows)) [ inl h ↦ rw h (held h) | inr h ↦ rw h (free h) ])
        bad

  pub write_outcome_cases {ℓ} :
      (u : String) (o : PipelineOutcome) (r : PipelineResult)
      (P : Result (Unit {0}) × Engine → Type ℓ)
      → P (err db_failed, tick (tick e))
      → ((calls : ℕ)
          → P (
            ok tt,
            record e {
              rows = write_terminal_outcome (w.epoch_ms e.calls) u o r e.rows;
              calls = calls;
            },
          ))
      → P (write_outcome w u o r e)
  unfolding write_outcome run_statement
  write_outcome_cases u o r P bad good = elim (Bool-cases (nothing_to_write o r)) [
    | inl h ↦ rw (h, write_outcome) (good (e.calls + 1))
    | inr h ↦ elim (Bool-cases (w.runs (e.calls + 1))) [
      | inl k ↦ rw (h, k, write_outcome, run_statement) (good (e.calls + 1 + 1))
      | inr k ↦ rw (h, k, write_outcome, run_statement) bad
    ]
  ]

-- What the engine is once a held message's result has been landed, and once a message is finished.
abbrev pub landed : World → String → ℕ → Engine → Engine
landed w u calls e = record e {
  rows =
      write_terminal_outcome (w.epoch_ms (e.calls + 1)) u Outcome.audit_held (result_snapshot u e)
        e.rows;
  calls = calls;
}

abbrev pub taken : String → Engine → PipelineResult
taken u e =
    or_default (map_or (lookup u e.pipeline_states) none (λ s. some (result_of s))) default_result

abbrev pub finished : World → String → PipelineOutcome → ℕ → Engine → Engine
finished w u o calls e = record e {
  rows = write_terminal_outcome (w.epoch_ms e.calls) u o (taken u e) e.rows;
  pipeline_states = erase u e.pipeline_states;
  ack_tracker = (ack u e.ack_tracker).1;
  calls = calls;
}

module _ (w : World) (u : String) (e : Engine) where
  pub preserve_audit_hold_cases {ℓ} :
      (P : Result Bool × Engine → Type ℓ)
      → ((calls : ℕ) → P (err db_failed, record e { calls = calls }))
      → ((calls : ℕ) → is_audited u e.rows ≡ true → P (ok true, landed w u calls e))
      → (is_audited u e.rows ≡ false → P (ok false, tick e))
      → P (preserve_audit_hold w u e)
  unfolding preserve_audit_hold
  preserve_audit_hold_cases P bad held free =
      read_audited_cases w e u (λ r. P (and_then r after_read)) (bad (e.calls + 1))
        (λ h.
          write_outcome_cases w (tick e) u Outcome.audit_held (result_snapshot u e)
            (λ r. P (and_then r (λ _. pure true))) (bad _) (λ calls. held calls h))
        free
    where
      after_read : Bool → M Bool
      after_read audited =
          if audited
          then (do
            snapshot ← gets (result_snapshot u)
            write_outcome w u Outcome.audit_held snapshot
            pure true)
          else pure false

  pub finish_cases {ℓ} :
      (o : PipelineOutcome) (P : Result (Unit {0}) × Engine → Type ℓ)
      → ((calls : ℕ)
          → P (
            err db_failed,
            record e { pipeline_states = erase u e.pipeline_states; calls = calls },
          ))
      → ((calls : ℕ) → P (ok tt, finished w u o calls e))
      → P (finish w u o e)
  unfolding finish take_result clear_acks
  finish_cases o P bad good =
      write_outcome_cases w (record e { pipeline_states = erase u e.pipeline_states }) u o
        (taken u e) (λ r. P (and_then r (λ _. clear_acks u))) (bad _) good

module _ (w : World) (u : String) (e : Engine) where
  -- A terminal path either finds the hold, or finishes the message.
  pub ending_cases {ℓ} :
      (o : PipelineOutcome) (P : Result (Unit {0}) × Engine → Type ℓ)
      → ((states : Map String PipelineState) (calls : ℕ)
          → P (err db_failed, record e { pipeline_states = states; calls = calls }))
      → ((calls : ℕ) → is_audited u e.rows ≡ true → P (ok tt, landed w u calls e))
      → ((calls : ℕ) → is_audited u e.rows ≡ false → P (ok tt, finished w u o calls (tick e)))
      → P ((preserve_audit_hold w u >>= λ held. if held then pure tt else finish w u o) e)
  ending_cases o P bad held done =
      preserve_audit_hold_cases w u e
        (λ r. P (and_then r (λ b. if b then pure tt else finish w u o))) (bad e.pipeline_states)
        held
        (λ free.
          finish_cases w u (tick e) o P (bad (erase u e.pipeline_states))
            (λ calls. done calls free))
