-- ===== src/Pipeline/Progress/Ingest.antt =====
-- No message of src/pipeline.rs is stuck after it was inserted, recovered or replayed.
use cockatiel_engine_rs.Pipeline.Pause
use cockatiel_engine_rs.Shared.{
  String, ◌≡◌, refl, inl, inr, Bool, true, false, Option, none, some, [], arith, if◌then◌else◌,
  Bool-cases, Option-cases, ◌==◌, is_some, or_default, map_or, lookup, insert, string_eq,
}
use cockatiel_engine_rs.Pipeline.State.{
  ◌>>=◌, out_of_fuel, World, Engine, M, Result, and_then, err, db_failed, ok, gets, throw, pure,
}
use cockatiel_engine_rs.Pipeline.Sweep.{replay_hold}
use cockatiel_engine_rs.Pipeline.Ingest.{
  insert_and_start, recover_one, insert_row, PipelineMessage, write_rows, redrive, recovered_state,
}
use cockatiel_engine_rs.Pipeline.Progress.{ends, Ends, settled}
use cockatiel_engine_rs.Timeline.{
  Table, insert_event, set_command, set_user_uuid, load_queued_message, QueuedMessage,
}
use cockatiel_engine_rs.Pipeline.Pause.{HoldPoint}
use cockatiel_engine_rs.Pipeline.Progress.Entry.{broadcast_pre_process-Ends, start_in_process-Ends}
use cockatiel_engine_rs.Pipeline.Terminal.{run_statement}
use cockatiel_engine_rs.Pipeline.Progress.Stages.{start_post_process-Ends, absent-settled}
use cockatiel_engine_rs.Pipeline.Terminal.Cases.{tick, run_statement_cases}

-- A step whose only error is the database's.
unfoldable clean : {A : Type 0} → Result A × Engine → Bool
clean (ok a, e) = true
clean (err db_failed, e) = true
clean (err out_of_fuel, e) = false

abbrev Clean : {A : Type 0} → M A → Type 0
Clean m = (e : Engine) → clean (m e) ≡ true

and_then-Ends :
    {A B : Type 0} (u : String) (r : Result A × Engine) (f : A → M B)
    → clean r ≡ true
    → ((a : A) (e : Engine) → Ends u (f a e))
    → Ends u (and_then r f)
unfolding clean ends
and_then-Ends u (ok a, e) f c every = every a e
and_then-Ends u (err db_failed, e) f c every = refl
and_then-Ends u (err out_of_fuel, e) f c every = c

and_then-clean :
    {A B : Type 0} (r : Result A × Engine) (f : A → M B)
    → clean r ≡ true
    → ((a : A) → Clean (f a))
    → clean (and_then r f) ≡ true
unfolding clean
and_then-clean (ok a, e) f c every = every a e
and_then-clean (err db_failed, e) f c every = refl
and_then-clean (err out_of_fuel, e) f c every = c

map_or-Clean :
    {A B : Type 0} (o : Option A) (m : M B) (f : A → M B)
    → Clean m
    → ((a : A) → Clean (f a))
    → Clean (map_or o m f)
map_or-Clean none m f h k e = h e
map_or-Clean (some a) m f h k e = k a e

if-Clean : {A : Type 0} (b : Bool) (m n : M A) → Clean m → Clean n → Clean (if b then m else n)
if-Clean true m n h k e = h e
if-Clean false m n h k e = k e

pub and_pure-Ends :
    {A B : Type 0} (u : String) (b : B) (r : Result A × Engine)
    → Ends u r
    → Ends u (and_then r (λ _. pure b))
unfolding ends
and_pure-Ends u b (ok a, e) h = h
and_pure-Ends u b (err db_failed, e) h = refl
and_pure-Ends u b (err out_of_fuel, e) h = h

module _ (w : World) where
  run_statement-Clean : Clean (run_statement w)
  unfolding clean
  run_statement-Clean e = run_statement_cases w e (λ r. clean r ≡ true) refl refl

  write-Clean : (f : Table → Table) → Clean (run_statement w >>= λ _. write_rows f)
  unfolding clean
  write-Clean f e =
      and_then-clean (run_statement w e) (λ _. write_rows f) (run_statement-Clean e) (λ _ e'. refl)

  insert_row-Clean : (msg : PipelineMessage) → Clean (insert_row w msg)
  unfolding insert_row clean
  insert_row-Clean msg e = and_then-clean (run_statement w e) _ (run_statement-Clean e) (λ _ e'.
      map_or-Clean
        (insert_event msg.uuid7 msg.event_type msg.platform [] msg.raw_message
          (or_default msg.command "") (or_default msg.flags "{}") e'.rows)
        (throw db_failed) (λ t. write_rows (λ _. t)) (λ _. refl) (λ t e2. refl) e')

  -- From any state of the engine, a new message that is inserted is not stuck afterwards: it ends with
  -- a module that owes it an answer, a pause that holds it, no place in the pipeline, or a row held for
  -- audit, unless a statement of the database failed.
  pub insert_and_start-Ends :
      (msg : PipelineMessage) (e : Engine) → Ends msg.uuid7 (insert_and_start w msg e)
  unfolding insert_and_start clean
  insert_and_start-Ends msg e =
      and_then-Ends msg.uuid7 (insert_row w msg e) _ (insert_row-Clean msg e) λ _ e1.
        and_then-Ends msg.uuid7 _ _
          (map_or-Clean msg.command (pure tt)
            (λ c. run_statement w >>= λ _. write_rows (set_command msg.uuid7 c)) (λ _. refl)
            (λ c. write-Clean (set_command msg.uuid7 c)) e1)
          λ _ e2.
            and_then-Ends msg.uuid7 _ _
              (if-Clean (msg.user_uuid7 == "") (pure tt)
                (run_statement w >>= λ _. write_rows (set_user_uuid msg.uuid7 msg.user_uuid7))
                (λ _. refl) (write-Clean (set_user_uuid msg.uuid7 msg.user_uuid7)) e2)
              λ _ e3. broadcast_pre_process-Ends w msg.uuid7 _

  -- The replay of a hold, at whichever point the message was held and from any state of the engine, comes
  -- to an end: either a statement of the database failed, or afterwards a module owes the message an
  -- answer, or a pause holds it, or it has left the pipeline, or its row is held for audit.
  pub replay_hold-Ends :
      (u : String) (point : HoldPoint) (e : Engine) → Ends u (replay_hold w u point e)
  unfolding replay_hold
  replay_hold-Ends u Pause.entry e = broadcast_pre_process-Ends w u e
  replay_hold-Ends u Pause.in_process e = start_in_process-Ends w u e
  replay_hold-Ends u Pause.post_process e = start_post_process-Ends w u e

  redrive-Ends : (u : String) (msg : QueuedMessage) (e : Engine) → Ends u (redrive w u msg e)
  unfolding redrive
  redrive-Ends u msg e = and_pure-Ends u true _ (
      broadcast_pre_process-Ends w u
        (record e { pipeline_states = insert u (recovered_state u msg) e.pipeline_states }))

  -- If a message is not stuck (a module owes it an answer, or a pause holds it, or it is not in the
  -- pipeline, or its row is held for audit), `recover_one` of it comes to an end, and it is not stuck
  -- afterwards either, unless a statement of the database failed.
  pub recover_one-Ends : (u : String) (e : Engine) → settled u e ≡ true → Ends u (recover_one w u e)
  unfolding recover_one ends
  recover_one-Ends u e before = elim (Bool-cases (is_some (lookup u e.pipeline_states))) [
    | inl h ↦ rw (h, recover_one) before
    | inr h ↦
        rw (h, recover_one)
          (run_statement_cases w e (λ r. Ends u (and_then r (λ _. after))) (by_row h) refl)
  ]
    where
      after : M Bool
      after =
          gets (λ e. load_queued_message u e.rows) >>= λ row. map_or row (pure false) (redrive w u)

      by_row : is_some (lookup u e.pipeline_states) ≡ false → Ends u (after (tick e))
      by_row h = elim (Option-cases (load_queued_message u e.rows)) [
        | inl k ↦ rw k (absent-settled u (tick e) (ground (arith, h)))
        | inr (msg, k) ↦ rw k (redrive-Ends u msg (tick e))
      ]
