-- ===== src/Pipeline/Advance.antt =====
-- `handle_ack` of src/pipeline.rs, and how a message leaves one stage for the next: the completion
-- stamps, the refreshed user data, the next index. The sweep takes the same step.
use cockatiel_engine_rs.Shared.{
  ℕ, String, ◌&&◌, not, some, leb, if◌then◌else◌, ◌==◌, length, is_some, map_or, lookup, adjust,
  string_eq,
}
use cockatiel_engine_rs.Pipeline.State.{
  World, PipelineState, M, modify, ◌>>=◌, gets, ask, pure, ◌>>◌,
}
use cockatiel_engine_rs.Pipeline.Ack.{ack_module, Acked, AckTracker}
use cockatiel_engine_rs.Pipeline.Dispatch.{start_post_process, next_index, start_in_process}
use cockatiel_engine_rs.Pipeline.Timing.{record_timing}
use cockatiel_engine_rs.Pipeline.Terminal.{mark_complete}

-- `states.get_mut(uuid7)` and a change of the state, if it is there.
abbrev pub update_state : String → (PipelineState → PipelineState) → M (Unit {0})
update_state uuid7 f = modify (λ e. record e { pipeline_states = adjust uuid7 f e.pipeline_states })

module _ (w : World) where
  unfoldable pub note_pre_process_completed : String → M (Unit {0})
  note_pre_process_completed uuid7 = do
    now ← ask w.epoch_ms
    update_state uuid7 (λ s. record s { pre_process_completed_at = some now })

  unfoldable pub note_in_process_completed : String → M (Unit {0})
  note_in_process_completed uuid7 = do
    now ← ask w.epoch_ms
    update_state uuid7 (λ s. record s { in_process_completed_at = some now })

  -- `enrich_chat_user` is another part's, and its answer is the world's.
  unfoldable pub refresh_with : String → PipelineState → M (Unit {0})
  refresh_with uuid7 s = do
    enriched ← ask (λ n. w.enrich_chat_user n s.platform s.user_uuid7 s.raw_data)
    if is_some enriched
        then update_state uuid7 (λ s. record s { user_data = enriched })
        else pure tt

  unfoldable pub refresh_user_data : String → M (Unit {0})
  unfolding refresh_with
  refresh_user_data uuid7 = do
    found ← gets (λ e. lookup uuid7 e.pipeline_states)
    if w.user_db_wired
        then map_or found (pure tt)
            (λ s. if s.user_uuid7 == "" then pure tt else refresh_with uuid7 s)
        else pure tt

  unfoldable pub start_next : String → ℕ → M (Unit {0})
  unfolding refresh_user_data start_post_process start_in_process
  start_next uuid7 i = do
    modules ← gets (λ e. e.config.in_process_modules)
    if leb (length modules) i
        then (do refresh_user_data uuid7; start_post_process w uuid7)
        else start_in_process w uuid7

  -- The branches of the `match` on the stage that is done.
  unfoldable pub advance_stage : String → String → M (Unit {0})
  unfolding note_pre_process_completed note_in_process_completed next_index start_next
      start_in_process mark_complete
  advance_stage uuid7 stage =
      if stage == "pre_process"
      then (do note_pre_process_completed uuid7; start_in_process w uuid7)
      else if stage == "in_process"
      then (do
        note_in_process_completed uuid7
        next ← next_index uuid7
        map_or next (pure tt) (start_next uuid7))
      else if stage == "post_process"
      then mark_complete w uuid7
      else pure tt

  -- `ack_module` has answered: the sample is recorded, and the stage is left once no module of it
  -- owes an answer. An in-process stage has one module at a time, and does not look.
  unfoldable pub acknowledged : String → String → Acked × AckTracker → M (Unit {0})
  unfolding advance_stage record_timing
  acknowledged uuid7 m (a, t) = do
    modify (λ e. record e {
      ack_tracker = t;
      module_timings = record_timing m a.elapsed e.module_timings;
    })
    if a.still_pending && not (a.stage == "in_process")
        then pure tt
        else advance_stage uuid7 a.stage

  unfoldable pub handle_ack : String → String → M (Unit {0})
  unfolding acknowledged ack_module
  handle_ack uuid7 m = do
    now ← ask w.now
    answer ← gets (λ e. ack_module now uuid7 m e.ack_tracker)
    map_or answer (pure tt) (acknowledged uuid7 m)
