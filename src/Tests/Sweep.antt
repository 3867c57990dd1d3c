-- ===== src/Tests/Sweep.antt =====
-- The theorems about the sweep and the resume, at the sample engine.
use cockatiel_engine_rs.Pipeline.Pause
use cockatiel_engine_rs.Pipeline.State.{◌>>◌, Engine, pure}
use cockatiel_engine_rs.Shared.{◌≡◌, refl, true, false, [], ◌∷◌, arith}
use cockatiel_engine_rs.Pipeline.Sweep.{resume, replay_all}
use cockatiel_engine_rs.Tests.Samples.{sample_world, paused_engine}
use cockatiel_engine_rs.Pipeline.Pause.{default_pause}
use cockatiel_engine_rs.Pipeline.Sweep.Resume.{swept, resume_lem}

-- "m2" is held before the post-process stage, while "filter" owes its answer for "m1".
abbrev holding_engine : Engine
holding_engine = record paused_engine {
  pause_state = record default_pause { paused = true; held = ("m2", Pause.post_process) ∷ [] };
}

resume_lem_example :
    resume sample_world holding_engine
    ≡ (replay_all sample_world (("m2", Pause.post_process) ∷ [])
          >> pure (record { was_paused = true; resumed_messages = 1; sweep_failed = false }))
        (swept sample_world holding_engine)
resume_lem_example = resume_lem sample_world holding_engine refl ((ground arith, tt), tt)
