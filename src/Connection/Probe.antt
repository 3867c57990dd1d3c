-- ===== src/Connection/Probe.antt =====
-- The task of src/main.rs that asks silent modules for a sign of life, and closes those that give none. Times are
-- milliseconds; `u32` products wrap, as in a release build.
pub mod Silence
pub mod Turn
use cockatiel_engine_rs.Shared.{
  ℕ, ◌+◌, ◌*◌, ◌%◌, ◌^◌, String, true, ◌&&◌, List, [], ◌∷◌, ltb, leb, if◌then◌else◌, Map, map_or,
  lookup, string_eq,
}
use cockatiel_engine_rs.Connection.Sessions.{
  AuthSession, Sessions, mark_probed, mark_unresponsive, sweep_shutdown_sessions, values,
}

-- The two limits of a manifest, in seconds; zero is none.
pub record Limits : Type 0 where
  pub unresponsive_timeout_secs : ℕ
  pub probe_response_secs : ℕ

abbrev or_configured : ℕ → ℕ → ℕ
or_configured own configured = if ltb 0 own then own else configured

-- What a module's manifest asks for, or else what is configured.
unfoldable pub limits_for : Map String Limits → Limits → String → Limits
limits_for discovered configured name = map_or (lookup name discovered) configured (λ d. record {
  unresponsive_timeout_secs =
      or_configured d.unresponsive_timeout_secs configured.unresponsive_timeout_secs;
  probe_response_secs = or_configured d.probe_response_secs configured.probe_response_secs;
})

unfoldable pub to_ms : ℕ → ℕ
to_ms secs = secs * 1000 % 2 ^ 32

pub data Decision : Type 0 where
  leave flag ask_again : Decision

-- What the loop does with one session.
unfoldable pub decide : ℕ → ℕ → ℕ → AuthSession → Decision
decide now interval_ms response_ms s =
    if s.unresponsive
    then leave
    else if ltb 0 s.probe_deadline_ms && leb s.probe_deadline_ms now
    then flag
    else if leb (s.last_activity_ms + interval_ms) now && leb (s.last_probe_at_ms + interval_ms) now
    then ask_again
    else leave

-- The sessions, the sockets that were told to close, and the modules that were asked.
pub record Probing : Type 0 where
  pub sessions : Sessions
  pub killed : List ℕ
  pub asked : List String

unfoldable pub carry_out : Map String ℕ → ℕ → ℕ → AuthSession → Decision → Probing → Probing
carry_out kill_map now response_ms s leave p = p
carry_out kill_map now response_ms s flag p = record p {
  sessions = mark_unresponsive s.instance_uuid7 p.sessions;
  killed = map_or (lookup s.instance_uuid7 kill_map) p.killed (λ socket. socket ∷ p.killed);
}
carry_out kill_map now response_ms s ask_again p = record p {
  sessions = mark_probed s.instance_uuid7 now (now + response_ms) p.sessions;
  asked = s.module_name ∷ p.asked;
}

module _ (discovered : Map String Limits) (configured : Limits) (kill_map : Map String ℕ) where
  unfoldable pub probe_each : ℕ → List AuthSession → Probing → Probing
  unfolding limits_for to_ms decide carry_out
  probe_each now [] p = p
  probe_each now (s ∷ rest) p =
      let limits = limits_for discovered configured s.module_name in
      let response_ms = to_ms limits.probe_response_secs in
      let decision = decide now (to_ms limits.unresponsive_timeout_secs) response_ms s in
      probe_each now rest (carry_out kill_map now response_ms s decision p)

  -- One turn of the task.
  unfoldable pub probe_tick : ℕ → Probing → Probing
  unfolding probe_each
  probe_tick now p =
      let swept = sweep_shutdown_sessions now 60000 p.sessions in
      probe_each now (values swept) (record p { sessions = swept })

-- The session itself, as `mark_unresponsive` and `mark_probed` leave it.
unfoldable pub after_decision : ℕ → ℕ → Decision → AuthSession → AuthSession
after_decision now response_ms leave s = s
after_decision now response_ms flag s = record s { unresponsive = true; probe_deadline_ms = 0 }
after_decision now response_ms ask_again s = record s {
  last_probe_at_ms = now;
  probe_deadline_ms = now + response_ms;
}

unfoldable pub probed : ℕ → ℕ → ℕ → AuthSession → AuthSession
unfolding decide after_decision
probed interval_ms response_ms now s =
    after_decision now response_ms (decide now interval_ms response_ms s) s

-- The session after turns at the given times.
unfoldable pub probed_at : ℕ → ℕ → List ℕ → AuthSession → AuthSession
probed_at interval_ms response_ms [] s = s
probed_at interval_ms response_ms (t ∷ ts) s =
    probed_at interval_ms response_ms ts (probed interval_ms response_ms t s)
