-- ===== src/Tests/Probing.antt =====
-- A silent module of src/main.rs, asked after five seconds: with five seconds to answer, and with fifteen.
use cockatiel_engine_rs.Shared.{ℕ, ◌≡◌, refl, true, false, none, some, [], ◌∷◌, arith}
use cockatiel_engine_rs.Shared.Int.{pos}
use cockatiel_engine_rs.Connection.Sessions.{AuthSession}
use cockatiel_engine_rs.Connection.Probe.{probed_at}
use cockatiel_engine_rs.Connection.Probe.Silence.{probed_at-silent, probed_at-patient}

abbrev silent_since : ℕ → ℕ → ℕ → AuthSession
silent_since activity probe deadline = record {
  module_name = "tts";
  instance_uuid7 = "u1";
  auth_token = "t";
  position = "postprocess";
  priority = pos 5;
  authenticated = true;
  connected_at = some 10;
  shutdown_at = none;
  last_activity_ms = activity;
  last_probe_at_ms = probe;
  probe_deadline_ms = deadline;
  unresponsive = false;
  peer_loopback = true;
  socket_token = 1;
}

probed_at-silent_example :
    ((probed_at 5000 5000 (6000 ∷ 8000 ∷ 10000 ∷ []) (silent_since 1000 0 0)).unresponsive ≡ false)
    × ((probed_at 5000 5000 (6000 ∷ 8000 ∷ 10000 ∷ 12000 ∷ []) (silent_since 1000 0 0)).unresponsive
        ≡ true)
probed_at-silent_example =
    probed_at-silent 5000 5000 6000 12000 (8000 ∷ 10000 ∷ []) (silent_since 1000 0 0) refl refl
      (omega arith) (omega arith) (omega arith) (omega arith) refl (omega arith)

probed_at-patient_example :
    (probed_at 5000 15000
      (8000 ∷ 10000 ∷ 12000 ∷ 14000 ∷ [])
      (silent_since 1000 6000 21000)).unresponsive
    ≡ false
probed_at-patient_example =
    probed_at-patient 5000 15000 2000 6000 (8000 ∷ 10000 ∷ 12000 ∷ 14000 ∷ [])
      (silent_since 1000 6000 21000) (omega arith) (omega arith) refl (omega arith) (omega arith)
      refl refl
