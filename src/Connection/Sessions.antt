-- ===== src/Connection/Sessions.antt =====
-- `AuthStore` of src/auth.rs: the sessions of the connected modules, each bound to a socket.
-- Times are milliseconds since the epoch.
pub mod Sockets
use cockatiel_engine_rs.Shared.{
  ℕ, ◌+◌, ◌-◌, String, Bool, true, false, ◌&&◌, not, Option, none, some, List, [], ◌∷◌, map, ltb,
  leb, nat_beq, if◌then◌else◌, ◌==◌, length, keep, Map, map_or, lookup, insert, erase, adjust,
  retain, string_eq,
}
use cockatiel_engine_rs.Shared.Int.{ℤ}

pub record AuthSession : Type 0 where
  pub module_name : String
  pub instance_uuid7 : String
  pub auth_token : String
  pub position : String
  pub priority : ℤ
  pub authenticated : Bool
  pub connected_at : Option ℕ
  pub shutdown_at : Option ℕ
  pub last_activity_ms : ℕ
  pub last_probe_at_ms : ℕ
  pub probe_deadline_ms : ℕ
  pub unresponsive : Bool
  pub peer_loopback : Bool
  pub socket_token : ℕ

abbrev pub Sessions : Type 0
Sessions = Map String AuthSession

unfoldable pub insert_session : AuthSession → Sessions → Sessions
insert_session s m = insert s.instance_uuid7 s m

unfoldable pub is_authenticated : String → Sessions → Bool
is_authenticated u m = map_or (lookup u m) false (λ s. s.authenticated)

unfoldable pub update_activity : String → ℕ → Sessions → Sessions
update_activity u now = adjust u (λ s. record s { last_activity_ms = now; probe_deadline_ms = 0 })

unfoldable pub set_peer_loopback : String → Bool → Sessions → Sessions
set_peer_loopback u peer_loopback = adjust u (λ s. record s { peer_loopback = peer_loopback })

abbrev pub rebound : ℕ → ℕ → AuthSession → AuthSession
rebound socket now s = record s {
  socket_token = socket;
  connected_at = some now;
  shutdown_at = none;
  last_activity_ms = now;
  probe_deadline_ms = 0;
  unresponsive = false;
}

unfoldable pub claim_socket : String → ℕ → ℕ → Sessions → Sessions
claim_socket u socket now = adjust u (rebound socket now)

unfoldable pub is_bound : String → ℕ → Sessions → Bool
is_bound u socket m = map_or (lookup u m) false (λ s. nat_beq s.socket_token socket)

unfoldable pub remove_if_socket : String → ℕ → Sessions → Bool × Sessions
unfolding is_bound
remove_if_socket u socket m = if is_bound u socket m then (true, erase u m) else (false, m)

unfoldable pub set_shutdown_if_socket : String → ℕ → ℕ → Sessions → Sessions
set_shutdown_if_socket u now socket =
    adjust u (λ s. if nat_beq s.socket_token socket then record s { shutdown_at = some now } else s)

unfoldable pub mark_probed : String → ℕ → ℕ → Sessions → Sessions
mark_probed u now deadline =
    adjust u (λ s. record s { last_probe_at_ms = now; probe_deadline_ms = deadline })

unfoldable pub mark_unresponsive : String → Sessions → Sessions
mark_unresponsive u = adjust u (λ s. record s { unresponsive = true; probe_deadline_ms = 0 })

-- `now - t < max_age`, in signed arithmetic, written without the subtraction.
abbrev pub is_recent : ℕ → ℕ → AuthSession → Bool
is_recent now max_age s = map_or s.shutdown_at true (λ t. ltb now (max_age + t))

unfoldable pub sweep_shutdown_sessions : ℕ → ℕ → Sessions → Sessions
sweep_shutdown_sessions now max_age = retain (λ _ s. is_recent now max_age s)

unfoldable pub values : Sessions → List AuthSession
values = map (λ p. p.1)

abbrev pub is_other_named : String → String → String → AuthSession → Bool
is_other_named name kept u s = s.module_name == name && not (u == kept)

unfoldable pub remove_other_sessions_named : String → String → Sessions → ℕ × Sessions
remove_other_sessions_named name kept m =
    let rest = retain (λ u s. not (is_other_named name kept u s)) m in
    (length m - length rest, rest)

abbrev pub connected_key : AuthSession → ℕ
connected_key s = map_or s.connected_at 0 (λ t. t)

-- `max_by_key`: of several with the greatest key the last one.
unfoldable pub newest : Option AuthSession → List AuthSession → Option AuthSession
newest best [] = best
newest best (s ∷ ss) =
    newest
      (map_or best (some s)
        (λ b. if leb (connected_key b) (connected_key s) then some s else some b))
      ss

unfoldable pub find_by_module : String → Sessions → Option (String × ℕ)
unfolding values newest
find_by_module name m =
    map_or (newest none (keep (λ s. s.module_name == name) (values m))) none
      (λ s. some (s.instance_uuid7, s.last_activity_ms))
