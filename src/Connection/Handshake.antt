-- ===== src/Connection/Handshake.antt =====
-- The handshake of `handle_connection` in src/main.rs, from the first message to the routing slot, and the
-- clean-up when a socket is gone.
pub mod Admission
pub mod Settled
pub mod Slots
pub mod Leaving
use cockatiel_engine_rs.Shared.{
  ℕ, zero, suc, ◌+◌, String, Bool, true, false, ◌&&◌, ◌||◌, not, Option, none, some, List, ◌∷◌,
  if◌then◌else◌, ◌==◌, contains, is_some, map_or, lookup, insert, erase, string_eq, pair_eq,
}
use cockatiel_engine_rs.Shared.Int.{ℤ, to_i32}
use cockatiel_engine_rs.Shared.Text.{is_blank, trim}
use cockatiel_engine_rs.Connection.Hub.{
  Hello, Hub, Answers, Verdict, rejected, accepted, answer_lost, still_drawing,
  process_position_to_string,
}
use cockatiel_engine_rs.Connection.Hub
use cockatiel_engine_rs.Connection.Tokens.{verify_token, generate_auth_token, verify_pin}
use cockatiel_engine_rs.Connection.PinGate.{check, record_failure, record_success, Identity}
use cockatiel_engine_rs.Connection.Sessions.{
  Sessions, AuthSession, remove_other_sessions_named, update_activity, set_peer_loopback,
  claim_socket, insert_session, set_shutdown_if_socket, remove_if_socket,
}
use cockatiel_engine_rs.Connection.Registry.{
  ModuleRegistry, refresh, register_module, find_module, is_known_and_auto_auth,
}
use cockatiel_engine_rs.Connection.Placement.{add_module_to_config}
use cockatiel_engine_rs.Connection.Removed.{clear_name}
use cockatiel_engine_rs.Commands.Routes.{should_shadow}
use cockatiel_engine_rs.Queries.{is_control_surface}

unfoldable pub is_always_trusted : String → Bool
is_always_trusted name =
    name == "cockatiel-tui" || name == "cockatiel-tui-child" || name == "cockatiel-test-runner"

unfoldable pub normalize_capability : (String → String) → String → String
normalize_capability lowercase cap =
    let c = lowercase (trim cap) in
    if c == "input" || c == "inputs" || c == "connection"
    then "input"
    else if c == "preprocess" || c == "pre"
    then "preprocess"
    else if c == "inprocess" || c == "process"
    then "inprocess"
    else if c == "postprocess" || c == "output" || c == "outputs" || c == "display" || c == "post"
    then "postprocess"
    else c

unfoldable pub is_pipeline_stage : String → Bool
is_pipeline_stage p = p == "input" || p == "preprocess" || p == "inprocess" || p == "postprocess"

-- Every clause takes the answers to one handshake.
module _ (a : Answers) where
  unfoldable pub is_valid_token : Hello → Hub → Bool
  is_valid_token h hub =
      verify_token a.jwt hub.secret a.now_secs h.module_instance_uuid7 h.auth_token h.module_name

  unfoldable pub is_stale_control_surface : Hello → Hub → Bool
  is_stale_control_surface h hub =
      not (is_blank h.auth_token)
      && not (is_valid_token h hub)
      && is_control_surface h.module_name
      && verify_pin h.pin hub.pin

  -- The routing slot and the kill switch of a connection that was let in.
  unfoldable pub take_slot : String → String → ℕ → Hub → Hub
  unfolding should_shadow
  take_slot route_name instance_uuid7 socket hub =
      let same_instance =
        map_or (lookup route_name hub.slot_owner) false (λ o. o == instance_uuid7) in
      let live_incumbent =
        map_or (lookup route_name hub.senders) false (λ s. not (a.is_closed s)) in
      let is_shadow = should_shadow live_incumbent same_instance in
      record hub {
        senders = if is_shadow then hub.senders else insert route_name socket hub.senders;
        slot_owner =
            if is_shadow then hub.slot_owner else insert route_name instance_uuid7 hub.slot_owner;
        kill_map = insert instance_uuid7 socket hub.kill_map;
      }

  unfoldable pub session_of : Hello → String → String → String → String → ℤ → AuthSession
  session_of h name uuid token position priority = record {
    module_name = name;
    instance_uuid7 = uuid;
    auth_token = token;
    position = position;
    priority = priority;
    authenticated = true;
    connected_at = some a.now_ms;
    shutdown_at = none;
    last_activity_ms = a.now_ms;
    last_probe_at_ms = 0;
    probe_deadline_ms = 0;
    unresponsive = false;
    peer_loopback = h.peer_loopback;
    socket_token = h.socket_token;
  }

  -- The session of a reconnecting module, rebuilt if the old socket's clean-up has removed it.
  unfoldable pub reclaimed : Hello → Sessions → Sessions
  reclaimed h sessions =
      let u = h.module_instance_uuid7 in
      let kept = (remove_other_sessions_named h.module_name u sessions).1 in
      let claimed =
        claim_socket u h.socket_token a.now_ms
          (set_peer_loopback u h.peer_loopback (update_activity u a.now_ms kept)) in
      if is_some (lookup u claimed)
      then claimed
      else insert_session
          (session_of h h.module_name u h.auth_token (process_position_to_string h.process_position)
            (to_i32 h.priority))
          claimed

  unfoldable pub reconnect : Hello → Hub → Verdict × Hub
  reconnect h hub =
      let route_name =
        map_or (lookup h.module_instance_uuid7 hub.sessions) h.module_name (λ s. s.module_name) in
      let hub' = record hub { sessions = reclaimed h hub.sessions } in
      if not (is_valid_token h hub)
      then (rejected Hub.Reason.bad_token, hub)
      else if a.can_send
      then (
        accepted h.module_instance_uuid7 route_name,
        take_slot route_name h.module_instance_uuid7 h.socket_token hub',
      )
      else (answer_lost, hub')

  -- The manifest's stage, where it declares one, and else the requested position.
  unfoldable pub position_of : Hello → String
  unfolding normalize_capability is_pipeline_stage
  position_of h =
      let requested = process_position_to_string h.process_position in
      let declared =
        map_or (a.manifest_capabilities h.module_name) "" (λ c. a.lowercase (trim c)) in
      let stage = normalize_capability a.lowercase declared in
      if not (is_blank declared) && is_pipeline_stage stage then stage else requested

  unfoldable pub draw_unused : List String → ℕ → ℕ → Option String
  draw_unused known zero n = none
  draw_unused known (suc fuel) n =
      let rest = draw_unused known fuel (n + 1) in
      if contains known (a.draw n) then rest else some (a.draw n)

  unfoldable pub assigned_uuid : Hello → Hub → Option String
  assigned_uuid h hub =
      if is_blank h.requested_uuid || contains hub.known_uuids h.requested_uuid
      then draw_unused hub.known_uuids a.patience 0
      else some h.requested_uuid

  unfoldable pub auto_approves : String → String → ModuleRegistry → Bool
  unfolding is_always_trusted
  auto_approves name uuid registry =
      if is_always_trusted name
      then map_or (find_module name registry) false (λ e. e.instance_uuid7 == uuid)
        || not (is_some (find_module name registry))
      else is_known_and_auto_auth name registry

  unfoldable pub approves : String → String → ModuleRegistry → Bool
  approves name uuid registry =
      auto_approves name uuid registry || map_or a.prompt_answer a.terminal_answer (λ d. d)

  -- The live connection of another instance under the same name is closed and gives its slot up.
  unfoldable pub evict_incumbent : String → String → Hub → Hub
  evict_incumbent name uuid hub =
      let incumbent =
        map_or (lookup name hub.senders) none
          (λ s. if a.is_closed s then none else lookup name hub.slot_owner) in
      map_or incumbent hub (λ inc. if inc == uuid then hub else record hub {
        killed = map_or (lookup inc hub.kill_map) hub.killed (λ k. k ∷ hub.killed);
        senders = erase name hub.senders;
        slot_owner = erase name hub.slot_owner;
      })

  unfoldable pub enrol : Hello → String → Hub → Hub
  enrol h uuid hub =
      let name = h.module_name in
      let priority = to_i32 h.priority in
      let token = generate_auth_token a.jwt hub.secret a.now_secs uuid name in
      let freed = evict_incumbent name uuid hub in
      record freed {
        removed_json = clear_name a.names_json a.can_write name freed.removed_json;
        sessions =
            insert_session (session_of h name uuid token (position_of h) priority)
              (remove_other_sessions_named name uuid freed.sessions).1;
        registry =
            register_module a.registry_json a.can_write
              (record {
                name = name;
                instance_uuid7 = uuid;
                position = position_of h;
                priority = priority;
                auto_auth = true;
                auth_token = token;
              })
              freed.registry;
        config_state =
            add_module_to_config a.config_json a.can_write name (position_of h) priority
              freed.config_state;
      }

  -- A new connection whose PIN was right.
  unfoldable pub introduce : Hello → Hub → Verdict × Hub
  introduce h hub =
      let claimed = trim h.module_name in
      let known = record hub { registry = refresh a.registry_json hub.registry } in
      if is_blank claimed || claimed == "unnamed_module"
      then (rejected Hub.Reason.no_name, hub)
      else elim (assigned_uuid h hub) [
        | none ↦ (still_drawing, hub)
        | some uuid ↦
            if approves h.module_name uuid known.registry
            then (if a.can_send
                then (
                  accepted uuid h.module_name,
                  take_slot h.module_name uuid h.socket_token (enrol h uuid known),
                )
                else (answer_lost, enrol h uuid known))
            else (rejected Hub.Reason.denied, known)
      ]

  unfoldable pub first_contact : Hello → Hub → Verdict × Hub
  first_contact h hub =
      let identity : Identity = (h.peer_ip, h.module_name) in
      if not (check a.now_ms identity hub.pin_gate)
      then (rejected Hub.Reason.locked_out, hub)
      else if not (verify_pin h.pin hub.pin)
      then (
        rejected Hub.Reason.bad_pin,
        record hub { pin_gate = record_failure a.now_ms identity hub.pin_gate },
      )
      else introduce h (record hub { pin_gate = record_success identity hub.pin_gate })

  unfoldable pub handshake : Hello → Hub → Verdict × Hub
  handshake h hub =
      if not (is_blank h.auth_token) && not (is_stale_control_surface h hub)
      then reconnect h hub
      else first_contact h hub

-- The clean-up of a socket that is gone.
unfoldable pub disconnect : String → String → ℕ → ℕ → Hub → Hub
disconnect route_name instance_uuid7 socket now hub =
    let sessions = set_shutdown_if_socket instance_uuid7 now socket hub.sessions in
    let (still_owned, rest) = remove_if_socket instance_uuid7 socket sessions in
    let owns_slot = map_or (lookup route_name hub.slot_owner) false (λ o. o == instance_uuid7) in
    record hub {
      kill_map = erase instance_uuid7 hub.kill_map;
      sessions = rest;
      senders = if still_owned && owns_slot then erase route_name hub.senders else hub.senders;
      slot_owner =
          if still_owned && owns_slot then erase route_name hub.slot_owner else hub.slot_owner;
    }
