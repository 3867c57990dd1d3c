-- ===== src/Connection/Handshake/Admission.antt =====
-- Who is let in by the handshake of src/main.rs, and what a refusal changes.
use cockatiel_engine_rs.Shared.Text.{is_blank, trim}
use cockatiel_engine_rs.Shared.{
  String, ◌≡◌, refl, Bool, true, false, ◌&&◌, ◌||◌, not, Option, none, some, arith, eq_refl, ◌==◌,
  map_or, string_eq,
}
use cockatiel_engine_rs.Connection.Hub.{Answers, Hello, Hub, accepted, Reason, rejected}
use cockatiel_engine_rs.Connection.Registry.{ModuleRegistry, refresh, RegisteredModule, find_module}
use cockatiel_engine_rs.Connection.Handshake.{
  introduce, is_valid_token, handshake, reconnect, first_contact, is_stale_control_surface,
  approves, assigned_uuid, auto_approves, is_always_trusted,
}
use cockatiel_engine_rs.Connection.PinGate.{PinGate, record_success, check, record_failure}
use cockatiel_engine_rs.Connection.Tokens.{verify_pin}

module _ (a : Answers) (h : Hello) (hub : Hub) where
  -- The registry as the handshake finds it in the file.
  abbrev pub known : ModuleRegistry
  known = refresh a.registry_json hub.registry

  -- What lets a connection in as the instance `u`: a valid token of that instance under that name, or the right PIN
  -- from a peer that is not locked out, with a name, and an approval.
  abbrev pub is_entitled : String → Bool
  is_entitled u =
      is_valid_token a h hub && not (is_blank h.auth_token) && h.module_instance_uuid7 == u
      || check a.now_ms (h.peer_ip, h.module_name) hub.pin_gate
        && verify_pin h.pin hub.pin
        && not (is_blank (trim h.module_name))
        && not (trim h.module_name == "unnamed_module")
        && approves a h.module_name u known

  introduce-accepted :
      (g : PinGate) (u r : String)
      → (introduce a h (record hub { pin_gate = g })).0 ≡ accepted u r
      → (not (is_blank (trim h.module_name))
          && not (trim h.module_name == "unnamed_module")
          && approves a h.module_name u known)
        ≡ true
  unfolding introduce
  introduce-accepted g u r e = by_uuid (assigned_uuid a h (record hub { pin_gate = g })) refl
    where
      by_uuid :
          (o : Option String)
          → assigned_uuid a h (record hub { pin_gate = g }) ≡ o
          → (not (is_blank (trim h.module_name))
              && not (trim h.module_name == "unnamed_module")
              && approves a h.module_name u known)
            ≡ true
      by_uuid none f = absurd (ground (arith, e, f))
      by_uuid (some v) f = ground (arith, e, f)

  -- A connection is accepted only as an instance that it is entitled to.
  pub handshake-accepted :
      (u r : String) → (handshake a h hub).0 ≡ accepted u r → is_entitled u ≡ true
  unfolding handshake reconnect first_contact is_stale_control_surface
  handshake-accepted u r e = ground (
    arith,
    e,
    eq_refl u,
    introduce-accepted (record_success (h.peer_ip, h.module_name) hub.pin_gate) u r,
  )

  -- A name of the control surface that is registered with an instance lets no other instance in by name alone: unless the
  -- operator agrees, a connection under that name is accepted as another instance only with a valid
  -- token of that instance.
  pub handshake-pinned :
      (u r : String) (e : RegisteredModule)
      → is_always_trusted h.module_name ≡ true
      → find_module h.module_name known ≡ some e
      → (e.instance_uuid7 == u) ≡ false
      → map_or a.prompt_answer a.terminal_answer (λ d. d) ≡ false
      → (handshake a h hub).0 ≡ accepted u r
      → (is_valid_token a h hub && h.module_instance_uuid7 == u) ≡ true
  unfolding approves auto_approves
  handshake-pinned u r e trusted registered other refused ok =
      ground (arith, handshake-accepted u r ok)

  -- What a refusal leaves, by its reason.
  abbrev pub after : Reason → Hub
  after Reason.bad_token = hub
  after Reason.locked_out = hub
  after Reason.bad_pin = record hub {
    pin_gate = record_failure a.now_ms (h.peer_ip, h.module_name) hub.pin_gate;
  }
  after Reason.no_name = record hub {
    pin_gate = record_success (h.peer_ip, h.module_name) hub.pin_gate;
  }
  after Reason.denied = record hub {
    pin_gate = record_success (h.peer_ip, h.module_name) hub.pin_gate;
    registry = known;
  }

  introduce-rejected :
      (why : Reason)
      → (introduce a h
          (record hub { pin_gate = record_success (h.peer_ip, h.module_name) hub.pin_gate })).0
        ≡ rejected why
      → (introduce a h
          (record hub { pin_gate = record_success (h.peer_ip, h.module_name) hub.pin_gate })).1
        ≡ after why
  unfolding introduce
  introduce-rejected why e =
      by_uuid
        (assigned_uuid a h
          (record hub { pin_gate = record_success (h.peer_ip, h.module_name) hub.pin_gate }))
        refl
    where
      by_uuid :
          (o : Option String)
          → assigned_uuid a h
              (record hub { pin_gate = record_success (h.peer_ip, h.module_name) hub.pin_gate })
            ≡ o
          → (introduce a h
              (record hub { pin_gate = record_success (h.peer_ip, h.module_name) hub.pin_gate })).1
            ≡ after why
      by_uuid none f = ground (arith, e, f)
      by_uuid (some v) f = ground (arith, e, f)

  -- A refusal lets nothing of the connection into the engine: the sessions, the routing slots, the kill switches, the
  -- configuration and the deleted names are as before. A wrong PIN is counted, a right one clears the count, and the
  -- registry changes only by being read again.
  pub handshake-rejected :
      (why : Reason) → (handshake a h hub).0 ≡ rejected why → (handshake a h hub).1 ≡ after why
  unfolding handshake reconnect first_contact
  handshake-rejected why e = ground (arith, e, introduce-rejected why)
