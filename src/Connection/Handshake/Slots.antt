-- ===== src/Connection/Handshake/Slots.antt =====
-- The session and the routing slot of a connection that the handshake of src/main.rs let in.
use cockatiel_engine_rs.Shared.Text.{is_blank}
use cockatiel_engine_rs.Shared.{
  ℕ, String, ◌≡◌, refl, ◌⊎◌, inl, inr, true, false, ◌&&◌, not, Option, none, some, arith,
  Bool-cases, eq_refl, ◌==◌, is_some, map_or, lookup, lookup-insert, lookup-erase, Distinct,
  string_eq,
}
use cockatiel_engine_rs.Connection.Hub.{Answers, Hello, Hub, accepted}
use cockatiel_engine_rs.Connection.PinGate.{record_success}
use cockatiel_engine_rs.Connection.Handshake.{
  take_slot, handshake, reconnect, introduce, reclaimed, first_contact, enrol,
  is_stale_control_surface, assigned_uuid, evict_incumbent, position_of,
}
use cockatiel_engine_rs.Connection.Registry.{refresh}
use cockatiel_engine_rs.Connection.Handshake.Settled.{
  Holds, evict_incumbent-sessions, reclaimed-Holds, entered, kept-Distinct, kept_alone,
}
use cockatiel_engine_rs.Commands.Routes.{should_shadow}
use cockatiel_engine_rs.Connection.Tokens.{generate_auth_token}
use cockatiel_engine_rs.Shared.Int.{to_i32}
use cockatiel_engine_rs.Connection.Sessions.{remove_other_sessions_named}

-- Who has a slot has an owner on record.
abbrev pub IsOwned : String → Hub → Type 0
IsOwned n b = is_some (lookup n b.senders) ≡ true → is_some (lookup n b.slot_owner) ≡ true

module _ (a : Answers) where
  freed_slot :
      (n u : String) (b : Hub)
      → IsOwned n b
      → should_shadow
          (map_or (lookup n (evict_incumbent a n u b).senders) false (λ s. not (a.is_closed s)))
          (map_or (lookup n (evict_incumbent a n u b).slot_owner) false (λ o. o == u))
        ≡ false
  unfolding evict_incumbent should_shadow
  freed_slot n u b owned = by_slot (lookup n b.senders) (lookup n b.slot_owner) refl refl
    where
      by_slot :
          (s : Option ℕ) (o : Option String)
          → lookup n b.senders ≡ s
          → lookup n b.slot_owner ≡ o
          → should_shadow
              (map_or (lookup n (evict_incumbent a n u b).senders) false (λ s. not (a.is_closed s)))
              (map_or (lookup n (evict_incumbent a n u b).slot_owner) false (λ o. o == u))
            ≡ false
      by_slot none o hs ho = ground (arith, hs, ho)
      by_slot (some s) none hs ho = ground (arith, hs, ho, owned)
      by_slot (some s) (some o) hs ho =
          ground
            (arith, hs, ho, lookup-erase n n b.senders, lookup-erase n n b.slot_owner, eq_refl n)

module _ (a : Answers) (h : Hello) (hub : Hub) where
  abbrev welcomed : Hub
  welcomed = record hub {
    pin_gate = record_success (h.peer_ip, h.module_name) hub.pin_gate;
    registry = refresh a.registry_json hub.registry;
  }

  abbrev reclaimed_hub : Hub
  reclaimed_hub = record hub { sessions = reclaimed a h hub.sessions }

  abbrev AsBefore : String → String → Hub → Type 0
  AsBefore u r hub' =
      (u ≡ h.module_instance_uuid7) × (hub' ≡ take_slot a r u h.socket_token reclaimed_hub)

  abbrev AsNew : String → String → Hub → Type 0
  AsNew u r hub' =
      (r ≡ h.module_name) × (hub' ≡ take_slot a r u h.socket_token (enrol a h u welcomed))

  introduce-AsNew :
      (u r : String)
      → (introduce a h
          (record hub { pin_gate = record_success (h.peer_ip, h.module_name) hub.pin_gate })).0
        ≡ accepted u r
      → AsNew u r
          (introduce a h
            (record hub { pin_gate = record_success (h.peer_ip, h.module_name) hub.pin_gate })).1
  unfolding introduce
  introduce-AsNew u r e =
      by_uuid
        (assigned_uuid a h
          (record hub { pin_gate = record_success (h.peer_ip, h.module_name) hub.pin_gate }))
        refl
    where
      by_uuid :
          (o : Option String)
          → assigned_uuid a h
              (record hub { pin_gate = record_success (h.peer_ip, h.module_name) hub.pin_gate })
            ≡ o
          → AsNew u r
              (introduce a h (record hub {
                pin_gate = record_success (h.peer_ip, h.module_name) hub.pin_gate;
              })).1
      by_uuid none f = absurd (ground (arith, e, f))
      by_uuid (some v) f = (ground (arith, e, f), ground (arith, e, f))

  reconnect-AsBefore :
      (u r : String) → (reconnect a h hub).0 ≡ accepted u r → AsBefore u r (reconnect a h hub).1
  unfolding reconnect
  reconnect-AsBefore u r e = (ground (arith, e), ground (arith, e))

  handshake-cases :
      (u r : String)
      → (handshake a h hub).0 ≡ accepted u r
      → AsBefore u r (handshake a h hub).1 ⊎ AsNew u r (handshake a h hub).1
  unfolding handshake first_contact
  handshake-cases u r e =
      elim (Bool-cases (not (is_blank h.auth_token) && not (is_stale_control_surface a h hub))) [
        | inl old ↦ inl (rw old (reconnect-AsBefore u r (rw old at e)))
        | inr new ↦ inr (ground (arith, new, e, introduce-AsNew u r))
      ]

  enrol-sessions :
      (u : String)
      → Distinct hub.sessions
      → Holds u h.module_name h.socket_token (enrol a h u welcomed).sessions
  unfolding enrol
  enrol-sessions u d = rw (evict_incumbent-sessions a h h.module_name u welcomed) (
      entered a h h.module_name u (generate_auth_token a.jwt hub.secret a.now_secs u h.module_name)
        (position_of a h) (to_i32 h.priority)
        (remove_other_sessions_named h.module_name u hub.sessions).1
        (kept-Distinct a h h.module_name u hub.sessions d)
        (λ v other. kept_alone a h h.module_name u v hub.sessions d other))

  switch-take_slot :
      (r u : String) (socket : ℕ) (b : Hub)
      → lookup u (take_slot a r u socket b).kill_map ≡ some socket
  unfolding take_slot
  switch-take_slot r u socket b = rw (lookup-insert u u socket b.kill_map, eq_refl u)

  take_slot-sessions :
      (r u : String) (socket : ℕ) (b : Hub) → (take_slot a r u socket b).sessions ≡ b.sessions
  unfolding take_slot
  take_slot-sessions r u socket b = refl

  -- A connection that was let in has a session on its own socket, which is not shut down, and is the only one with a session of its
  -- name; and its kill switch is the one under its identifier.
  pub handshake-Holds :
      (u r : String)
      → Distinct hub.sessions
      → (handshake a h hub).0 ≡ accepted u r
      → Holds u h.module_name h.socket_token (handshake a h hub).1.sessions
        × (lookup u (handshake a h hub).1.kill_map ≡ some h.socket_token)
  unfolding take_slot reclaimed
  handshake-Holds u r d e = elim (handshake-cases u r e) [
    | inl (same, then_hub) ↦
        rw (then_hub, same)
          (
            reclaimed-Holds a h hub.sessions d,
            switch-take_slot r h.module_instance_uuid7 h.socket_token reclaimed_hub,
          )
    | inr (named, then_hub) ↦
        rw then_hub (enrol-sessions u d, switch-take_slot r u h.socket_token (enrol a h u welcomed))
  ]

  enrol-freed :
      (u : String)
      → (enrol a h u welcomed).senders ≡ (evict_incumbent a h.module_name u welcomed).senders
  unfolding enrol
  enrol-freed u = refl

  enrol-freed_owner :
      (u : String)
      → (enrol a h u welcomed).slot_owner ≡ (evict_incumbent a h.module_name u welcomed).slot_owner
  unfolding enrol
  enrol-freed_owner u = refl

  taken :
      (r u : String) (b : Hub)
      → should_shadow
          (map_or (lookup r b.senders) false (λ s. not (a.is_closed s)))
          (map_or (lookup r b.slot_owner) false (λ o. o == u))
        ≡ false
      → (lookup r (take_slot a r u h.socket_token b).senders ≡ some h.socket_token)
        × (lookup r (take_slot a r u h.socket_token b).slot_owner ≡ some u)
  unfolding take_slot
  taken r u b free = rw free (
    rw (lookup-insert r r h.socket_token b.senders, eq_refl r) refl,
    rw (lookup-insert r r u b.slot_owner, eq_refl r) refl,
  )

  first_contact-AsNew :
      (u r : String)
      → is_blank h.auth_token ≡ true
      → (handshake a h hub).0 ≡ accepted u r
      → AsNew u r (handshake a h hub).1
  unfolding handshake first_contact
  first_contact-AsNew u r no_token e = ground (arith, no_token, e, introduce-AsNew u r)

  -- Who comes in without a token takes the routing slot of its name, whoever had it before, provided that
  -- a sender that is there has an owner on record: messages to the name go to its socket from then on.
  pub handshake-takes_slot :
      (u r : String)
      → is_blank h.auth_token ≡ true
      → IsOwned h.module_name hub
      → (handshake a h hub).0 ≡ accepted u r
      → (r ≡ h.module_name)
        × (lookup r (handshake a h hub).1.senders ≡ some h.socket_token)
        × (lookup r (handshake a h hub).1.slot_owner ≡ some u)
  handshake-takes_slot u r no_token owned e =
      let new : AsNew u r (handshake a h hub).1 = first_contact-AsNew u r no_token e in
      let slot =
        taken h.module_name u (enrol a h u welcomed)
          (rw (enrol-freed u, enrol-freed_owner u) (freed_slot a h.module_name u welcomed owned)) in
      rw (new.1, new.0) (refl, slot.0, slot.1)
