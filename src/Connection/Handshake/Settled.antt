-- ===== src/Connection/Handshake/Settled.antt =====
-- What a connection that was let in leaves behind: src/main.rs with the sessions of src/auth.rs.
use cockatiel_engine_rs.Shared.{
  ℕ, String, ◌≡◌, refl, inl, inr, Bool, true, false, ◌&&◌, not, eq_iff, Option, none, some, arith,
  nat_beq, if◌then◌else◌, nat_beq_iff, Bool-cases, eq_refl, ◌==◌, is_some, map_or, lookup,
  lookup-insert, lookup-adjust, Distinct, lookup-retain, retain-Distinct, insert-Distinct,
  adjust-Distinct, string_eq,
}
use cockatiel_engine_rs.Connection.Hub.{Answers, Hub, Hello, process_position_to_string}
use cockatiel_engine_rs.Connection.Sessions.{
  Sessions, AuthSession, insert_session, remove_other_sessions_named, is_other_named, claim_socket,
  set_peer_loopback, update_activity, rebound,
}
use cockatiel_engine_rs.Connection.Handshake.{reclaimed, evict_incumbent, session_of}
use cockatiel_engine_rs.Shared.Int.{ℤ, to_i32}

-- Each identifier has one session, and a routed name has an owner.
pub record IsSound (hub : Hub) : Type 0 where
  pub distinct : Distinct hub.sessions
  pub routed :
      (n : String)
      → is_some (lookup n hub.senders) ≡ true
      → is_some (lookup n hub.slot_owner) ≡ true

abbrev pub is_on : ℕ → AuthSession → Bool
is_on socket s = nat_beq s.socket_token socket && not (is_some s.shutdown_at)

-- The session of `u` is on the socket, and no other session has the name.
pub record Holds (u name : String) (socket : ℕ) (m : Sessions) : Type 0 where
  pub distinct : Distinct m
  pub bound : map_or (lookup u m) false (is_on socket) ≡ true
  pub alone :
      (v : String)
      → (v == u) ≡ false
      → map_or (lookup v m) false (λ s. s.module_name == name) ≡ false

module _ (a : Answers) (h : Hello) where
  pub evict_incumbent-sessions :
      (name u : String) (hub : Hub) → (evict_incumbent a name u hub).sessions ≡ hub.sessions
  unfolding evict_incumbent
  evict_incumbent-sessions name u hub = ground arith

  pub kept_alone :
      (name u v : String) (m : Sessions)
      → Distinct m
      → (v == u) ≡ false
      → map_or
          (lookup v (remove_other_sessions_named name u m).1)
          false
          (λ s. s.module_name == name)
        ≡ false
  unfolding remove_other_sessions_named
  kept_alone name u v m d other =
      rw (lookup-retain (λ w s. not (is_other_named name u w s)) v m d) (by_row (lookup v m))
    where
      by_row :
          (o : Option AuthSession)
          → map_or
              (elim o [
                | none ↦ none
                | some s ↦ if not (is_other_named name u v s) then some s else none
              ])
              false
              (λ s. s.module_name == name)
            ≡ false
      by_row none = refl
      by_row (some s) = ground (arith, other)

  pub kept-Distinct :
      (name u : String) (m : Sessions)
      → Distinct m
      → Distinct (remove_other_sessions_named name u m).1
  unfolding remove_other_sessions_named
  kept-Distinct name u m d = retain-Distinct (λ w s. not (is_other_named name u w s)) m d

  pub entered :
      (name u token position : String) (priority : ℤ) (m : Sessions)
      → Distinct m
      → ((v : String)
          → (v == u) ≡ false
          → map_or (lookup v m) false (λ s. s.module_name == name) ≡ false)
      → Holds u name h.socket_token
          (insert_session (session_of a h name u token position priority) m)
  unfolding insert_session session_of
  entered name u token position priority m d alone = record {
    distinct = insert-Distinct u _ m d;
    bound =
        rw (lookup-insert u u (session_of a h name u token position priority) m, eq_refl u)
          (ground (arith, nat_beq_iff h.socket_token h.socket_token));
    alone = λ v other.
        rw (lookup-insert u v (session_of a h name u token position priority) m)
          (ground (arith, other, eq_iff u v, eq_iff v u, alone v other));
  }

  -- What `reconnect` does to the sessions that it keeps.
  abbrev renewed : String → Sessions → Sessions
  renewed u m =
      claim_socket u h.socket_token a.now_ms
        (set_peer_loopback u h.peer_loopback (update_activity u a.now_ms m))

  renewed-Distinct : (u : String) (m : Sessions) → Distinct m → Distinct (renewed u m)
  unfolding claim_socket set_peer_loopback update_activity
  renewed-Distinct u m d = adjust-Distinct u _ _ (adjust-Distinct u _ _ (adjust-Distinct u _ m d))

  renewed-other :
      (u v : String) (m : Sessions) → (v == u) ≡ false → lookup v (renewed u m) ≡ lookup v m
  unfolding claim_socket set_peer_loopback update_activity
  renewed-other u v m other = simp (lookup-adjust, flipped)
    where
      flipped : (u == v) ≡ false
      flipped = ground (arith, other, eq_iff u v, eq_iff v u)

  renewed-bound :
      (u : String) (m : Sessions)
      → map_or (lookup u (renewed u m)) true (is_on h.socket_token) ≡ true
  unfolding claim_socket set_peer_loopback update_activity
  renewed-bound u m =
      rw
        (
          lookup-adjust u u (rebound h.socket_token a.now_ms)
              (set_peer_loopback u h.peer_loopback (update_activity u a.now_ms m)),
          eq_refl u,
        )
        (by_row (lookup u (set_peer_loopback u h.peer_loopback (update_activity u a.now_ms m))))
    where
      by_row :
          (o : Option AuthSession)
          → map_or
              (map_or o none (λ s. some (rebound h.socket_token a.now_ms s)))
              true
              (is_on h.socket_token)
            ≡ true
      by_row none = refl
      by_row (some s) = ground (arith, nat_beq_iff h.socket_token h.socket_token)

  pub reclaimed-Holds :
      (m : Sessions)
      → Distinct m
      → Holds h.module_instance_uuid7 h.module_name h.socket_token (reclaimed a h m)
  unfolding reclaimed
  reclaimed-Holds m d = elim (Bool-cases (is_some (lookup h.module_instance_uuid7 rest))) [
    | inl there ↦ rw there (record {
      distinct = rest-Distinct;
      bound =
          by_row (lookup h.module_instance_uuid7 rest) there
            (renewed-bound h.module_instance_uuid7 kept);
      alone = rest_alone;
    })
    | inr gone ↦ rw gone (
        entered h.module_name h.module_instance_uuid7 h.auth_token
          (process_position_to_string h.process_position) (to_i32 h.priority) rest rest-Distinct
          rest_alone)
  ]
    where
      kept : Sessions
      kept = (remove_other_sessions_named h.module_name h.module_instance_uuid7 m).1

      rest : Sessions
      rest = renewed h.module_instance_uuid7 kept

      rest-Distinct : Distinct rest
      rest-Distinct =
          renewed-Distinct h.module_instance_uuid7 kept
            (kept-Distinct h.module_name h.module_instance_uuid7 m d)

      rest_alone :
          (v : String)
          → (v == h.module_instance_uuid7) ≡ false
          → map_or (lookup v rest) false (λ s. s.module_name == h.module_name) ≡ false
      rest_alone v other =
          rw (renewed-other h.module_instance_uuid7 v kept other)
            (kept_alone h.module_name h.module_instance_uuid7 v m d other)

      by_row :
          (o : Option AuthSession)
          → is_some o ≡ true
          → map_or o true (is_on h.socket_token) ≡ true
          → map_or o false (is_on h.socket_token) ≡ true
      by_row none t e = absurd (ground (arith, t))
      by_row (some s) t e = e
