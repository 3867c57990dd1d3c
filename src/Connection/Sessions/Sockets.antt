-- ===== src/Connection/Sessions/Sockets.antt =====
-- Which socket a session of src/auth.rs belongs to, over any run of the store's operations.
use cockatiel_engine_rs.Shared.{
  ℕ, String, ◌≡◌, refl, inl, inr, Bool, true, false, ◌&&◌, not, eq_iff, Option, none, some, arith,
  nat_beq, if◌then◌else◌, nat_beq_iff, Bool-cases, ◌==◌, is_some, map_or, lookup, adjust,
  lookup-insert, lookup-erase, lookup-adjust, retain, Distinct, lookup-retain, retain-Distinct,
  insert-Distinct, erase-Distinct, adjust-Distinct, string_eq,
}
use cockatiel_engine_rs.Connection.Sessions.{
  Sessions, AuthSession, insert_session, update_activity, set_peer_loopback, claim_socket,
  set_shutdown_if_socket, remove_if_socket, mark_probed, mark_unresponsive, sweep_shutdown_sessions,
  remove_other_sessions_named, is_bound, rebound,
}

-- The steps of the store that are not the end of the session `u` by its own socket `k`, nor its takeover:
-- the clean-up of another socket, also one that had `u` before, is among them.
pub data Step (u : String) (k : ℕ) (name : String) : Sessions → Sessions → Type 0 where
  enter :
      (m : Sessions) (s : AuthSession)
      → (s.instance_uuid7 == u) ≡ false
      → Step u k name m (insert_session s m)
  activity : (m : Sessions) (v : String) (now : ℕ) → Step u k name m (update_activity v now m)
  loopback : (m : Sessions) (v : String) (b : Bool) → Step u k name m (set_peer_loopback v b m)
  claim :
      (m : Sessions) (v : String) (socket now : ℕ)
      → (v == u && not (nat_beq socket k)) ≡ false
      → Step u k name m (claim_socket v socket now m)
  shut :
      (m : Sessions) (v : String) (now socket : ℕ)
      → (v == u && nat_beq socket k) ≡ false
      → Step u k name m (set_shutdown_if_socket v now socket m)
  leave :
      (m : Sessions) (v : String) (socket : ℕ)
      → (v == u && nat_beq socket k) ≡ false
      → Step u k name m (remove_if_socket v socket m).1
  probe :
      (m : Sessions) (v : String) (now deadline : ℕ)
      → Step u k name m (mark_probed v now deadline m)
  give_up : (m : Sessions) (v : String) → Step u k name m (mark_unresponsive v m)
  sweep : (m : Sessions) (now max_age : ℕ) → Step u k name m (sweep_shutdown_sessions now max_age m)
  purge :
      (m : Sessions) (n kept : String)
      → (name == n && not (u == kept)) ≡ false
      → Step u k name m (remove_other_sessions_named n kept m).1

pub data Run (u : String) (k : ℕ) (name : String) (m : Sessions) : Sessions → Type 0 where
  here : Run u k name m m
  next : {t v : Sessions} → Run u k name m t → Step u k name t v → Run u k name m v

-- What holds of a session that is connected: it is there under its name, it belongs to the socket and it is not shut down.
abbrev pub is_live : ℕ → String → AuthSession → Bool
is_live k name s = nat_beq s.socket_token k && s.module_name == name && not (is_some s.shutdown_at)

pub record Live (u : String) (k : ℕ) (name : String) (m : Sessions) : Type 0 where
  pub distinct : Distinct m
  pub live : map_or (lookup u m) false (is_live k name) ≡ true

module _ (u : String) (k : ℕ) (name : String) where
  adjust-Live :
      (v : String) (f : AuthSession → AuthSession) (m : Sessions)
      → ((s : AuthSession)
          → (v == u) ≡ true
          → is_live k name s ≡ true
          → is_live k name (f s) ≡ true)
      → Live u k name m
      → Live u k name (adjust v f m)
  adjust-Live v f m keeps l = record {
    distinct = adjust-Distinct v f m l.distinct;
    live = rw (lookup-adjust v u f m) (by_row (lookup u m) (v == u) refl l.live);
  }
    where
      by_row :
          (o : Option AuthSession) (b : Bool)
          → (v == u) ≡ b
          → map_or o false (is_live k name) ≡ true
          → map_or (if b then map_or o none (λ s. some (f s)) else o) false (is_live k name) ≡ true
      by_row none true e h = h
      by_row (some s) true e h = keeps s e h
      by_row o false e h = h

  retain-Live :
      (p : String → AuthSession → Bool) (m : Sessions)
      → ((s : AuthSession) → is_live k name s ≡ true → p u s ≡ true)
      → Live u k name m
      → Live u k name (retain p m)
  retain-Live p m keeps l = record {
    distinct = retain-Distinct p m l.distinct;
    live = rw (lookup-retain p u m l.distinct) (by_row (lookup u m) l.live);
  }
    where
      by_row :
          (o : Option AuthSession)
          → map_or o false (is_live k name) ≡ true
          → map_or
              (elim o [ none ↦ none | some v ↦ if p u v then some v else none ])
              false
              (is_live k name)
            ≡ true
      by_row none h = h
      by_row (some s) h = rw (keeps s h) h

  leave-Live :
      (m : Sessions) (v : String) (socket : ℕ)
      → (v == u && nat_beq socket k) ≡ false
      → Live u k name m
      → Live u k name (remove_if_socket v socket m).1
  unfolding remove_if_socket is_bound
  leave-Live m v socket other l = elim (Bool-cases (is_bound v socket m)) [
    | inr stays ↦ rw stays l
    | inl bound ↦ rw bound (record {
      distinct = erase-Distinct v m l.distinct;
      live = rw (lookup-erase v u m) (ground (arith, eq_iff v u));
    })
  ]

  Step-Live : {m m' : Sessions} → Step u k name m m' → Live u k name m → Live u k name m'
  unfolding insert_session update_activity set_peer_loopback claim_socket set_shutdown_if_socket
      mark_probed mark_unresponsive sweep_shutdown_sessions remove_other_sessions_named
  Step-Live (enter m s other) l = record {
    distinct = insert-Distinct s.instance_uuid7 s m l.distinct;
    live = rw (lookup-insert s.instance_uuid7 u s m, other) l.live;
  }
  Step-Live (activity m v now) l = adjust-Live v _ m (λ s e h. h) l
  Step-Live (loopback m v b) l = adjust-Live v _ m (λ s e h. h) l
  Step-Live (claim m v socket now other) l =
      adjust-Live v (rebound socket now) m (λ s e h. ground arith) l
  Step-Live (shut m v now socket other) l =
      adjust-Live v _ m (λ s e h. ground (arith, nat_beq_iff s.socket_token k)) l
  Step-Live (leave m v socket other) l = leave-Live m v socket other l
  Step-Live (probe m v now deadline) l = adjust-Live v _ m (λ s e h. h) l
  Step-Live (give_up m v) l = adjust-Live v _ m (λ s e h. h) l
  Step-Live (sweep m now max_age) l = retain-Live _ m (λ s h. ground arith) l
  Step-Live (purge m n kept other) l =
      retain-Live _ m (λ s h. ground (arith, eq_iff s.module_name name)) l

  -- A session that is connected stays connected, on the same socket and under the same name, over every run of
  -- the store's operations, until its own socket leaves or shuts it down, another socket claims it, a new session is entered under
  -- its identifier, or the sessions of its name are cleared in favour of another. In particular the clean-up of a socket that had the session
  -- before does not end it, and no sweep does.
  pub Run-Live : {m m' : Sessions} → Run u k name m m' → Live u k name m → Live u k name m'
  Run-Live here l = l
  Run-Live (next r s) l = Step-Live s (Run-Live r l)
