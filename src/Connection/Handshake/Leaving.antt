-- ===== src/Connection/Handshake/Leaving.antt =====
-- What the clean-up of a socket in src/main.rs leaves alone.
use cockatiel_engine_rs.Shared.{
  ℕ, String, ◌≡◌, refl, ap, Bool, true, false, some, [], ◌∷◌, nat_beq, if◌then◌else◌, ◌==◌, lookup,
  erase, adjust, string_eq,
}
use cockatiel_engine_rs.Connection.Handshake.{disconnect}
use cockatiel_engine_rs.Connection.Sessions.{
  AuthSession, Sessions, is_bound, set_shutdown_if_socket, remove_if_socket,
}
use cockatiel_engine_rs.Connection.Hub.{Hub}

adjust_same :
    (u : String) (f : AuthSession → AuthSession) (m : Sessions)
    → ((s : AuthSession) → lookup u m ≡ some s → f s ≡ s)
    → adjust u f m ≡ m
unfolding adjust lookup
adjust_same u f [] same = refl
adjust_same u f ((v, s) ∷ m) same = by_key (v == u) refl (adjust_same u f m)
  where
    by_key :
        (b : Bool)
        → (v == u) ≡ b
        → (((t : AuthSession) → lookup u m ≡ some t → f t ≡ t) → adjust u f m ≡ m)
        → (if b then (v, f s) ∷ m else (v, s) ∷ adjust u f m) ≡ (v, s) ∷ m
    by_key true e ih = ap (λ t. (v, t) ∷ m) (same s (rw e))
    by_key false e ih = ap (λ t. (v, s) ∷ t) (ih (λ t h. same t (rw e h)))

unshut :
    (u : String) (now socket : ℕ) (m : Sessions)
    → is_bound u socket m ≡ false
    → set_shutdown_if_socket u now socket m ≡ m
unfolding set_shutdown_if_socket is_bound
unshut u now socket m overtaken =
    adjust_same u
      (λ s. if nat_beq s.socket_token socket then record s { shutdown_at = some now } else s) m
      (λ s h. rw (rw h at overtaken) refl)

not_removed :
    (u : String) (socket : ℕ) (m : Sessions)
    → is_bound u socket m ≡ false
    → remove_if_socket u socket m ≡ (false, m)
unfolding remove_if_socket
not_removed u socket m overtaken = rw overtaken

-- The clean-up of a socket whose session another socket has claimed in the meantime leaves the session, the routing slot and
-- all else as it is, except that it takes the kill switch away that stands under the identifier,
-- which is then the other socket's.
pub disconnect-overtaken :
    (route_name u : String) (socket now : ℕ) (hub : Hub)
    → is_bound u socket hub.sessions ≡ false
    → disconnect route_name u socket now hub ≡ record hub { kill_map = erase u hub.kill_map }
unfolding disconnect
disconnect-overtaken route_name u socket now hub overtaken =
    rw (unshut u now socket hub.sessions overtaken, not_removed u socket hub.sessions overtaken)
      refl
