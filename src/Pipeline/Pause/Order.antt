-- ===== src/Pipeline/Pause/Order.antt =====
-- In which order the backlog of a pause of src/pipeline.rs is handed out.
use cockatiel_engine_rs.Shared.{
  String, ◌≡◌, refl, sym, ap, subst, ◌∙◌, true, Option, some, List, [], ◌∷◌, if◌then◌else◌, ◌==◌,
  lookup, insert_in_order, lookup-insert_in_order, IsAscending, insert_in_order-IsAscending,
  string_eq,
}
use cockatiel_engine_rs.Pipeline.Pause.{HoldPoint, PauseState, hold_if_gated, is_gated, take_held}

-- Dispatch attempts, one after the other.
unfoldable pub hold_each : List (String × HoldPoint) → PauseState → PauseState
unfolding hold_if_gated
hold_each [] p = p
hold_each ((u, point) ∷ hs) p = hold_each hs (hold_if_gated u point p).1

-- The point of the last attempt for a message, or else what there was before.
abbrev pub last_point : String → List (String × HoldPoint) → Option HoldPoint → Option HoldPoint
last_point j [] old = old
last_point j ((u, point) ∷ hs) old = last_point j hs (if u == j then some point else old)

-- What is taken from a pause state, compared with the attempts and the state before them.
abbrev pub TakenInOrder : List (String × HoldPoint) → PauseState → PauseState → Type 0
TakenInOrder hs p held =
    let (taken, after) = take_held held in
    IsAscending taken.1
    × ((j : String) → lookup j taken.1 ≡ last_point j hs (lookup j p.held))
    × (after.held ≡ [])
    × (taken.0 ≡ p.paused)

held_now :
    (u : String) (point : HoldPoint) (p : PauseState)
    → is_gated p ≡ true
    → (hold_if_gated u point p).1 ≡ record p { held = insert_in_order u point p.held }
unfolding hold_if_gated
held_now u point p h = rw h refl

-- While the engine is gated, and with what is held in ascending order of the identifiers: whatever
-- messages reach a dispatch point, and in whatever order, each of them is kept once, with the point
-- that it reached last, and those kept before stay. The backlog that a resume then takes is again
-- in ascending order, none is left behind, and the resume learns whether there was a pause.
pub take_held-hold_each :
    (hs : List (String × HoldPoint)) (p : PauseState)
    → is_gated p ≡ true
    → IsAscending p.held
    → TakenInOrder hs p (hold_each hs p)
unfolding hold_each take_held is_gated
take_held-hold_each [] p h a = (a, λ j. refl, refl, refl)
take_held-hold_each ((u, point) ∷ hs) p h a =
    let p' = record p { held = insert_in_order u point p.held } in
    let (ascending, found, none_left, paused) =
      take_held-hold_each hs p' h (insert_in_order-IsAscending u point p.held a) in
    subst (λ q. TakenInOrder ((u, point) ∷ hs) p (hold_each hs q)) (sym (held_now u point p h))
      (
        ascending,
        λ j. found j ∙ ap (last_point j hs) (lookup-insert_in_order u j point p.held),
        none_left,
        paused,
      )
