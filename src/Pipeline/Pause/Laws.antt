-- ===== src/Pipeline/Pause/Laws.antt =====
-- Properties of the pause state of src/pipeline.rs alone.
use cockatiel_engine_rs.Pipeline.Pause.{user_db, timeline_db}
use cockatiel_engine_rs.Shared.{
  ℕ, String, ◌≡◌, refl, ap, ◌∙◌, ◌≢◌, true, false, some, List, [], ◌∷◌, arith, ltb, if◌then◌else◌,
  ◌==◌, is_some, map_or, lookup, lookup-insert_in_order, string_eq,
}
use cockatiel_engine_rs.Pipeline.Pause.{
  hold_if_gated, clear_block, set_block, BlockedReason, priority, same_reason, PauseState,
  take_held, is_gated, HoldPoint,
}

unfoldable pub set_blocks : List BlockedReason → PauseState → PauseState
unfolding set_block
set_blocks [] p = p
set_blocks (r ∷ rs) p = set_blocks rs (set_block r p)

-- The highest priority among reasons, 0 for none.
unfoldable pub highest : ℕ → List BlockedReason → ℕ
unfolding priority
highest n [] = n
highest n (r ∷ rs) = highest (if ltb n (priority r) then priority r else n) rs

set_block-cases :
    (r : BlockedReason) (p : PauseState)
    → map_or (set_block r p).blocked 0 priority
      ≡ (let n = map_or p.blocked 0 priority in if ltb n (priority r) then priority r else n)
unfolding set_block priority
set_block-cases r p = ground arith

set_block-frame :
    (r : BlockedReason) (p : PauseState)
    → ((set_block r p).paused ≡ p.paused) × ((set_block r p).held ≡ p.held)
unfolding set_block
set_block-frame r p = ground arith

-- In whatever order the dependency checks raise their blocks, the reason that shows is one of the
-- highest priority raised, and raising blocks neither pauses, resumes nor drops what is held.
pub set_blocks-highest :
    (rs : List BlockedReason) (p : PauseState)
    → (map_or (set_blocks rs p).blocked 0 priority ≡ highest (map_or p.blocked 0 priority) rs)
      × ((set_blocks rs p).paused ≡ p.paused)
      × ((set_blocks rs p).held ≡ p.held)
unfolding set_blocks highest
set_blocks-highest [] p = (refl, refl, refl)
set_blocks-highest (r ∷ rs) p =
    let ih = set_blocks-highest rs (set_block r p) in
    (
      ih.0 ∙ ap (λ n. highest n rs) (set_block-cases r p),
      ih.1 ∙ (set_block-frame r p).0,
      ih.2 ∙ (set_block-frame r p).1,
    )

-- Clearing a block: it lifts the block only of the very reason that is shown; whether the caller is to
-- resume is what an operator asked for meanwhile, and that wish is used up; a clear of another
-- reason changes nothing. An operator's pause and the held messages stay in every case.
pub clear_block_lem :
    (r : BlockedReason) (p : PauseState)
    → (p.blocked ≡ some r
        → ((clear_block r p).0 ≡ p.resume_when_unblocked)
          × (is_gated (clear_block r p).1 ≡ p.paused)
          × ((clear_block r (clear_block r p).1).0 ≡ false))
      × (p.blocked ≢ some r → clear_block r p ≡ (false, p))
      × ((clear_block r p).1.paused ≡ p.paused)
      × ((clear_block r p).1.held ≡ p.held)
unfolding clear_block same_reason is_gated
clear_block_lem user_db p = ground arith
clear_block_lem timeline_db p = ground arith

-- While the engine is gated, by a pause or by a block, every message that asks to go on is kept with the
-- point it is to go on from, and those kept before stay; taking the backlog hands out all of them and
-- leaves none, and lifts the pause but not a block.
pub hold_if_gated-take_held :
    (u j : String) (point : HoldPoint) (p : PauseState)
    → is_gated p ≡ true
    → let (held, p') = hold_if_gated u point p in
      (held ≡ true)
      × (lookup j (take_held p').0.1 ≡ (if u == j then some point else lookup j p.held))
      × ((take_held p').1.held ≡ [])
      × (is_gated (take_held p').1 ≡ is_some p.blocked)
unfolding hold_if_gated take_held is_gated
hold_if_gated-take_held u j point p h = ground (arith, lookup-insert_in_order u j point p.held)
