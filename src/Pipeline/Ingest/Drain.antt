-- ===== src/Pipeline/Ingest/Drain.antt =====
-- The recovery drain of src/pipeline.rs: one pass over the rows that a crash left queued.
use cockatiel_engine_rs.Shared.{
  ℕ, ◌+◌, String, ◌≡◌, Bool, true, false, not, List, ◌∷◌, arith, if◌then◌else◌, length, All,
  is_some, lookup, string_eq,
}
use cockatiel_engine_rs.Pipeline.State.{ok, err, World, Engine, Result}
use cockatiel_engine_rs.Timeline.{load_queued_message}

-- What the run for one message reports: it was claimed, or there is an error.
abbrev Claims : Result Bool → Type 0
Claims (ok b) = b ≡ true
Claims (err x) = Unit

module _ (w : World) where
  abbrev is_free : Engine → String → Bool
  is_free e u = not (is_some (lookup u e.pipeline_states))

  abbrev AllQueued : Engine → List String → Type 0
  AllQueued e = All (λ u. is_some (load_queued_message u e.rows) ≡ true)

  one_more :
      (b : Bool) (u : String) (us : List String) (x y z : ℕ)
      → x ≡ y + length us
      → y ≡ z + (if b then 1 else 0)
      → x ≡ z + length (if b then u ∷ us else us)
  one_more true u us x y z h k = ground arith
  one_more false u us x y z h k = ground arith
