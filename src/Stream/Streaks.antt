-- ===== src/Stream/Streaks.antt =====
-- The streaks of src/stream_rewards.rs across the closing of a stream.
use cockatiel_engine_rs.Shared.{
  ℕ, String, ◌≡◌, refl, ap, ◌∙◌, inl, inr, true, false, eq_iff, Option, none, some, List, [], ◌∷◌,
  map, arith, if◌then◌else◌, Bool-cases, Option-cases, ◌==◌, contains, Map, is_some, lookup, insert,
  lookup-insert, Distinct, string_eq,
}
use cockatiel_engine_rs.Stream.{
  StreamTracker, next_count, advance, users, close_stream, streak_count,
}

lookup-advance_absent :
    (cur : String) (previous : Option String) (us : List String) (s : Map String (String × ℕ))
    (user : String)
    → contains us user ≡ false
    → lookup user (advance cur previous us s).1 ≡ lookup user s
unfolding advance contains
lookup-advance_absent cur previous [] s user h = refl
lookup-advance_absent cur previous (u ∷ us) s user h = ground (
  arith,
  eq_iff u user,
  lookup-insert u user (cur, next_count previous (lookup u s)) s,
  lookup-advance_absent cur previous us (insert u (cur, next_count previous (lookup u s)) s) user,
)

-- The users of the attendance map, each once.
abbrev pub NoDup : List String → Type 0
NoDup [] = Unit
NoDup (u ∷ us) = (contains us u ≡ false) × NoDup us

lookup-advance :
    (cur : String) (previous : Option String) (us : List String) (s : Map String (String × ℕ))
    (user : String)
    → NoDup us
    → contains us user ≡ true
    → lookup user (advance cur previous us s).1 ≡ some (cur, next_count previous (lookup user s))
unfolding advance contains
lookup-advance cur previous [] s user d h = cc
lookup-advance cur previous (u ∷ us) s user d h = elim (Bool-cases (u == user)) [
  | inl same ↦ ground (
    arith,
    eq_iff u user,
    d.0,
    lookup-insert u user (cur, next_count previous (lookup u s)) s,
    lookup-advance_absent cur previous us (insert u (cur, next_count previous (lookup u s)) s) user,
  )
  | inr other ↦ ground (
    arith,
    eq_iff u user,
    lookup-insert u user (cur, next_count previous (lookup u s)) s,
    lookup-advance cur previous us (insert u (cur, next_count previous (lookup u s)) s) user d.1,
  )
]

contains-keys :
    (user : String) (m : Map String (ℕ × ℕ))
    → contains (map (λ p. p.0) m) user ≡ is_some (lookup user m)
unfolding contains lookup
contains-keys user [] = refl
contains-keys user ((u, p) ∷ m) = ground (arith, contains-keys user m)

users-NoDup : (m : Map String (ℕ × ℕ)) → Distinct m → NoDup (map (λ p. p.0) m)
users-NoDup [] d = tt
users-NoDup ((u, p) ∷ m) d = (contains-keys u m ∙ ap is_some d.0, users-NoDup m d.1)

-- What the multiplier reports agrees with the stored streaks: each count kept for the open stream
-- is the one that the stored streak gives.
abbrev pub CacheAgrees : StreamTracker → Type 0
CacheAgrees t =
    (user : String) (c : ℕ)
    → lookup user t.stream_streak_cache ≡ some c
    → c ≡ next_count t.previous_stream_uuid (lookup user t.streaks)

-- Closing an open stream, where the attendance has each user once and the counts reported are those of
-- the stored streaks: every user who attended is stored with the closed stream and the very count
-- that `multiplier` reports for them during it; a user who did not attend keeps what was stored;
-- the closed stream is the one that the next streaks continue from, and no attendance is left.
pub close_stream_lem :
    (t : StreamTracker) (cur user : String)
    → t.current_stream_uuid ≡ some cur
    → Distinct t.attendance
    → CacheAgrees t
    → (lookup user (close_stream t).1.streaks ≡ (
        if is_some (lookup user t.attendance)
        then some (cur, (streak_count user t).0)
        else lookup user t.streaks))
      × ((close_stream t).1.previous_stream_uuid ≡ some cur)
      × ((close_stream t).1.current_stream_uuid ≡ none)
      × ((close_stream t).1.attendance ≡ [])
unfolding close_stream streak_count
close_stream_lem t cur user on_air d agrees = (stored, ground arith, ground arith, ground arith)
  where
    reported : (streak_count user t).0 ≡ next_count t.previous_stream_uuid (lookup user t.streaks)
    reported = elim (Option-cases (lookup user t.stream_streak_cache)) [
      | inl e ↦ ground arith
      | inr (c, e) ↦ ground (arith, agrees user c e)
    ]

    stored : lookup user (close_stream t).1.streaks ≡ (
        if is_some (lookup user t.attendance)
        then some (cur, (streak_count user t).0)
        else lookup user t.streaks)
    stored = elim (Bool-cases (is_some (lookup user t.attendance))) [
      | inl e ↦
          rw (e, reported)
            (ground (
              arith,
              lookup-advance cur t.previous_stream_uuid (users t) t.streaks user
                  (users-NoDup t.attendance d),
              contains-keys user t.attendance,
            ))
      | inr e ↦ rw e (
          ground (
            arith,
            lookup-advance_absent cur t.previous_stream_uuid (users t) t.streaks user,
            contains-keys user t.attendance,
          ))
    ]
