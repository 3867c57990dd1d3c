-- ===== src/Stream.antt =====
-- src/stream_rewards.rs: the open stream, who attended it, and the streaks that attendance earns.
-- Times are epoch milliseconds as natural numbers; the multipliers, in `f32`, are not modelled.
pub mod Streaks
use cockatiel_engine_rs.Shared.{
  ℕ, ◌+◌, String, false, ◌||◌, not, Option, none, some, List, [], ◌∷◌, map, ltb, if◌then◌else◌,
  ◌==◌, Map, is_some, map_or, lookup, insert, adjust, string_eq,
}

pub record StreamTracker : Type 0 where
  pub current_stream_uuid : Option String
  pub started_ms : ℕ
  pub previous_stream_uuid : Option String
  pub attendance : Map String (ℕ × ℕ)
  pub streaks : Map String (String × ℕ)
  pub stream_streak_cache : Map String ℕ

abbrev pub new_tracker : StreamTracker
new_tracker = record {
  current_stream_uuid = none;
  started_ms = 0;
  previous_stream_uuid = none;
  attendance = [];
  streaks = [];
  stream_streak_cache = [];
}

unfoldable pub load_streaks : List (String × String × ℕ) → StreamTracker → StreamTracker
load_streaks [] t = t
load_streaks ((user, last, count) ∷ rows) t =
    load_streaks rows (record t { streaks = insert user (last, count) t.streaks })

-- The streak that a user has once the open stream counts: one more if their last stream is the
-- previous one, and otherwise 1.
unfoldable pub next_count : Option String → Option (String × ℕ) → ℕ
next_count previous none = 1
next_count previous (some (last, count)) =
    if map_or previous false (λ p. last == p) then count + 1 else 1

unfoldable pub advance :
    String
    → Option String
    → List String
    → Map String (String × ℕ)
    → List (String × String × ℕ) × Map String (String × ℕ)
unfolding next_count
advance cur previous [] streaks = ([], streaks)
advance cur previous (user ∷ users) streaks =
    let count = next_count previous (lookup user streaks) in
    let (rows, done) = advance cur previous users (insert user (cur, count) streaks) in
    ((user, cur, count) ∷ rows, done)

abbrev pub users : StreamTracker → List String
users t = map (λ p. p.0) t.attendance

unfoldable pub close_stream : StreamTracker → List (String × String × ℕ) × StreamTracker
unfolding advance
close_stream t = elim t.current_stream_uuid [
  | none ↦ ([], t)
  | some cur ↦
      let (updated, streaks) = advance cur t.previous_stream_uuid (users t) t.streaks in
      (
        updated,
        record t {
          current_stream_uuid = none;
          streaks = streaks;
          previous_stream_uuid = some cur;
          attendance = [];
          stream_streak_cache = [];
        },
      )
]

-- `uuid7` is the fresh identifier of the new stream.
unfoldable pub open_stream : ℕ → String → StreamTracker → StreamTracker
unfolding close_stream
open_stream now uuid7 t =
    let closed = if is_some t.current_stream_uuid then (close_stream t).1 else t in
    record closed {
      current_stream_uuid = some uuid7;
      started_ms = now;
      attendance = [];
      stream_streak_cache = [];
    }

unfoldable pub note_attendance : String → ℕ → StreamTracker → StreamTracker
note_attendance user now t =
    if not (is_some t.current_stream_uuid) || user == "" then t else record t {
      attendance =
          if is_some (lookup user t.attendance)
          then adjust user (λ p. (p.0, if ltb p.1 now then now else p.1)) t.attendance
          else insert user (now, now) t.attendance;
    }

-- The first part of `multiplier`: the streak count, computed once for a stream and kept.
unfoldable pub streak_count : String → StreamTracker → ℕ × StreamTracker
unfolding next_count
streak_count user t =
    if is_some t.current_stream_uuid
    then elim (lookup user t.stream_streak_cache) [
      | some c ↦ (c, t)
      | none ↦
          let c = next_count t.previous_stream_uuid (lookup user t.streaks) in
          (c, record t { stream_streak_cache = insert user c t.stream_streak_cache })
    ]
    else (0, t)
