-- ===== src/Queries/Schedule.antt =====
-- The stream schedule and the leaderboard of src/queries.rs: what the operator wants of a stream, what the adapters
-- report of it, and the file that keeps it. The crate `serde_json` is a parameter that prints and parses; the
-- keys that the code writes and reads are spelled out.
pub mod Restart
use cockatiel_engine_rs.Shared.{
  ℕ, ◌+◌, ◌%◌, ◌^◌, String, Bool, true, false, Option, none, some, List, [], ◌∷◌, map,
  if◌then◌else◌, ◌==◌, Map, or_default, map_or, lookup, insert, string_eq,
}
use cockatiel_engine_rs.Shared.Int.{ℤ, pos}
use cockatiel_engine_rs.Shared.Text.{◌<>◌}
use cockatiel_engine_rs.Shared.Json.{
  Value, flag, number, text, Object, as_str, as_bool, as_i64, as_u64,
}
use cockatiel_engine_rs.Connection.Files.{File, Json, read_file}
use cockatiel_engine_rs.Queries.Shutdown.{QueryOutcome, succeeded, denied}

pub record StreamControl : Type 0 where
  pub title : String
  pub scheduled_start_ms : ℤ
  pub thumbnail_path : String
  pub revision : ℕ
  pub updated_at_ms : ℤ

abbrev pub default_control : StreamControl
default_control = record {
  title = "";
  scheduled_start_ms = pos 0;
  thumbnail_path = "";
  revision = 0;
  updated_at_ms = pos 0;
}

pub record StreamControlStatus : Type 0 where
  pub platform : String
  pub revision : ℕ
  pub ok : Bool
  pub message : String
  pub applied_at_ms : ℤ

-- With the file at `persist_path`, if there is such a path.
pub record StreamSchedule : Type 0 where
  pub control : StreamControl
  pub statuses : Map String StreamControlStatus
  pub has_path : Bool
  pub file : File

-- `payload.get(key).and_then(..)`.
abbrev pub get_as : {A : Type 0} → (Value → Option A) → String → Object → Option A
get_as read key o = map_or (lookup key o) none read

-- A field with `serde(default)`: `none` where the key is there with a value of another type.
abbrev pub field : {A : Type 0} → (Value → Option A) → A → String → Object → Option A
field read default key o = map_or (lookup key o) (some default) read

-- What becomes of a file that is written in place: all of it, nothing, or another text.
pub data Write : Type 0 where
  whole untouched : Write
  torn : String → Write

abbrev pub after_write : Write → String → File → File
after_write whole written f = some written
after_write untouched written f = f
after_write (torn part) written f = some part

-- The key that is absent or of another type leaves the value as it is.
unfoldable pub merged : ℤ → Object → StreamControl → StreamControl
unfolding as_str as_i64
merged now p c = record {
  title = or_default (get_as as_str "title" p) c.title;
  scheduled_start_ms = or_default (get_as as_i64 "scheduled_start_ms" p) c.scheduled_start_ms;
  thumbnail_path = or_default (get_as as_str "thumbnail_path" p) c.thumbnail_path;
  revision = (c.revision + 1) % 2 ^ 64;
  updated_at_ms = now;
}

unfoldable pub reported : ℤ → Object → String → StreamControlStatus
unfolding as_u64 as_bool as_str
reported now p platform = record {
  platform = platform;
  revision = or_default (get_as as_u64 "revision" p) 0;
  ok = or_default (get_as as_bool "ok" p) false;
  message = or_default (get_as as_str "message" p) "";
  applied_at_ms = now;
}

unfoldable pub control_object : StreamControl → Object
control_object c =
    ("title", text c.title)
    ∷ ("scheduled_start_ms", number c.scheduled_start_ms)
    ∷ ("thumbnail_path", text c.thumbnail_path)
    ∷ ("revision", number (pos c.revision))
    ∷ ("updated_at_ms", number c.updated_at_ms)
    ∷ []

unfoldable pub status_object : StreamControlStatus → Object
status_object s =
    ("platform", text s.platform)
    ∷ ("revision", number (pos s.revision))
    ∷ ("ok", flag s.ok)
    ∷ ("message", text s.message)
    ∷ ("applied_at_ms", number s.applied_at_ms)
    ∷ []

-- The object, and the list that it has under the further key `statuses`.
unfoldable pub schedule_object : StreamSchedule → Object × List Object
unfolding control_object status_object
schedule_object st = (control_object st.control, map (λ p. status_object p.1) st.statuses)

-- The derived `Deserialize` of `StreamControl`, for an object with each key once.
unfoldable pub from_object : Object → Option StreamControl
unfolding as_str as_i64 as_u64
from_object o = map_or (field as_str "" "title" o) none λ title.
    map_or (field as_i64 (pos 0) "scheduled_start_ms" o) none λ start.
      map_or (field as_str "" "thumbnail_path" o) none λ path.
        map_or (field as_u64 0 "revision" o) none λ revision.
          map_or (field as_i64 (pos 0) "updated_at_ms" o) none λ updated. some (record {
            title = title;
            scheduled_start_ms = start;
            thumbnail_path = path;
            revision = revision;
            updated_at_ms = updated;
          })

module _ (j : Json Object) where
  unfoldable pub load_schedule : File → StreamSchedule
  unfolding from_object
  load_schedule f = record {
    control = or_default (map_or (read_file j f) none from_object) default_control;
    statuses = [];
    has_path = true;
    file = f;
  }

  unfoldable pub save_schedule : Write → StreamSchedule → StreamSchedule
  unfolding control_object
  save_schedule disk st =
      if st.has_path
      then record st {
        file =
            map_or (j.to_text (control_object st.control)) st.file
              (λ written. after_write disk written st.file);
      }
      else st

  -- `print` is the text of an object, `parse_error` the error of a text that is no JSON.
  module _ (from_str : String → Option Object) (parse_error : String → String)
      (print : Object × List Object → String) where
    -- The rest of the two writes, behind the parsed payload.
    unfoldable pub control_parsed :
        ℤ → Write → String → Option Object → StreamSchedule → QueryOutcome × StreamSchedule
    unfolding save_schedule merged schedule_object
    control_parsed now disk sql none st =
        (denied ("stream_control: invalid JSON: " <> parse_error sql), st)
    control_parsed now disk sql (some p) st =
        let st' = record st { control = merged now p st.control; statuses = [] } in
        (succeeded (print (schedule_object st')), save_schedule disk st')

    unfoldable pub status_parsed :
        ℤ → String → Option Object → StreamSchedule → QueryOutcome × StreamSchedule
    unfolding reported as_str
    status_parsed now sql none st =
        (denied ("stream_control_status: invalid JSON: " <> parse_error sql), st)
    status_parsed now sql (some p) st =
        let platform = or_default (get_as as_str "platform" p) "" in
        if platform == "" then (denied "stream_control_status: missing 'platform'", st) else (
          succeeded "{\"success\":true}",
          record st { statuses = insert platform (reported now p platform) st.statuses },
        )

    unfoldable pub stream_control_write :
        ℤ → Write → String → StreamSchedule → QueryOutcome × StreamSchedule
    stream_control_write now disk sql st = control_parsed now disk sql (from_str sql) st

    unfoldable pub stream_control_status_write :
        ℤ → String → StreamSchedule → QueryOutcome × StreamSchedule
    stream_control_status_write now sql st = status_parsed now sql (from_str sql) st

    unfoldable pub stream_schedule_read : StreamSchedule → QueryOutcome
    unfolding schedule_object
    stream_schedule_read st = succeeded (print (schedule_object st))

-- The leaderboard is kept as the text that prints it, or not yet there.
unfoldable pub leaderboard_report :
    (String → Option String)
    → (String → String)
    → String
    → Option String
    → QueryOutcome × Option String
leaderboard_report from_str parse_error sql store = elim (from_str sql) [
  | none ↦ (denied ("leaderboard_report: invalid JSON: " <> parse_error sql), store)
  | some value ↦ (succeeded "{\"success\":true}", some value)
]

unfoldable pub leaderboard_read : Option String → QueryOutcome
leaderboard_read store = succeeded (or_default store "{\"entries\":[]}")
