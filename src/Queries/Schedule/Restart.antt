-- ===== src/Queries/Schedule/Restart.antt =====
-- What is left of the stream schedule of src/queries.rs after a restart of the engine.
use cockatiel_engine_rs.Shared.{
  ◌+◌, ◌%◌, ◌^◌, ◌<◌, String, ◌≡◌, true, Option, none, some, List, map_or, lookup, Distinct,
  string_eq,
}
use cockatiel_engine_rs.Shared.Int.{ℤ}
use cockatiel_engine_rs.Connection.Files.{Json}
use cockatiel_engine_rs.Shared.Json.{Object, text, number, fits_i64}
use cockatiel_engine_rs.Queries.Schedule.{
  StreamControl, StreamSchedule, whole, stream_control_write, stream_control_status_write,
}

-- The object that is written is read back, with the keys perhaps in another order.
abbrev pub ReadsBack : Json Object → Type 0
ReadsBack j =
    (o : Object)
    → Distinct o
    → (o' : Object) × (map_or (j.to_text o) none j.from_text ≡ some o')
      × ((k : String) → lookup k o' ≡ lookup k o)

-- The numbers are such as the code's types hold.
abbrev pub InRange : StreamControl → Type 0
InRange c =
    (fits_i64 c.scheduled_start_ms ≡ true)
    × (c.revision < 2 ^ 64)
    × (fits_i64 c.updated_at_ms ≡ true)

-- Where the payload has a text as the title, it is the title afterwards, and where it has no such key the
-- title stays; so with the start, as a number that fits, and with the path of the picture.
abbrev pub Merges : ℤ → Object → StreamControl → StreamControl → Type 0
Merges now p old new =
    ((t : String) → lookup "title" p ≡ some (text t) → new.title ≡ t)
    × (lookup "title" p ≡ none → new.title ≡ old.title)
    × ((i : ℤ)
        → lookup "scheduled_start_ms" p ≡ some (number i)
        → fits_i64 i ≡ true
        → new.scheduled_start_ms ≡ i)
    × (lookup "scheduled_start_ms" p ≡ none → new.scheduled_start_ms ≡ old.scheduled_start_ms)
    × ((t : String) → lookup "thumbnail_path" p ≡ some (text t) → new.thumbnail_path ≡ t)
    × (lookup "thumbnail_path" p ≡ none → new.thumbnail_path ≡ old.thumbnail_path)
    × (new.revision ≡ (old.revision + 1) % 2 ^ 64)
    × (new.updated_at_ms ≡ now)

module _ (j : Json Object) (reads : ReadsBack j) (from_str : String → Option Object)
    (parse_error : String → String) (print : Object × List Object → String) where
  abbrev pub write_control : ℤ → String → StreamSchedule → StreamSchedule
  write_control now sql st = (stream_control_write j from_str parse_error print now whole sql st).1

  abbrev pub write_status : ℤ → String → StreamSchedule → StreamSchedule
  write_status now sql st = (stream_control_status_write j from_str parse_error print now sql st).1
