-- ===== src/Tests/Schedule.antt =====
-- The stream schedule of src/queries.rs across a restart, in a concrete encoding of its file.
use cockatiel_engine_rs.Shared.{String, true, Option, none, some, List, [], ◌∷◌}
use cockatiel_engine_rs.Shared.Int.{pos}
use cockatiel_engine_rs.Shared.Json.{Object, text}
use cockatiel_engine_rs.Queries.Schedule.{StreamSchedule, default_control}
use cockatiel_engine_rs.Queries.Schedule.Restart.{write_control}
use cockatiel_engine_rs.Tests.Encodings.{object_json, object_json-ReadsBack}

abbrev new_title : Object
new_title = ("title", text "Bird news") ∷ []

abbrev parse : String → Option Object
parse s = some new_title

abbrev no_text : String → String
no_text s = ""

abbrev no_json : Object × List Object → String
no_json o = ""

abbrev empty_schedule : StreamSchedule
empty_schedule = record { control = default_control; statuses = []; has_path = true; file = none }

abbrev changed : StreamSchedule
changed =
    write_control object_json object_json-ReadsBack parse no_text no_json (pos 5) "" empty_schedule
