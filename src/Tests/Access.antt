-- ===== src/Tests/Access.antt =====
-- The theorems about queries, at sample names.
use cockatiel_engine_rs.Shared.{String, ◌≡◌, ◌≢◌, ◌↔◌, true, false, none}
use cockatiel_engine_rs.Queries.Access.{
  is_control_query, is_known_query, caller_gate-classify_query,
}
use cockatiel_engine_rs.Queries.{classify_query, caller_gate, is_control_surface}

abbrev get_user : String
get_user = "userdb_get_user"

abbrev the_clip : String
the_clip = "clip"

caller_gate-classify_query_example :
    (is_control_query get_user ≡ true
      → (caller_gate (classify_query get_user) the_clip ≡ none)
        ↔ (is_control_surface the_clip ≡ true))
    × (is_known_query get_user ≡ false → caller_gate (classify_query get_user) the_clip ≢ none)
caller_gate-classify_query_example = caller_gate-classify_query get_user the_clip
