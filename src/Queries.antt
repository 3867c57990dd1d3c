-- ===== src/Queries.antt =====
-- src/queries.rs: which handler a module's query reaches, and who may ask; with the names of the
-- control surface from src/main.rs.
pub mod Access
pub mod Shutdown
pub mod Schedule
pub mod Modules
use Prim.Native.Char.{code}
use cockatiel_engine_rs.Shared.Text.{starts_with}
use cockatiel_engine_rs.Shared.{
  String, Bool, ◌&&◌, ◌||◌, not, Option, none, some, if◌then◌else◌, ◌==◌, string_eq,
}

pub data QueryRoute : Type 0 where
  db_status module_list engine_info pipeline_set_paused engine_shutdown test_run test_probe
        audit_list audit_approve audit_reject mod_family chat_commend chat_reprimand
        chat_verify_identity chat_reply userdb_adjust_score prediction_get_score channel_viewers
        stream_leaderboard stream_leaderboard_report stream_control stream_schedule
        stream_control_status userdb_block module_bans_report userdb_family set_credentials
        test_archive stats unsupported :
      QueryRoute

unfoldable pub is_control_surface : String → Bool
is_control_surface name = name == "cockatiel-tui" || name == "cockatiel-tui-child"

unfoldable pub may_read_other_credentials : String → Bool
unfolding is_control_surface
may_read_other_credentials name = is_control_surface name || name == "term-chat"

unfoldable pub is_test_runner : String → Bool
is_test_runner name = name == "cockatiel-test-runner"

unfoldable pub is_stream_adapter : String → Bool
is_stream_adapter caller =
    caller == "twitch-adapter"
    || caller == "youtube-adapter"
    || caller == "kick-adapter"
    || caller == "discord-adapter"
    || caller == "stream-manager-stub"

-- The order of the tests is the code's.
unfoldable pub classify_query : String → QueryRoute
unfolding starts_with
classify_query query_id =
    if query_id == "db_status"
    then QueryRoute.db_status
    else if query_id == "module_list"
    then QueryRoute.module_list
    else if query_id == "engine_info"
    then QueryRoute.engine_info
    else if query_id == "pipeline_set_paused"
    then QueryRoute.pipeline_set_paused
    else if query_id == "engine_shutdown"
    then QueryRoute.engine_shutdown
    else if query_id == "test_run"
    then QueryRoute.test_run
    else if query_id == "test_probe"
    then QueryRoute.test_probe
    else if query_id == "audit_list"
    then QueryRoute.audit_list
    else if query_id == "audit_approve"
    then QueryRoute.audit_approve
    else if query_id == "audit_reject"
    then QueryRoute.audit_reject
    else if starts_with "mod_" query_id
    then QueryRoute.mod_family
    else if query_id == "chat_commend"
    then QueryRoute.chat_commend
    else if query_id == "chat_reprimand"
    then QueryRoute.chat_reprimand
    else if query_id == "chat_verify_identity"
    then QueryRoute.chat_verify_identity
    else if query_id == "chat_reply"
    then QueryRoute.chat_reply
    else if query_id == "userdb_adjust_score"
    then QueryRoute.userdb_adjust_score
    else if query_id == "userdb_block" || query_id == "userdb_unblock"
    then QueryRoute.userdb_block
    else if query_id == "module_bans_report"
    then QueryRoute.module_bans_report
    else if starts_with "userdb_" query_id
    then QueryRoute.userdb_family
    else if query_id == "prediction_get_score"
    then QueryRoute.prediction_get_score
    else if query_id == "channel_viewers"
    then QueryRoute.channel_viewers
    else if query_id == "stream_leaderboard"
    then QueryRoute.stream_leaderboard
    else if query_id == "leaderboard_report"
    then QueryRoute.stream_leaderboard_report
    else if query_id == "stream_control"
    then QueryRoute.stream_control
    else if query_id == "stream_schedule"
    then QueryRoute.stream_schedule
    else if query_id == "stream_control_status"
    then QueryRoute.stream_control_status
    else if query_id == "set_credentials"
    then QueryRoute.set_credentials
    else if query_id == "test_archive"
    then QueryRoute.test_archive
    else if query_id == "stats"
    then QueryRoute.stats
    else QueryRoute.unsupported

abbrev pub then_some : Bool → String → Option String
then_some b message = if b then some message else none

-- The denial, if there is one.
unfoldable pub caller_gate : QueryRoute → String → Option String
unfolding is_control_surface is_test_runner is_stream_adapter
caller_gate QueryRoute.test_run caller =
    then_some (not (is_control_surface caller)) "Test runner access denied: not the TUI"
caller_gate QueryRoute.test_probe caller =
    then_some (not (is_control_surface caller) && not (is_test_runner caller))
      "test_probe denied: not the TUI/test-runner"
caller_gate QueryRoute.pipeline_set_paused caller =
    then_some (not (is_control_surface caller)) "pipeline_set_paused denied: not the TUI"
caller_gate QueryRoute.engine_shutdown caller =
    then_some (not (is_control_surface caller)) "engine_shutdown denied: not the TUI"
caller_gate QueryRoute.audit_list caller =
    then_some (not (is_control_surface caller)) "Audit access denied: not the TUI"
caller_gate QueryRoute.audit_approve caller =
    then_some (not (is_control_surface caller)) "Audit access denied: not the TUI"
caller_gate QueryRoute.audit_reject caller =
    then_some (not (is_control_surface caller)) "Audit access denied: not the TUI"
caller_gate QueryRoute.userdb_adjust_score caller =
    then_some
      (not (is_control_surface caller)
        && not (caller == "score-messages")
        && not (caller == "events"))
      "userdb_adjust_score denied: not the TUI, score-messages, or events"
caller_gate QueryRoute.chat_reply caller =
    then_some (not (is_control_surface caller) && not (caller == "clip"))
      "chat_reply denied: not the clip module or the TUI"
caller_gate QueryRoute.prediction_get_score caller =
    then_some (not (is_control_surface caller) && not (caller == "events"))
      "prediction_get_score denied: not the events module"
caller_gate QueryRoute.userdb_family caller =
    then_some (not (is_control_surface caller)) "User database access denied: not the TUI"
caller_gate QueryRoute.set_credentials caller =
    then_some (not (is_control_surface caller)) "set_credentials denied: not the TUI"
caller_gate QueryRoute.test_archive caller =
    then_some (not (is_test_runner caller)) "test_archive access denied: not the test runner"
caller_gate QueryRoute.stats caller =
    then_some (not (is_control_surface caller)) "stats access denied: not the control surface"
caller_gate QueryRoute.stream_leaderboard caller =
    then_some (not (is_control_surface caller)) "stream_leaderboard denied: not the TUI"
caller_gate QueryRoute.stream_leaderboard_report caller =
    then_some (not (caller == "stream-leaderboard"))
      "leaderboard_report denied: not the stream-leaderboard module"
caller_gate QueryRoute.stream_control caller =
    then_some (not (is_control_surface caller)) "stream_control denied: not the TUI"
caller_gate QueryRoute.stream_control_status caller =
    then_some (not (is_stream_adapter caller))
      "stream_control_status denied: not a platform adapter"
caller_gate QueryRoute.unsupported caller = some "query denied: no such operation"
caller_gate QueryRoute.userdb_block caller = none
caller_gate QueryRoute.module_bans_report caller = none
caller_gate QueryRoute.db_status caller = none
caller_gate QueryRoute.module_list caller = none
caller_gate QueryRoute.engine_info caller = none
caller_gate QueryRoute.mod_family caller = none
caller_gate QueryRoute.chat_commend caller = none
caller_gate QueryRoute.chat_reprimand caller = none
caller_gate QueryRoute.chat_verify_identity caller = none
caller_gate QueryRoute.stream_schedule caller = none
caller_gate QueryRoute.channel_viewers caller = none
