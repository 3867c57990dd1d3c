-- ===== src/Queries/Modules.antt =====
-- What src/queries.rs tells of the modules: their stage, whether they start by themselves, and how many of those that
-- are expected are there. A hash set is a list without repetitions.
pub mod Ready
use cockatiel_engine_rs.Shared.{
  ℕ, String, Bool, ◌&&◌, not, Option, none, some, List, [], ◌∷◌, ◌++◌, map, leb, if◌then◌else◌,
  ◌==◌, length, any, keep, contains, is_some, or_default, string_eq,
}
use cockatiel_engine_rs.Connection.Placement.{Config, ModuleEntry}
use cockatiel_engine_rs.Connection.Sessions.{AuthSession}
use cockatiel_engine_rs.Queries.{is_control_surface}

-- A discovered module: the flag of its manifest at the discovery, and the flag in the file now, if the file is
-- there, parses and has one.
pub record Discovered : Type 0 where
  pub autostart : Bool
  pub file_autostart : Option Bool

unfoldable pub current_autostart : Discovered → Bool
current_autostart d = or_default d.file_autostart d.autostart

abbrev is_listed : String → List ModuleEntry → Bool
is_listed name entries = any (λ m. m.name == name) entries

unfoldable pub module_position_from_config : Config → String → Option String
module_position_from_config config name =
    if is_listed name config.preprocess_modules
    then some "preprocess"
    else if is_listed name config.inprocess_modules
    then some "inprocess"
    else if is_listed name config.postprocess_modules
    then some "postprocess"
    else if is_listed name config.inputs
    then some "input"
    else none

-- `collect` into a hash set.
unfoldable pub collect : List String → List String
collect [] = []
collect (x ∷ xs) = let rest = collect xs in if contains rest x then rest else x ∷ rest

unfoldable pub is_live : AuthSession → Bool
is_live s = s.authenticated && not (is_some s.shutdown_at) && not s.unresponsive

unfoldable pub no_host : List String → List String
unfolding is_control_surface
no_host names = keep (λ n. not (is_control_surface n)) names

unfoldable pub live_names : List AuthSession → List String
unfolding is_live no_host
live_names sessions = collect (no_host (map (λ s. s.module_name) (keep is_live sessions)))

unfoldable pub autostart_names : List (String × Discovered) → List String
unfolding no_host current_autostart
autostart_names discovered = no_host (map (λ m. m.0) (keep (λ m. current_autostart m.1) discovered))

unfoldable pub module_load_counts : List (String × Discovered) → List AuthSession → ℕ × ℕ × Bool
unfolding collect live_names autostart_names
module_load_counts discovered sessions =
    let live = live_names sessions in
    let expected = collect (autostart_names discovered ++ live) in
    let configured = length expected in
    let live_count = length (keep (contains live) expected) in
    (configured, live_count, leb configured live_count)
