-- ===== src/Connection/Placement/Laws.antt =====
-- Where a module stands in the ordering lists of src/config.rs, and what the operator's moves are worth.
use cockatiel_engine_rs.Shared.{
  String, Bool, ◌&&◌, ◌||◌, not, List, [], if◌then◌else◌, ◌==◌, string_eq,
}
use cockatiel_engine_rs.Connection.Placement.{
  Config, ModuleEntry, refresh_priority, is_placed, place_module,
}
use cockatiel_engine_rs.Shared.Int.{ℤ}

-- The list of a stage, by the name that the code gives the stage.
abbrev pub list_of : String → Config → List ModuleEntry
list_of position c =
    if position == "input"
    then c.inputs
    else if position == "preprocess"
    then c.preprocess_modules
    else if position == "inprocess"
    then c.inprocess_modules
    else if position == "postprocess"
    then c.postprocess_modules
    else []

abbrev pub is_stage : String → Bool
is_stage p = p == "input" || p == "preprocess" || p == "inprocess" || p == "postprocess"

module _ (n name : String) (priority : ℤ) (c : Config) where
  abbrev refreshed : Config
  refreshed = refresh_priority name priority c

  -- What a first placement adds to the list of a stage.
  abbrev is_new : String → String → Bool
  is_new position stage = name == n && not (is_placed name c) && position == stage

  abbrev placed : String → Config
  placed position = place_module name position priority c
