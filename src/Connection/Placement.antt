-- ===== src/Connection/Placement.antt =====
-- The ordering lists of src/config.rs: `get_config`, `refresh_config`, `update_config` and
-- `add_module_to_config`. The other settings are passed through.
pub mod Laws
pub mod Disk
use Prim.Native.String.{len}
use cockatiel_engine_rs.Shared.{
  ℕ, ◌%◌, String, Bool, ◌||◌, none, some, List, [], ◌∷◌, ◌++◌, nat_beq, if◌then◌else◌, ◌==◌, any,
  or_default, map_or, string_eq,
}
use cockatiel_engine_rs.Shared.Int.{ℤ, ltb_ℤ}
use cockatiel_engine_rs.Connection.Files.{Json, File, read_file}

pub record ModuleEntry : Type 0 where
  pub name : String
  pub priority : ℤ

pub record Config : Type 0 where
  pub inputs : List ModuleEntry
  pub preprocess_modules : List ModuleEntry
  pub inprocess_modules : List ModuleEntry
  pub postprocess_modules : List ModuleEntry
  pub other_settings : List (String × String)

pub record ConfigState : Type 0 where
  pub config_json : File
  pub last_size : ℕ
  pub config : Config

unfoldable pub has_entry : String → List ModuleEntry → Bool
has_entry name = any (λ e. e.name == name)

unfoldable pub set_priority : String → ℤ → List ModuleEntry → List ModuleEntry
set_priority name priority [] = []
set_priority name priority (e ∷ es) =
    let rest = set_priority name priority es in
    if e.name == name then record e { priority = priority } ∷ es else e ∷ rest

-- `sort_by_key` is stable.
unfoldable pub place_entry : ModuleEntry → List ModuleEntry → List ModuleEntry
place_entry e [] = e ∷ []
place_entry e (x ∷ xs) =
    let rest = place_entry e xs in if ltb_ℤ x.priority e.priority then x ∷ rest else e ∷ x ∷ xs

unfoldable pub sort_by_priority : List ModuleEntry → List ModuleEntry
unfolding place_entry
sort_by_priority [] = []
sort_by_priority (e ∷ es) = place_entry e (sort_by_priority es)

unfoldable pub is_placed : String → Config → Bool
unfolding has_entry
is_placed name c =
    has_entry name c.inputs
    || has_entry name c.preprocess_modules
    || has_entry name c.inprocess_modules
    || has_entry name c.postprocess_modules

-- In the first list that has the name.
unfoldable pub refresh_priority : String → ℤ → Config → Config
unfolding has_entry set_priority
refresh_priority name priority c =
    if has_entry name c.inputs
    then record c { inputs = set_priority name priority c.inputs }
    else if has_entry name c.preprocess_modules
    then record c { preprocess_modules = set_priority name priority c.preprocess_modules }
    else if has_entry name c.inprocess_modules
    then record c { inprocess_modules = set_priority name priority c.inprocess_modules }
    else if has_entry name c.postprocess_modules
    then record c { postprocess_modules = set_priority name priority c.postprocess_modules }
    else c

unfoldable pub add_entry : String → ℤ → List ModuleEntry → List ModuleEntry
unfolding has_entry set_priority sort_by_priority
add_entry name priority es =
    if has_entry name es
    then set_priority name priority es
    else sort_by_priority (es ++ record { name = name; priority = priority } ∷ [])

unfoldable pub place_module : String → String → ℤ → Config → Config
unfolding is_placed refresh_priority add_entry
place_module name position priority c =
    if is_placed name c
    then refresh_priority name priority c
    else if position == "input"
    then record c { inputs = add_entry name priority c.inputs }
    else if position == "preprocess"
    then record c { preprocess_modules = add_entry name priority c.preprocess_modules }
    else if position == "inprocess"
    then record c { inprocess_modules = add_entry name priority c.inprocess_modules }
    else if position == "postprocess"
    then record c { postprocess_modules = add_entry name priority c.postprocess_modules }
    else c

-- The length of a file as a `u32`.
abbrev pub size_of : String → ℕ
size_of t = len t % 0x100000000

module _ (j : Json Config) where
  -- The state with the file read again, where it is there, its size is another one and it parses.
  unfoldable pub reread : ConfigState → ConfigState
  reread s = elim s.config_json [
    | none ↦ s
    | some t ↦
        if nat_beq (size_of t) s.last_size
        then s
        else map_or (j.from_text t) s (λ c. record s { config = c; last_size = size_of t })
  ]

  unfoldable pub get_config : ConfigState → Config × ConfigState
  unfolding reread
  get_config s = ((reread s).config, reread s)

  unfoldable pub refresh_config : ConfigState → ConfigState
  refresh_config s = record s { last_size = 0xFFFFFFFF }

  unfoldable pub update_config : Bool → (Config → Config) → ConfigState → ConfigState
  update_config can_write update s =
      let c = update (or_default (read_file j s.config_json) s.config) in
      elim (j.to_text c) [
        | none ↦ record s { config = c }
        | some t ↦
            if can_write
            then record { config_json = some t; last_size = size_of t; config = c }
            else record s { config = c }
      ]

  unfoldable pub add_module_to_config : Bool → String → String → ℤ → ConfigState → ConfigState
  unfolding update_config place_module
  add_module_to_config can_write name position priority =
      update_config can_write (place_module name position priority)
