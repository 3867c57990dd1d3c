-- ===== src/Connection/Registry.antt =====
-- `ModuleRegistryPersistence` of src/module_registry.rs: the modules that were approved, in memory and in
-- modules.json.
pub mod Laws
use cockatiel_engine_rs.Shared.{
  String, Bool, false, Option, List, [], ◌∷◌, if◌then◌else◌, ◌==◌, find, or_default, map_or,
  string_eq,
}
use cockatiel_engine_rs.Shared.Int.{ℤ}
use cockatiel_engine_rs.Connection.Files.{File, Json, write_file, read_file}

pub record RegisteredModule : Type 0 where
  pub name : String
  pub instance_uuid7 : String
  pub position : String
  pub priority : ℤ
  pub auto_auth : Bool
  pub auth_token : String

pub record ModuleRegistry : Type 0 where
  pub modules : List RegisteredModule
  pub modules_json : File

-- Replace the first entry of the name in place, or append.
unfoldable pub set_module : RegisteredModule → List RegisteredModule → List RegisteredModule
set_module m [] = m ∷ []
set_module m (x ∷ xs) = let rest = set_module m xs in if x.name == m.name then m ∷ xs else x ∷ rest

unfoldable pub find_module : String → ModuleRegistry → Option RegisteredModule
find_module name r = find (λ m. m.name == name) r.modules

unfoldable pub is_known_and_auto_auth : String → ModuleRegistry → Bool
is_known_and_auto_auth name r =
    map_or (find (λ m. m.name == name) r.modules) false (λ m. m.auto_auth)

module _ (j : Json (List RegisteredModule)) where
  unfoldable pub load : File → ModuleRegistry
  load f = record { modules = or_default (read_file j f) []; modules_json = f }

  unfoldable pub save : Bool → ModuleRegistry → ModuleRegistry
  save can_write r = record r { modules_json = write_file j can_write r.modules r.modules_json }

  unfoldable pub register_module : Bool → RegisteredModule → ModuleRegistry → ModuleRegistry
  unfolding save set_module
  register_module can_write m r = save can_write (record r { modules = set_module m r.modules })

  unfoldable pub refresh : ModuleRegistry → ModuleRegistry
  refresh r = map_or (read_file j r.modules_json) r (λ ms. record r { modules = ms })
