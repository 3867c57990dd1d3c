-- ===== src/Connection/Registry/Laws.antt =====
-- The registry of src/module_registry.rs as a map from names to modules, also across a restart.
use cockatiel_engine_rs.Shared.{
  String, ◌≡◌, refl, Bool, true, eq_iff, some, List, [], ◌∷◌, arith, if◌then◌else◌, ◌==◌, find,
  string_eq,
}
use cockatiel_engine_rs.Connection.Registry.{
  set_module, find_module, RegisteredModule, register_module, load, save, refresh, ModuleRegistry,
}
use cockatiel_engine_rs.Connection.Files.{Json, IsFaithful, read_file-write_file}

find-set_module :
    (m : RegisteredModule) (name : String) (xs : List RegisteredModule)
    → find (λ x. x.name == name) (set_module m xs)
      ≡ (if m.name == name then some m else find (λ x. x.name == name) xs)
unfolding find set_module
find-set_module m name [] = refl
find-set_module m name (x ∷ xs) =
    ground (
      arith,
      find-set_module m name xs,
      eq_iff x.name m.name,
      eq_iff m.name name,
      eq_iff x.name name,
    )

-- Registering a module sets its name in a map from names to modules: it is found under its name with the new values, and
-- every other name as before. Where the file can be written, that is also what a later start of the engine
-- loads, and a refresh changes nothing.
pub find_module-register_module :
    (j : Json (List RegisteredModule)) (faithful : IsFaithful j) (can_write : Bool)
    (m : RegisteredModule) (name : String) (r : ModuleRegistry)
    → (find_module name (register_module j can_write m r)
        ≡ (if m.name == name then some m else find_module name r))
      × (find_module name (load j (register_module j true m r).modules_json)
          ≡ (if m.name == name then some m else find_module name r))
      × (refresh j (register_module j true m r) ≡ register_module j true m r)
unfolding find_module register_module load save refresh
find_module-register_module j faithful can_write m name r = (
  find-set_module m name r.modules,
  rw (read_file-write_file j (set_module m r.modules) r.modules_json faithful)
      (find-set_module m name r.modules),
  rw (read_file-write_file j (set_module m r.modules) r.modules_json faithful) refl,
)
