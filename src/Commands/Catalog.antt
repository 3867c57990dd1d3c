-- ===== src/Commands/Catalog.antt =====
-- `all_commands` and `commands_by_module` of src/command_registry.rs: the lists behind `!help`.
use cockatiel_engine_rs.Shared.{
  String, ◌≡◌, refl, ◌∙◌, Bool, ◌||◌, not, pair_beq_iff, eq_iff, Option, none, some, List, [], ◌∷◌,
  ◌++◌, arith, if◌then◌else◌, pair_beq, any, keep, keep-append, find, contains, find_of_any,
  any-find, filter_map, sort, IsOrdered, sort-IsOrdered, keep-IsOrdered, contains-sort, is_empty,
  lookup, map_or, is_some, map, Option-cases, Map, string_eq, pair_eq,
}
use cockatiel_engine_rs.Commands.{Key, CommandRegistry, ModuleCommandReg, key_of, is_command_scoped}
use cockatiel_engine_rs.Wire.{Command}

-- The loop over one module's commands: what it adds to the answer, and the keys seen after it.
unfoldable pub list_new : List Key → List Command → List Command × List Key
list_new seen [] = ([], seen)
list_new seen (c ∷ cs) =
    let is_new = not (contains seen (key_of c)) in
    let (out, done) = list_new (if is_new then key_of c ∷ seen else seen) cs in
    (if is_new then c ∷ out else out, done)

unfoldable pub list_all : List Key → Map String ModuleCommandReg → List Command
unfolding list_new
list_all seen [] = []
list_all seen ((m, reg) ∷ rest) =
    let (out, done) = list_new seen reg.commands in out ++ list_all done rest

unfoldable pub all_commands : CommandRegistry → List Command
unfolding list_all
all_commands r = list_all [] r.modules

abbrev pub is_named : Key → Command → Bool
is_named k c = pair_beq (key_of c) k

-- The modules' lists one after another, as they were registered.
unfoldable pub listed : Map String ModuleCommandReg → List Command
listed [] = []
listed ((m, reg) ∷ rest) = reg.commands ++ listed rest

abbrev pub first_one : Option Command → List Command
first_one none = []
first_one (some c) = c ∷ []

list_new-seen :
    (k : Key) (seen : List Key) (cs : List Command)
    → contains (list_new seen cs).1 k ≡ (contains seen k || any (is_named k) cs)
unfolding list_new contains any
list_new-seen k seen [] = ground arith
list_new-seen k seen (c ∷ cs) = ground (
  arith,
  list_new-seen k seen cs,
  list_new-seen k (key_of c ∷ seen) cs,
  pair_beq_iff (key_of c) k,
)

keep-list_new :
    (k : Key) (seen : List Key) (cs : List Command)
    → keep (is_named k) (list_new seen cs).0
      ≡ (if contains seen k then [] else first_one (find (is_named k) cs))
unfolding list_new contains keep find
keep-list_new k seen [] = ground arith
keep-list_new k seen (c ∷ cs) = ground (
  arith,
  keep-list_new k seen cs,
  keep-list_new k (key_of c ∷ seen) cs,
  pair_beq_iff (key_of c) k,
)

find-append :
    {A : Type 0} (p : A → Bool) (xs ys : List A)
    → find p (xs ++ ys) ≡ (if any p xs then find p xs else find p ys)
unfolding find any
find-append p [] ys = refl
find-append p (x ∷ xs) ys = ground (arith, find-append p xs ys)

keep-list_all :
    (k : Key) (seen : List Key) (m : Map String ModuleCommandReg)
    → keep (is_named k) (list_all seen m)
      ≡ (if contains seen k then [] else first_one (find (is_named k) (listed m)))
unfolding list_all listed keep find
keep-list_all k seen [] = ground arith
keep-list_all k seen ((n, reg) ∷ m) =
    keep-append (is_named k) (list_new seen reg.commands).0 _
    ∙ ground (
      arith,
      keep-list_new k seen reg.commands,
      keep-list_all k (list_new seen reg.commands).1 m,
      list_new-seen k seen reg.commands,
      find-append (is_named k) reg.commands (listed m),
      any-find (is_named k) reg.commands,
      find_of_any (is_named k) reg.commands,
    )

-- The list of all commands has each flag and name at most once: what it has of them is the first command that
-- a registered module listed under them, and nothing where no module listed one.
pub all_commands-once :
    (k : Key) (r : CommandRegistry)
    → keep (is_named k) (all_commands r) ≡ first_one (find (is_named k) (listed r.modules))
unfolding all_commands contains
all_commands-once k r = keep-list_all k [] r.modules

-- One module of the answer, `none` for one that lists no command.
unfoldable pub module_commands : CommandRegistry → String → Option (String × List Command)
module_commands r m = elim (lookup m r.modules) [
  | none ↦ none
  | some reg ↦ if is_empty reg.commands then none else some (m, reg.commands)
]

unfoldable pub commands_by_module : CommandRegistry → List (String × List Command)
unfolding module_commands
commands_by_module r = filter_map (module_commands r) (sort (map (λ p. p.0) r.modules))

module_names :
    (r : CommandRegistry) (ms : List String)
    → map (λ p. p.0) (filter_map (module_commands r) ms) ≡ keep (λ m. is_command_scoped m r) ms
unfolding filter_map module_commands keep is_command_scoped
module_names r [] = refl
module_names r (m ∷ ms) = ground (arith, module_names r ms, Option-cases (lookup m r.modules))

contains_names :
    {V : Type 0} (m : String) (t : Map String V)
    → contains (map (λ p. p.0) t) m ≡ is_some (lookup m t)
unfolding contains lookup
contains_names m [] = refl
contains_names m ((n, v) ∷ t) = ground (arith, contains_names m t)

-- What a module is listed with: its commands, unless there are none.
abbrev pub listed_with : String → CommandRegistry → Option (List Command)
listed_with m r =
    map_or (lookup m r.modules) none
      (λ reg. if is_empty reg.commands then none else some reg.commands)

lookup-filter_map :
    (m : String) (r : CommandRegistry) (ms : List String)
    → lookup m (filter_map (module_commands r) ms)
      ≡ (if contains ms m then listed_with m r else none)
unfolding filter_map module_commands lookup contains
lookup-filter_map m r [] = refl
lookup-filter_map m r (n ∷ ms) =
    ground (arith, lookup-filter_map m r ms, Option-cases (lookup n r.modules), eq_iff n m)

-- `commands_by_module` lists the modules in the order of their names, and under a module's name its commands as it registered them; a
-- module that registered none, or is not registered, is not in it.
pub commands_by_module_lem :
    (r : CommandRegistry) (m : String)
    → IsOrdered (map (λ p. p.0) (commands_by_module r))
      × (lookup m (commands_by_module r) ≡ listed_with m r)
unfolding commands_by_module
commands_by_module_lem r m = (
  rw (module_names r (sort (map (λ p. p.0) r.modules)))
      (keep-IsOrdered (λ n. is_command_scoped n r) _ (sort-IsOrdered (map (λ p. p.0) r.modules))),
  ground (
    arith,
    lookup-filter_map m r (sort (map (λ p. p.0) r.modules)),
    contains-sort m (map (λ p. p.0) r.modules),
    contains_names m r.modules,
    Option-cases (lookup m r.modules),
  ),
)
