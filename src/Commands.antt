-- ===== src/Commands.antt =====
-- src/command_registry.rs: which module has subscribed to which chat command, and, from
-- src/pipeline.rs, which modules of a stage a message is sent to.
pub mod Routes
pub mod Register
pub mod Recipients
pub mod Subscribed
pub mod Catalog
pub mod Parse
pub mod Nearest
pub mod Help
use cockatiel_engine_rs.Shared.{
  String, Bool, false, ◌&&◌, not, Option, none, some, List, [], ◌∷◌, ◌++◌, map, if◌then◌else◌, ◌==◌,
  is_empty, any, keep, find, Map, is_some, map_or, lookup, insert, retain, string_eq, pair_eq,
}
use cockatiel_engine_rs.Wire.{Command, Commands, Flag}

pub record ModuleCommandReg : Type 0 where
  pub commands : List Command
  pub catch_all : Bool
  pub alert_on_unknown : Bool

pub record CommandCollision : Type 0 where
  pub flag : String
  pub name : String
  pub existing_owner : String
  pub new_owner : String

abbrev pub Key : Type 0
Key = String × String

pub record CommandRegistry : Type 0 where
  pub index : Map Key String
  pub modules : Map String ModuleCommandReg

abbrev pub default_registry : CommandRegistry
default_registry = record { index = []; modules = [] }

abbrev pub key_of : Command → Key
key_of c = (c.command_flag, c.command_name)

abbrev pub collision : String → Command → String → CommandCollision
collision m c existing = record {
  flag = c.command_flag;
  name = c.command_name;
  existing_owner = existing;
  new_owner = m;
}

-- The collision, if any, of one command with the index as it is.
unfoldable pub collides : String → Command → Map Key String → List CommandCollision
collides m c index = elim (lookup (key_of c) index) [
  | none ↦ []
  | some existing ↦ if existing == m then [] else collision m c existing ∷ []
]

-- The loop of `register` over the commands.
unfoldable pub claim :
    String → List Command → Map Key String → List CommandCollision × Map Key String
unfolding collides
claim m [] index = ([], index)
claim m (c ∷ cs) index =
    let (collisions, done) = claim m cs (insert (key_of c) m index) in
    (collides m c index ++ collisions, done)

unfoldable pub register :
    String → Commands → CommandRegistry → List CommandCollision × CommandRegistry
unfolding claim
register m commands r =
    let kept = retain (λ _ owner. not (owner == m)) r.index in
    let (collisions, index) = claim m commands.commands kept in
    (
      collisions,
      record {
        index = index;
        modules =
            insert m
              (record {
                commands = commands.commands;
                catch_all = is_empty commands.commands;
                alert_on_unknown = commands.alert_on_unknown_command;
              })
              r.modules;
      },
    )

unfoldable pub owner : String → String → CommandRegistry → Option String
owner flag name r = lookup (flag, name) r.index

unfoldable pub flag_known : String → CommandRegistry → Bool
flag_known flag r = any (λ p. p.0.0 == flag) r.index

unfoldable pub names : String → CommandRegistry → List String
names flag r = map (λ p. p.0.1) (keep (λ p. p.0.0 == flag) r.index)

-- The owner's own definition of a command, which two of the queries read.
unfoldable pub definition : String → String → CommandRegistry → Option Command
unfolding owner
definition flag name r = elim (owner flag name r) [
  | none ↦ none
  | some o ↦ elim (lookup o r.modules) [
    | none ↦ none
    | some reg ↦ find (λ c. c.command_flag == flag && c.command_name == name) reg.commands
  ]
]

unfoldable pub command_flags : String → String → CommandRegistry → List Flag
unfolding definition
command_flags flag name r = map_or (definition flag name r) [] (λ c. c.command_flags)

unfoldable pub command_description : String → String → CommandRegistry → Option String
unfolding definition
command_description flag name r = elim (definition flag name r) [
  | none ↦ none
  | some c ↦ some c.command_description
]

unfoldable pub catch_alls : CommandRegistry → List String
catch_alls r = map (λ p. p.0) (keep (λ p. p.1.catch_all) r.modules)

unfoldable pub has_registration : String → CommandRegistry → Bool
has_registration m r = is_some (lookup m r.modules)

unfoldable pub is_command_scoped : String → CommandRegistry → Bool
is_command_scoped m r = map_or (lookup m r.modules) false (λ reg. not (is_empty reg.commands))

unfoldable pub wants_plain_messages : String → CommandRegistry → Bool
wants_plain_messages m r = map_or (lookup m r.modules) false (λ reg. reg.alert_on_unknown)

unfoldable pub alert_owner_in :
    String → Map String ModuleCommandReg → Map Key String → Option String
alert_owner_in flag modules [] = none
alert_owner_in flag modules (((f, n), o) ∷ index) =
    let rest = alert_owner_in flag modules index in
    if f == flag && map_or (lookup o modules) false (λ reg. reg.alert_on_unknown)
    then some o
    else rest

unfoldable pub alert_owner_for : String → CommandRegistry → Option String
unfolding alert_owner_in
alert_owner_for flag r = alert_owner_in flag r.modules r.index
