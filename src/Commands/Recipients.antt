-- ===== src/Commands/Recipients.antt =====
-- Who receives a message, by `Key` of a command: the routing of src/pipeline.rs over the registry of
-- src/command_registry.rs.
use cockatiel_engine_rs.Shared.{
  String, ◌≡◌, refl, ◌∙◌, inl, inr, true, false, ◌&&◌, ◌||◌, not, eq_iff, Option, none, some, List,
  [], ◌∷◌, map, arith, if◌then◌else◌, Option-cases, beq_bool, beq_bool_refl, ◌==◌, is_empty, keep,
  contains, contains-keep, Map, map_or, lookup, lookup-insert, Distinct, insert-Distinct, string_eq,
  pair_eq,
}
use cockatiel_engine_rs.Commands.{
  CommandRegistry, register, owner, ModuleCommandReg, catch_alls, is_command_scoped,
  wants_plain_messages, Key,
}
use cockatiel_engine_rs.Wire.{Commands, Command}
use cockatiel_engine_rs.Commands.Register.{
  claims, owner-register, other_owner-cases, register-Distinct,
}
use cockatiel_engine_rs.Commands.Routes.{command_recipients, post_process_recipients}

-- A registry as `register` leaves it: an owner of a command is registered with that command in its
-- list, and the catch-all modules are those registered with no command.
pub record Consistent (r : CommandRegistry) : Type 0 where
  pub distinct : Distinct {K = Key} r.index
  pub once : Distinct r.modules
  pub owned :
      (flag name m : String)
      → owner flag name r ≡ some m
      → map_or (lookup m r.modules) false (λ reg. claims (flag, name) reg.commands) ≡ true
  pub scoped :
      (m : String)
      → map_or (lookup m r.modules) true (λ reg. beq_bool reg.catch_all (is_empty reg.commands))
        ≡ true

-- `register` keeps the registry consistent, whatever the module was registered with before.
pub register-Consistent :
    (m : String) (commands : Commands) (r : CommandRegistry)
    → Consistent r
    → Consistent (register m commands r).1
unfolding register
register-Consistent m commands r c = record {
  distinct = register-Distinct m commands r c.distinct;
  once = once;
  owned = owned;
  scoped = scoped;
}
  where
    once : Distinct (register m commands r).1.modules
    once = insert-Distinct m _ r.modules c.once

    reg : ModuleCommandReg
    reg = record {
      commands = commands.commands;
      catch_all = is_empty commands.commands;
      alert_on_unknown = commands.alert_on_unknown_command;
    }

    found :
        (o : String)
        → lookup o (register m commands r).1.modules
          ≡ (if m == o then some reg else lookup o r.modules)
    found o = lookup-insert m o reg r.modules

    owned :
        (flag name o : String)
        → owner flag name (register m commands r).1 ≡ some o
        → map_or
            (lookup o (register m commands r).1.modules)
            false
            (λ reg. claims (flag, name) reg.commands)
          ≡ true
    owned flag name o h = ground (
      arith,
      found o,
      eq_iff m o,
      eq_iff o m,
      owner-register m flag name commands r c.distinct,
      c.owned flag name o,
      other_owner-cases m o (owner flag name r),
    )

    scoped :
        (o : String)
        → map_or
            (lookup o (register m commands r).1.modules)
            true
            (λ reg. beq_bool reg.catch_all (is_empty reg.commands))
          ≡ true
    scoped o = ground (arith, found o, c.scoped o, beq_bool_refl (is_empty commands.commands))

module _ (r : CommandRegistry) (stage_modules : List String) (m : String) where
  -- Who gets a command in a pre- or in-process stage: of the stage's modules exactly its owner and the
  -- catch-all modules.
  pub command_recipients-command :
      (c : Command)
      → map_or (command_recipients (some c) r stage_modules) false (λ t. contains t m) ≡ (
          contains stage_modules m
          && (map_or (owner c.command_flag c.command_name r) false (λ o. o == m)
              || contains (catch_alls r) m))
  unfolding command_recipients contains
  command_recipients-command c = elim (Option-cases (owner c.command_flag c.command_name r)) [
    | inl h ↦ rw h (ground (arith, contains-keep (contains stage_modules) (catch_alls r) m))
    | inr (o, h) ↦ rw h (contains-keep (contains stage_modules) (o ∷ catch_alls r) m ∙ ground arith)
  ]

  -- Who gets a plain message there: of the stage's modules those that own no command, or asked for
  -- plain messages.
  command_recipients-plain :
      map_or (command_recipients none r stage_modules) false (λ t. contains t m)
      ≡ (contains stage_modules m && (not (is_command_scoped m r) || wants_plain_messages m r))
  unfolding command_recipients
  command_recipients-plain = contains-keep _ stage_modules m

catch_alls_sound :
    (mods : Map String ModuleCommandReg) (m : String)
    → Distinct mods
    → contains (map (λ p. p.0) (keep (λ p. p.1.catch_all) mods)) m
      ≡ map_or (lookup m mods) false (λ reg. reg.catch_all)
unfolding contains keep lookup
catch_alls_sound [] m d = refl
catch_alls_sound ((j, reg) ∷ mods) m d = ground (arith, eq_iff j m, catch_alls_sound mods m d.1)

pub not_catch_all :
    (r : CommandRegistry) (m : String)
    → Consistent r
    → is_command_scoped m r ≡ true
    → contains (catch_alls r) m ≡ false
unfolding catch_alls is_command_scoped
not_catch_all r m c scoped = elim (Option-cases (lookup m r.modules)) [
  | inl h ↦ ground (arith, h, catch_alls_sound r.modules m c.once)
  | inr (reg, h) ↦ ground (arith, h, catch_alls_sound r.modules m c.once, scoped_reg reg h)
]
  where
    scoped_reg : (reg : ModuleCommandReg) → lookup m r.modules ≡ some reg → reg.catch_all ≡ false
    scoped_reg reg h = ground (arith, c.scoped m)

pub post_process_recipients-contains :
    (parsed : Option Command) (r : CommandRegistry) (stage_modules : List String) (m : String)
    → contains (post_process_recipients parsed r stage_modules) m ≡ (
        contains stage_modules m
        && (not (is_command_scoped m r)
            || map_or parsed false
                (λ c. map_or (owner c.command_flag c.command_name r) false (λ o. o == m))
            || wants_plain_messages m r))
unfolding post_process_recipients
post_process_recipients-contains none r stage_modules m = contains-keep _ stage_modules m
post_process_recipients-contains (some c) r stage_modules m = contains-keep _ stage_modules m

-- The price of a module is not charged for what it ignores: in a consistent registry, a module that
-- has subscribed to commands, and did not ask for plain messages, is a recipient in no stage of a
-- plain message, nor of a command that it does not own.
pub scoped-not_a_recipient :
    (r : CommandRegistry) (stage_modules : List String) (m : String) (parsed : Option Command)
    → Consistent r
    → is_command_scoped m r ≡ true
    → wants_plain_messages m r ≡ false
    → map_or parsed false (λ c. map_or (owner c.command_flag c.command_name r) false (λ o. o == m))
      ≡ false
    → (map_or (command_recipients parsed r stage_modules) false (λ t. contains t m) ≡ false)
      × (contains (post_process_recipients parsed r stage_modules) m ≡ false)
scoped-not_a_recipient r stage_modules m none c scoped plain other = (
  command_recipients-plain r stage_modules m ∙ ground arith,
  post_process_recipients-contains none r stage_modules m ∙ ground arith,
)
scoped-not_a_recipient r stage_modules m (some cmd) c scoped plain other = (
  command_recipients-command r stage_modules m cmd ∙ ground (arith, not_catch_all r m c scoped),
  post_process_recipients-contains (some cmd) r stage_modules m ∙ ground arith,
)
