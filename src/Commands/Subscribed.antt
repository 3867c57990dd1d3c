-- ===== src/Commands/Subscribed.antt =====
-- What a registration of src/command_registry.rs does to the routing of src/pipeline.rs.
use cockatiel_engine_rs.Shared.{
  String, ◌≡◌, refl, ap, ◌∙◌, inl, inr, Bool, true, false, ◌&&◌, ◌||◌, not, Option, none, some,
  List, arith, if◌then◌else◌, Bool-cases, eq_refl, ◌==◌, is_empty, contains, map_or, lookup,
  lookup-insert, string_eq,
}
use cockatiel_engine_rs.Commands.{
  CommandRegistry, register, key_of, owner, is_command_scoped, wants_plain_messages,
  ModuleCommandReg,
}
use cockatiel_engine_rs.Wire.{Command, Commands}
use cockatiel_engine_rs.Commands.Register.{claims, other_owner, owner-register}
use cockatiel_engine_rs.Commands.Routes.{command_recipients, post_process_recipients}
use cockatiel_engine_rs.Commands.Recipients.{
  Consistent, register-Consistent, command_recipients-command, not_catch_all,
  post_process_recipients-contains, scoped-not_a_recipient,
}

module _ (m : String) (commands : Commands) (r : CommandRegistry) where
  abbrev registered : CommandRegistry
  registered = (register m commands r).1

  abbrev entry : ModuleCommandReg
  entry = record {
    commands = commands.commands;
    catch_all = is_empty commands.commands;
    alert_on_unknown = commands.alert_on_unknown_command;
  }

  found :
      (o : String)
      → lookup o registered.modules ≡ (if m == o then some entry else lookup o r.modules)
  unfolding register
  found o = lookup-insert m o entry r.modules

  scoped_as_before :
      (o : String)
      → (m == o) ≡ false
      → (is_command_scoped o registered ≡ is_command_scoped o r)
        × (wants_plain_messages o registered ≡ wants_plain_messages o r)
  unfolding is_command_scoped wants_plain_messages
  scoped_as_before o h = rw (found o, h) (refl, refl)

  scoped_now :
      (is_command_scoped m registered ≡ not (is_empty commands.commands))
      × (wants_plain_messages m registered ≡ commands.alert_on_unknown_command)
  unfolding is_command_scoped wants_plain_messages
  scoped_now = rw (found m, eq_refl m) (refl, refl)

  -- In a consistent registry, let a module register with a list of commands that is not empty, without a wish for other
  -- messages. Then it is a recipient of a command, in every stage, exactly if the stage has it and
  -- the command is in the list, whatever it or another module was registered with before. And a
  -- command in the list no longer goes to any other module that subscribed to commands alone.
  pub recipients-register :
      (o : String) (stage_modules : List String) (c : Command)
      → Consistent r
      → is_empty commands.commands ≡ false
      → commands.alert_on_unknown_command ≡ false
      → let for_m = contains stage_modules m && claims (key_of c) commands.commands in
        let to_early : String → Bool = λ x.
          map_or (command_recipients (some c) registered stage_modules) false (λ t. contains t x) in
        let to_late : String → Bool =
          λ x. contains (post_process_recipients (some c) registered stage_modules) x in
        (to_early m ≡ for_m)
        × (to_late m ≡ for_m)
        × ((m == o) ≡ false
            → is_command_scoped o r ≡ true
            → wants_plain_messages o r ≡ false
            → claims (key_of c) commands.commands ≡ true
            → (to_early o ≡ false) × (to_late o ≡ false))
  recipients-register o stage_modules c k some_command plain = (
    command_recipients-command registered stage_modules m c
        ∙ ground (arith, not_catch_all registered m after scoped, mine),
    post_process_recipients-contains (some c) registered stage_modules m ∙ late,
    λ other scoped_o plain_o taken.
        scoped-not_a_recipient registered stage_modules o (some c) after
          ((scoped_as_before o other).0 ∙ scoped_o) ((scoped_as_before o other).1 ∙ plain_o)
          (ground (arith, owned, other, taken)),
  )
    where
      after : Consistent registered
      after = register-Consistent m commands r k

      scoped : is_command_scoped m registered ≡ true
      scoped = scoped_now.0 ∙ ap not some_command

      owned : owner c.command_flag c.command_name registered ≡ (
          if claims (key_of c) commands.commands
          then some m
          else other_owner m (owner c.command_flag c.command_name r))
      owned = owner-register m c.command_flag c.command_name commands r k.distinct

      none_left : (old : Option String) → map_or (other_owner m old) false (λ o. o == m) ≡ false
      none_left none = refl
      none_left (some o) = ground arith

      mine :
          map_or (owner c.command_flag c.command_name registered) false (λ o. o == m)
          ≡ claims (key_of c) commands.commands
      mine = elim (Bool-cases (claims (key_of c) commands.commands)) [
        | inl h ↦ rw (owned, h) (eq_refl m)
        | inr h ↦ rw (owned, h) (none_left (owner c.command_flag c.command_name r))
      ]

      or_false : (b : Bool) → (b || false) ≡ b
      or_false b = ground arith

      late :
          (contains stage_modules m
            && (not (is_command_scoped m registered)
                || map_or (owner c.command_flag c.command_name registered) false (λ o. o == m)
                || wants_plain_messages m registered))
          ≡ (contains stage_modules m && claims (key_of c) commands.commands)
      late =
          rw (scoped, mine, scoped_now.1, plain)
            (ap (λ b. contains stage_modules m && b)
              (or_false (claims (key_of c) commands.commands)))
