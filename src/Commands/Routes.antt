-- ===== src/Commands/Routes.antt =====
-- `command_recipients` and `should_shadow` of src/pipeline.rs, and the post-process filter of
-- `start_post_process`: who in a stage receives a message.
use cockatiel_engine_rs.Shared.{
  String, Bool, false, ◌&&◌, ◌||◌, not, Option, none, some, List, [], ◌∷◌, ◌++◌, ◌==◌, keep,
  contains, map_or, string_eq,
}
use cockatiel_engine_rs.Wire.{Command}
use cockatiel_engine_rs.Commands.{
  CommandRegistry, owner, catch_alls, is_command_scoped, wants_plain_messages,
}

abbrev pub to_list {ℓ} : {A : Type ℓ} → Option A → List A
to_list none = []
to_list (some a) = a ∷ []

-- The code answers an `Option` whose `None` it never returns.
unfoldable pub command_recipients :
    Option Command → CommandRegistry → List String → Option (List String)
command_recipients none r stage_modules =
    some (keep (λ m. not (is_command_scoped m r) || wants_plain_messages m r) stage_modules)
command_recipients (some c) r stage_modules = some (
    keep (contains stage_modules) (to_list (owner c.command_flag c.command_name r) ++ catch_alls r))

unfoldable pub post_process_recipients :
    Option Command → CommandRegistry → List String → List String
post_process_recipients parsed r stage_modules =
    let owned : Option String = elim parsed [
      | none ↦ none
      | some c ↦ owner c.command_flag c.command_name r
    ] in
    keep
      (λ m.
        not (is_command_scoped m r) || map_or owned false (λ o. o == m) || wants_plain_messages m r)
      stage_modules

unfoldable pub should_shadow : Bool → Bool → Bool
should_shadow live_incumbent same_instance = live_incumbent && not same_instance
