-- ===== src/Commands/Help.antt =====
-- src/help.rs: the answers to `!help`. The kind of a limit is decoded by generated code, and an `f32` is
-- printed by the standard library in the fewest digits that tell it apart: both are parameters.
use cockatiel_engine_rs.Shared.{
  ℕ, ◌+◌, String, Bool, false, ◌&&◌, Option, none, some, List, [], ◌∷◌, ◌++◌, nat_beq,
  if◌then◌else◌, is_empty, find, or_default,
}
use cockatiel_engine_rs.Shared.Int.{ℤ, pos, negsuc}
use cockatiel_engine_rs.Shared.Text.{◌<>◌, is_blank, eq_ignore_ascii_case, join, show_nat}
use cockatiel_engine_rs.Wire.{Command, F32, Flag}
use cockatiel_engine_rs.Commands.{CommandRegistry}
use cockatiel_engine_rs.Commands.Catalog.{commands_by_module}

pub data FlagLimitType : Type 0 where
  unspecified any_text options_only in_range : FlagLimitType

abbrev is_zero : ℤ → Bool
is_zero (pos n) = nat_beq n 0
is_zero (negsuc n) = false

abbrev rule : String
rule = "──────────"

unfoldable pub overview_line : ℕ → Command → String
overview_line number c =
    show_nat number <> " " <> c.command_flag <> c.command_name <> " — " <> c.command_description

unfoldable pub numbered : ℕ → List Command → List String
unfolding overview_line
numbered number [] = []
numbered number (c ∷ cs) = overview_line number c ∷ numbered (number + 1) cs

unfoldable pub overview_lines : List (String × List Command) → List String
unfolding numbered
overview_lines [] = []
overview_lines ((m, cs) ∷ modules) = (m <> "  commands") ∷ numbered 1 cs ++ overview_lines modules

unfoldable pub format_overview : CommandRegistry → String
unfolding overview_lines
format_overview r =
    let by_module = commands_by_module r in
    let body =
      if is_empty by_module
      then "  (no commands registered yet)" ∷ []
      else overview_lines by_module in
    join "\n" ("!help" ∷ rule ∷ body)

module _ (limit_type : ℤ → Option FlagLimitType) (show_f32 : F32 → String) where
  unfoldable pub flag_value_type : Flag → String
  flag_value_type f = elim (or_default (limit_type f.limiting_type) unspecified) [
    | any_text ↦ "text"
    | options_only ↦ if is_empty f.options then "value" else "one of: " <> join " | " f.options
    | in_range ↦
        if is_zero f.min_val && is_zero f.max_val
        then "number"
        else "number (" <> show_f32 f.min_val <> ".." <> show_f32 f.max_val <> ")"
    | unspecified ↦ "value"
  ]

  unfoldable pub flag_lines : List Flag → List String
  unfolding flag_value_type
  flag_lines [] = []
  flag_lines (f ∷ fs) =
      ("  -" <> f.flag_name <> " " <> flag_value_type f)
        ∷ (if is_blank f.flag_description then [] else ("      " <> f.flag_description) ∷ [])
      ++ flag_lines fs

  unfoldable pub command_lines : List Command → List String
  unfolding flag_lines
  command_lines [] = []
  command_lines (c ∷ cs) =
      (c.command_flag <> c.command_name)
        ∷ (if is_blank c.command_description then [] else ("  " <> c.command_description) ∷ [])
      ++ (if is_empty c.command_flags then "  (no flags)" ∷ [] else flag_lines c.command_flags)
      ++ command_lines cs

  unfoldable pub format_module : CommandRegistry → String → Option String
  unfolding command_lines
  format_module r m = elim (find (λ entry. eq_ignore_ascii_case entry.0 m) (commands_by_module r)) [
    | none ↦ none
    | some (_, commands) ↦ some (
        join "\n" (
          ("!help " <> m) ∷ rule ∷ command_lines commands
          ++ "" ∷ "!help — list all modules and their commands" ∷ []))
  ]
