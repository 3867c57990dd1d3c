-- ===== src/Commands/Parse.antt =====
-- `parse_command` of src/command_registry.rs: the command, the flags and the arguments of a chat message.
pub mod Items
pub mod RoundTrip
pub mod Longest
use Prim.Native.String.{len}
use cockatiel_engine_rs.Shared.{
  String, Bool, true, ◌&&◌, not, Option, none, some, List, [], ◌∷◌, ltb, if◌then◌else◌, ◌==◌, find,
  or_default, map_or, string_eq, pair_eq,
}
use cockatiel_engine_rs.Shared.Int.{pos}
use cockatiel_engine_rs.Shared.Text.{
  is_blank, trim, trim_start, strip_prefix, starts_with, split_word, split_whitespace, split_once,
  join,
}
use cockatiel_engine_rs.Wire.{Command, Flag}
use cockatiel_engine_rs.Commands.{CommandRegistry, command_flags, command_description, Key}

pub record ParsedCommand : Type 0 where
  pub command : Command
  pub args : String

-- The longest flag of a registered command that the text starts with, the first
-- one among equals.
unfoldable pub longest_flag : String → Option String → List (Key × String) → Option String
longest_flag raw best [] = best
longest_flag raw best (((f, n), o) ∷ index) =
    let longer = map_or best true (λ b. ltb (len b) (len f)) in
    longest_flag raw (if starts_with f raw && longer then some f else best) index

-- The text after the dash of a flag token: `-` and at least one more character.
unfoldable pub flag_body : String → Option String
flag_body token = elim (strip_prefix "-" token) [
  | none ↦ none
  | some body ↦ if is_blank body then none else some body
]

unfoldable pub parsed_flag : List Flag → String → String → Flag
parsed_flag definitions name value = elim (find (λ d. d.flag_name == name) definitions) [
  | none ↦ record {
    flag_name = name;
    flag_description = "";
    limiting_type = pos 0;
    min_val = pos 0;
    max_val = pos 0;
    options = [];
    value = value;
  }
  | some d ↦ record d { flag_name = name; value = value }
]

-- Whether a token can be the value of the flag token before it.
unfoldable pub is_value : String → Bool
is_value token = not (starts_with "-" token)

-- The loop over the tokens.
unfoldable pub parse_tokens : List Flag → List String → List Flag × List String
parse_tokens definitions [] = ([], [])
parse_tokens definitions (token ∷ []) = elim (flag_body token) [
  | none ↦ ([], token ∷ [])
  | some body ↦ elim (split_once b':' body) [
    | none ↦ (parsed_flag definitions body "true" ∷ [], [])
    | some (name, value) ↦ (parsed_flag definitions name value ∷ [], [])
  ]
]
parse_tokens definitions (token ∷ next ∷ rest) =
    let from_next = parse_tokens definitions (next ∷ rest) in
    let after_next = parse_tokens definitions rest in
    elim (flag_body token) [
      | none ↦ (from_next.0, token ∷ from_next.1)
      | some body ↦ elim (split_once b':' body) [
        | none ↦
            if is_value next
            then (parsed_flag definitions body next ∷ after_next.0, after_next.1)
            else (parsed_flag definitions body "true" ∷ from_next.0, from_next.1)
        | some (name, value) ↦ (parsed_flag definitions name value ∷ from_next.0, from_next.1)
      ]
    ]

-- The message after its flag, which is not white space only.
unfoldable pub parse_body : String → String → CommandRegistry → ParsedCommand
parse_body flag after_flag r =
    let (name, after_name) = split_word after_flag in
    let rest = trim (trim after_name) in
    let (flags, args) =
      if is_blank rest
      then ([], [])
      else parse_tokens (command_flags flag name r) (split_whitespace rest) in
    record {
      command = record {
        command_name = name;
        command_flag = flag;
        command_description = or_default (command_description flag name r) "";
        command_flags = flags;
      };
      args = join " " args;
    }

unfoldable pub parse_command : String → CommandRegistry → Option ParsedCommand
parse_command text r =
    let raw = trim text in
    if is_blank raw then none else elim (longest_flag raw none r.index) [
      | none ↦ none
      | some flag ↦
          let after_flag = trim_start (or_default (strip_prefix flag raw) "") in
          if is_blank after_flag then none else some (parse_body flag after_flag r)
    ]
