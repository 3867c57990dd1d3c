-- ===== src/Commands/Parse/RoundTrip.antt =====
-- What `parse_command` reads of a chat message that was written from a command.
use cockatiel_engine_rs.Shared.{
  String, ◌≡◌, refl, true, false, none, some, List, [], ◌∷◌, arith, or_default,
}
use cockatiel_engine_rs.Shared.Text.{is_blank, ◌<>◌, strip_prefix, trim, trim_start, join}
use cockatiel_engine_rs.Shared.Text.Words.{
  is_word, are_words, spaced, is_blank-word, trim_start-word, trim_end-solid, trim_end-spaced,
  trim-spaced, strip_prefix_lem, split_word-spaced, split_whitespace-spaced,
}
use cockatiel_engine_rs.Wire.{Flag}
use cockatiel_engine_rs.Commands.{CommandRegistry, command_flags, command_description}
use cockatiel_engine_rs.Commands.Parse.{
  ParsedCommand, longest_flag, parse_tokens, parse_body, parse_command,
}
use cockatiel_engine_rs.Commands.Parse.Items.{
  Item, tokens, are_items, item_flags, item_args, parse_tokens-tokens, parse_tokens-empty,
}

abbrev pub written : String → String → List Item → String
written flag name is = flag <> name <> spaced (tokens is)

abbrev pub parsed : String → String → List Flag → List String → CommandRegistry → ParsedCommand
parsed flag name flags args r = record {
  command = record {
    command_name = name;
    command_flag = flag;
    command_description = or_default (command_description flag name r) "";
    command_flags = flags;
  };
  args = join " " args;
}

-- The tokens behind the name of a command reach the loop as they were written.
parse_body-spaced :
    (flag name : String) (ts : List String) (r : CommandRegistry)
    → are_words (name ∷ ts) ≡ true
    → parse_body flag (name <> spaced ts) r
      ≡ parsed flag name
          (parse_tokens (command_flags flag name r) ts).0
          (parse_tokens (command_flags flag name r) ts).1
          r
unfolding parse_body trim
parse_body-spaced flag name [] r words =
    rw (split_word-spaced name [] (ground arith), parse_tokens-empty) refl
parse_body-spaced flag name (t ∷ ts) r words =
    rw
      (
        split_word-spaced name (t ∷ ts) (ground arith),
        (trim-spaced t ts (ground arith)).1,
        (trim-spaced t ts (ground arith)).0,
        is_blank-word t (spaced ts) (ground arith),
        split_whitespace-spaced t ts (ground arith),
      )
      refl

pub trim-written :
    (flag name : String) (ts : List String)
    → is_word flag ≡ true
    → are_words (name ∷ ts) ≡ true
    → trim (flag <> name <> spaced ts) ≡ flag <> name <> spaced ts
unfolding trim
trim-written flag name ts flag_word words =
    rw
      (
        trim_start-word flag (name <> spaced ts) flag_word,
        trim_end-solid flag (name <> spaced ts) (ground arith),
        trim_end-solid name (spaced ts) (ground arith),
        trim_end-spaced ts (ground arith),
      )
      refl

parse_command-flag :
    (flag text after : String) (r : CommandRegistry)
    → trim text ≡ text
    → is_blank text ≡ false
    → longest_flag text none r.index ≡ some flag
    → trim_start (or_default (strip_prefix flag text) "") ≡ after
    → is_blank after ≡ false
    → parse_command text r ≡ some (parse_body flag after r)
unfolding parse_command
parse_command-flag flag text after r trimmed full registered behind command =
    rw (trimmed, full, registered, trimmed, behind, command) refl

-- A message that was written as a registered flag, the name of a command and items, with single spaces, is read
-- as that command with those flags and the arguments joined. The message has no other longest flag, every token
-- is a word, and the tokens tell the items apart: a flag's name is not empty and has no colon, a value in a token
-- of its own does not start with a dash, such a token does not follow a flag alone, and an argument is no flag.
pub parse_command-written :
    (flag name : String) (is : List Item) (r : CommandRegistry)
    → is_word flag ≡ true
    → are_words (name ∷ tokens is) ≡ true
    → are_items is ≡ true
    → longest_flag (written flag name is) none r.index ≡ some flag
    → parse_command (written flag name is) r
      ≡ some (parsed flag name (item_flags (command_flags flag name r) is) (item_args is) r)
parse_command-written flag name is r flag_word words items registered =
    rw
      (
        parse_command-flag flag (written flag name is) (name <> spaced (tokens is)) r
            (trim-written flag name (tokens is) flag_word words)
            (is_blank-word flag (name <> spaced (tokens is)) flag_word) registered
            (rw (strip_prefix_lem flag (name <> spaced (tokens is)))
              (trim_start-word name (spaced (tokens is)) (ground arith)))
            (is_blank-word name (spaced (tokens is)) (ground arith)),
        parse_body-spaced flag name (tokens is) r words,
        parse_tokens-tokens (command_flags flag name r) is items,
      )
      refl
