-- ===== src/Commands/Parse/Items.antt =====
-- The tokens of a command written from flags and arguments, and `parse_command`'s loop on them.
use cockatiel_engine_rs.Shared.{
  String, ◌≡◌, refl, Bool, true, false, ◌&&◌, not, none, some, List, [], ◌∷◌, arith, nat_beq,
  is_some,
}
use Prim.Native.Char.{code}
use cockatiel_engine_rs.Shared.Text.{is_blank, ◌<>◌, strip_prefix, split_once}
use cockatiel_engine_rs.Wire.{Flag}
use cockatiel_engine_rs.Commands.Parse.{flag_body, parsed_flag, is_value, parse_tokens}

-- A flag alone, a flag with its value behind a colon or in the next token, or an argument.
pub data Item : Type 0 where
  bare : String → Item
  inline : String → String → Item
  valued : String → String → Item
  argument : String → Item

abbrev pub tokens : List Item → List String
tokens [] = []
tokens (bare n ∷ is) = ("-" <> n) ∷ tokens is
tokens (inline n v ∷ is) = ("-" <> n <> ":" <> v) ∷ tokens is
tokens (valued n v ∷ is) = ("-" <> n) ∷ v ∷ tokens is
tokens (argument a ∷ is) = a ∷ tokens is

abbrev pub has_no_colon : String → Bool
has_no_colon String.[] = true
has_no_colon (String.◌∷◌ c s) = not (nat_beq (code c) b':') && has_no_colon s

abbrev is_flag_name : String → Bool
is_flag_name n = not (is_blank n) && has_no_colon n

abbrev starts_with_value : List String → Bool
starts_with_value [] = false
starts_with_value (t ∷ ts) = is_value t

-- What makes the tokens tell the items apart.
abbrev pub are_items : List Item → Bool
are_items [] = true
are_items (bare n ∷ is) = is_flag_name n && not (starts_with_value (tokens is)) && are_items is
are_items (inline n v ∷ is) = has_no_colon n && are_items is
are_items (valued n v ∷ is) = is_flag_name n && is_value v && are_items is
are_items (argument a ∷ is) = not (is_some (flag_body a)) && are_items is

abbrev pub item_flags : List Flag → List Item → List Flag
item_flags definitions [] = []
item_flags definitions (bare n ∷ is) = parsed_flag definitions n "true" ∷ item_flags definitions is
item_flags definitions (inline n v ∷ is) = parsed_flag definitions n v ∷ item_flags definitions is
item_flags definitions (valued n v ∷ is) = parsed_flag definitions n v ∷ item_flags definitions is
item_flags definitions (argument a ∷ is) = item_flags definitions is

abbrev pub item_args : List Item → List String
item_args [] = []
item_args (bare n ∷ is) = item_args is
item_args (inline n v ∷ is) = item_args is
item_args (valued n v ∷ is) = item_args is
item_args (argument a ∷ is) = a ∷ item_args is

split_once-none : (n : String) → has_no_colon n ≡ true → split_once b':' n ≡ none
unfolding split_once
split_once-none String.[] plain = refl
split_once-none (String.◌∷◌ c n) plain = rw (split_once-none n (ground arith)) (ground arith)

split_once-colon :
    (n v : String) → has_no_colon n ≡ true → split_once b':' (n <> ":" <> v) ≡ some (n, v)
unfolding split_once
split_once-colon String.[] v plain = refl
split_once-colon (String.◌∷◌ c n) v plain = rw (split_once-colon n v (ground arith)) (ground arith)

flag_body-dash : (n : String) → is_blank n ≡ false → flag_body ("-" <> n) ≡ some n
unfolding flag_body strip_prefix
flag_body-dash n full = rw full refl

has_text-colon : (n v : String) → is_blank (n <> ":" <> v) ≡ false
has_text-colon String.[] v = refl
has_text-colon (String.◌∷◌ c n) v = refl

module _ (definitions : List Flag) where
  -- The flag of a token, before the tokens that the loop goes on with.
  abbrev after_flag : Flag → List String → List Flag × List String
  after_flag f ts = let rest = parse_tokens definitions ts in (f ∷ rest.0, rest.1)

  pub parse_tokens-empty : parse_tokens definitions [] ≡ ([], [])
  unfolding parse_tokens
  parse_tokens-empty = refl

  parse_tokens-argument :
      (a : String) (ts : List String)
      → flag_body a ≡ none
      → parse_tokens definitions (a ∷ ts)
        ≡ ((parse_tokens definitions ts).0, a ∷ (parse_tokens definitions ts).1)
  unfolding parse_tokens
  parse_tokens-argument a [] plain = ground arith
  parse_tokens-argument a (t ∷ ts) plain = ground arith

  parse_tokens-inline :
      (token body n v : String) (ts : List String)
      → flag_body token ≡ some body
      → split_once b':' body ≡ some (n, v)
      → parse_tokens definitions (token ∷ ts) ≡ after_flag (parsed_flag definitions n v) ts
  unfolding parse_tokens
  parse_tokens-inline token body n v [] is_flag colon = ground arith
  parse_tokens-inline token body n v (t ∷ ts) is_flag colon = ground arith

  parse_tokens-valued :
      (token body v : String) (ts : List String)
      → flag_body token ≡ some body
      → split_once b':' body ≡ none
      → is_value v ≡ true
      → parse_tokens definitions (token ∷ v ∷ ts) ≡ after_flag (parsed_flag definitions body v) ts
  unfolding parse_tokens
  parse_tokens-valued token body v ts is_flag plain value = ground arith

  parse_tokens-bare :
      (token body : String) (ts : List String)
      → flag_body token ≡ some body
      → split_once b':' body ≡ none
      → starts_with_value ts ≡ false
      → parse_tokens definitions (token ∷ ts) ≡ after_flag (parsed_flag definitions body "true") ts
  unfolding parse_tokens
  parse_tokens-bare token body [] is_flag plain none_follows = ground arith
  parse_tokens-bare token body (t ∷ ts) is_flag plain none_follows = ground arith

  pub parse_tokens-tokens :
      (is : List Item)
      → are_items is ≡ true
      → parse_tokens definitions (tokens is) ≡ (item_flags definitions is, item_args is)
  parse_tokens-tokens [] items = parse_tokens-empty
  parse_tokens-tokens (bare n ∷ is) items =
      rw
        (
          parse_tokens-bare ("-" <> n) n (tokens is) (flag_body-dash n (ground arith))
              (split_once-none n (ground arith)) (ground arith),
          parse_tokens-tokens is (ground arith),
        )
        refl
  parse_tokens-tokens (inline n v ∷ is) items =
      rw
        (
          parse_tokens-inline ("-" <> n <> ":" <> v) (n <> ":" <> v) n v (tokens is)
              (flag_body-dash (n <> ":" <> v) (has_text-colon n v))
              (split_once-colon n v (ground arith)),
          parse_tokens-tokens is (ground arith),
        )
        refl
  parse_tokens-tokens (valued n v ∷ is) items =
      rw
        (
          parse_tokens-valued ("-" <> n) n v (tokens is) (flag_body-dash n (ground arith))
              (split_once-none n (ground arith)) (ground arith),
          parse_tokens-tokens is (ground arith),
        )
        refl
  parse_tokens-tokens (argument a ∷ is) items =
      rw (parse_tokens-argument a (tokens is) (ground arith), parse_tokens-tokens is (ground arith))
        refl
