-- ===== src/Shared/Text.antt =====
-- Texts as `str` of the standard library treats them: white space as Unicode has it, trimming, prefixes, splitting and
-- joining, lower case of ASCII letters, decimal digits.
pub mod Words
use Prim.Native.Nat.{ℕ, zero, suc, ◌/◌, ◌%◌}
use Prim.Native.Char.{Char, code}
use Prim.Native.String.{String, char_at}
use mathlib.Core.Option.{Option, none, some}
use mathlib.Core.List.{List, [], ◌∷◌}
use mathlib.Core.Bool.{Bool, true, false, ◌&&◌, ◌||◌}
use cockatiel_engine_rs.Shared.Keys.{◌==◌, string_eq}
use cockatiel_engine_rs.Shared.Tests.{leb, ltb, nat_beq, if◌then◌else◌}

abbrev pub is_blank : String → Bool
is_blank String.[] = true
is_blank (String.◌∷◌ c s) = false

-- The characters with the property White_Space.
unfoldable pub is_whitespace : Char → Bool
is_whitespace c =
    let n = code c in
    leb 0x09 n && leb n 0x0D
    || nat_beq n 0x20
    || nat_beq n 0x85
    || nat_beq n 0xA0
    || nat_beq n 0x1680
    || leb 0x2000 n && leb n 0x200A
    || nat_beq n 0x2028
    || nat_beq n 0x2029
    || nat_beq n 0x202F
    || nat_beq n 0x205F
    || nat_beq n 0x3000

unfoldable pub trim_start : String → String
unfolding is_whitespace
trim_start String.[] = String.[]
trim_start (String.◌∷◌ c s) =
    let rest = trim_start s in if is_whitespace c then rest else String.◌∷◌ c s

unfoldable pub trim_end : String → String
unfolding is_whitespace
trim_end String.[] = String.[]
trim_end (String.◌∷◌ c s) =
    let rest = trim_end s in
    if is_whitespace c && is_blank rest then String.[] else String.◌∷◌ c rest

unfoldable pub trim : String → String
unfolding trim_start trim_end
trim s = trim_end (trim_start s)

-- `push_str`, by clauses.
infixr 65 ◌<>◌
abbrev pub ◌<>◌ : String → String → String
String.[] <> t = t
(String.◌∷◌ c s) <> t = String.◌∷◌ c (s <> t)

-- What follows a prefix, if the text starts with it.
unfoldable pub strip_prefix : String → String → Option String
strip_prefix String.[] s = some s
strip_prefix (String.◌∷◌ c p) String.[] = none
strip_prefix (String.◌∷◌ c p) (String.◌∷◌ d s) =
    let rest = strip_prefix p s in if nat_beq (code c) (code d) then rest else none

unfoldable pub starts_with : String → String → Bool
starts_with String.[] s = true
starts_with (String.◌∷◌ c p) String.[] = false
starts_with (String.◌∷◌ c p) (String.◌∷◌ d s) =
    let rest = starts_with p s in nat_beq (code c) (code d) && rest

-- The text before the first white space, and the text from there on.
unfoldable pub split_word : String → String × String
split_word String.[] = ("", "")
split_word (String.◌∷◌ c s) =
    let (word, rest) = split_word s in
    if is_whitespace c then ("", String.◌∷◌ c s) else (String.◌∷◌ c word, rest)

abbrev pub add_word : String → List String → List String
add_word w ws = if is_blank w then ws else w ∷ ws

-- The word that the text begins with, and the words after it.
unfoldable pub scan_words : String → String × List String
scan_words String.[] = ("", [])
scan_words (String.◌∷◌ c s) =
    let (word, words) = scan_words s in
    if is_whitespace c then ("", add_word word words) else (String.◌∷◌ c word, words)

unfoldable pub split_whitespace : String → List String
unfolding scan_words
split_whitespace s = let (word, words) = scan_words s in add_word word words

-- `split_once` at a character, given by its number.
unfoldable pub split_once : ℕ → String → Option (String × String)
split_once n String.[] = none
split_once n (String.◌∷◌ c s) =
    let rest = split_once n s in
    if nat_beq (code c) n
    then some ("", s)
    else (elim rest [ none ↦ none | some (a, b) ↦ some (String.◌∷◌ c a, b) ])

unfoldable pub join : String → List String → String
join sep [] = ""
join sep (w ∷ []) = w
join sep (w ∷ v ∷ ws) = w <> sep <> join sep (v ∷ ws)

-- The character that stands where the given one does in another text.
abbrev translate : Char → String → String → Char
translate c (String.◌∷◌ from froms) (String.◌∷◌ to tos) =
    let rest = translate c froms tos in if nat_beq (code c) (code from) then to else rest
translate c _ _ = c

unfoldable pub to_ascii_lowercase : String → String
to_ascii_lowercase String.[] = String.[]
to_ascii_lowercase (String.◌∷◌ c s) =
    String.◌∷◌ (translate c "ABCDEFGHIJKLMNOPQRSTUVWXYZ" "abcdefghijklmnopqrstuvwxyz")
      (to_ascii_lowercase s)

abbrev pub eq_ignore_ascii_case : String → String → Bool
eq_ignore_ascii_case a b = to_ascii_lowercase a == to_ascii_lowercase b

-- The text from a character on.
unfoldable pub skip : ℕ → String → String
skip zero s = s
skip (suc n) String.[] = String.[]
skip (suc n) (String.◌∷◌ c s) = skip n s

abbrev digit : ℕ → Char
digit n = char_at "0123456789" n

-- The decimal digits of a number, before other text. A number has no more digits than its successor counts.
unfoldable pub digits : ℕ → ℕ → String → String
digits zero n s = s
digits (suc fuel) n s =
    let shown = String.◌∷◌ (digit (n % 10)) s in
    let rest = digits fuel (n / 10) shown in if ltb n 10 then shown else rest

unfoldable pub show_nat : ℕ → String
unfolding digits
show_nat n = digits (suc n) n ""
