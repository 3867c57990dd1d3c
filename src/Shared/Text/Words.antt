-- ===== src/Shared/Text/Words.antt =====
-- Words with single spaces between them: how `trim`, `split_whitespace` and `find` take them apart.
use cockatiel_engine_rs.Shared.{
  String, ◌≡◌, refl, ap, Bool, true, false, ◌&&◌, not, some, List, [], ◌∷◌, arith,
}
use cockatiel_engine_rs.Shared.Text.{
  is_blank, is_whitespace, trim_start, trim_end, trim, ◌<>◌, strip_prefix, split_word, add_word,
  scan_words, split_whitespace,
}

-- No character is white space.
abbrev pub is_solid : String → Bool
is_solid String.[] = true
is_solid (String.◌∷◌ c s) = not (is_whitespace c) && is_solid s

abbrev pub is_word : String → Bool
is_word s = is_solid s && not (is_blank s)

abbrev pub are_words : List String → Bool
are_words [] = true
are_words (w ∷ ws) = is_word w && are_words ws

-- The words, a space before each.
abbrev pub spaced : List String → String
spaced [] = ""
spaced (w ∷ ws) = " " <> w <> spaced ws

pub is_blank-word : (w t : String) → is_word w ≡ true → is_blank (w <> t) ≡ false
is_blank-word String.[] t word = ground arith
is_blank-word (String.◌∷◌ c w) t word = refl

pub trim_start-word : (w t : String) → is_word w ≡ true → trim_start (w <> t) ≡ w <> t
unfolding trim_start
trim_start-word String.[] t word = ground arith
trim_start-word (String.◌∷◌ c w) t word = ground arith

pub trim_end-solid : (w t : String) → is_solid w ≡ true → trim_end (w <> t) ≡ w <> trim_end t
unfolding trim_end
trim_end-solid String.[] t solid = refl
trim_end-solid (String.◌∷◌ c w) t solid = ground (arith, trim_end-solid w t)

space : is_whitespace " " ≡ true
unfolding is_whitespace
space = refl

pub trim_end-spaced : (ws : List String) → are_words ws ≡ true → trim_end (spaced ws) ≡ spaced ws
unfolding trim_end
trim_end-spaced [] words = refl
trim_end-spaced (w ∷ ws) words =
    ground (arith, trim_end-solid w (spaced ws), trim_end-spaced ws, is_blank-word w (spaced ws))

pub strip_prefix_lem : (p s : String) → strip_prefix p (p <> s) ≡ some s
unfolding strip_prefix
strip_prefix_lem String.[] s = refl
strip_prefix_lem (String.◌∷◌ c p) s = ground (arith, strip_prefix_lem p s)

pub split_word-spaced :
    (w : String) (ws : List String)
    → is_solid w ≡ true
    → split_word (w <> spaced ws) ≡ (w, spaced ws)
unfolding split_word
split_word-spaced String.[] [] solid = refl
split_word-spaced String.[] (v ∷ ws) solid = rw space refl
split_word-spaced (String.◌∷◌ c w) ws solid = ground (arith, split_word-spaced w ws)

scan_words-solid :
    (w : String) (ws : List String)
    → is_solid w ≡ true
    → scan_words (w <> spaced ws) ≡ (w <> (scan_words (spaced ws)).0, (scan_words (spaced ws)).1)
unfolding scan_words
scan_words-solid String.[] ws solid = refl
scan_words-solid (String.◌∷◌ c w) ws solid = ground (arith, scan_words-solid w ws)

<>-empty : (s : String) → s <> "" ≡ s
<>-empty String.[] = refl
<>-empty (String.◌∷◌ c s) = ap (String.◌∷◌ c) (<>-empty s)

add_word-word : (w : String) (ws : List String) → is_word w ≡ true → add_word w ws ≡ w ∷ ws
add_word-word String.[] ws word = ground arith
add_word-word (String.◌∷◌ c w) ws word = refl

scan_words-spaced : (ws : List String) → are_words ws ≡ true → scan_words (spaced ws) ≡ ("", ws)
unfolding scan_words
scan_words-spaced [] words = refl
scan_words-spaced (w ∷ ws) words =
    rw
      (
        space,
        scan_words-solid w ws (ground arith),
        scan_words-spaced ws (ground arith),
        <>-empty w,
        add_word-word w ws (ground arith),
      )
      refl

pub split_whitespace-spaced :
    (w : String) (ws : List String)
    → are_words (w ∷ ws) ≡ true
    → split_whitespace (w <> spaced ws) ≡ w ∷ ws
unfolding split_whitespace
split_whitespace-spaced w ws words =
    rw (scan_words-solid w ws (ground arith), scan_words-spaced ws (ground arith), <>-empty w)
      (add_word-word w ws (ground arith))

-- Trimming a text that begins and ends with a word leaves it, and the spaces before it go.
pub trim-spaced :
    (w : String) (ws : List String)
    → are_words (w ∷ ws) ≡ true
    → (trim (w <> spaced ws) ≡ w <> spaced ws) × (trim (spaced (w ∷ ws)) ≡ w <> spaced ws)
unfolding trim trim_start
trim-spaced w ws words =
    let start = trim_start-word w (spaced ws) (ground arith) in
    let ending : trim_end (w <> spaced ws) ≡ w <> spaced ws =
      rw (trim_end-solid w (spaced ws) (ground arith))
        (ap (λ t. w <> t) (trim_end-spaced ws (ground arith))) in
    (rw start ending, rw (space, start) ending)
