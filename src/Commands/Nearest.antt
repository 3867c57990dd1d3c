-- ===== src/Commands/Nearest.antt =====
-- `edit_distance` and `closest_command` of src/main.rs: the command that is suggested for a mistyped one.
pub mod Edits
pub mod Closest
use cockatiel_engine_rs.Shared.{
  ℕ, suc, ◌+◌, String, Bool, true, ◌||◌, Option, none, some, List, [], ◌∷◌, ltb, leb, nat_beq,
  if◌then◌else◌, length, get_elem?, or_default, map_or,
}
use Prim.Native.Char.{Char, code}
use cockatiel_engine_rs.Shared.Text.{to_ascii_lowercase, starts_with}
use cockatiel_engine_rs.Commands.{CommandRegistry, names}

abbrev pub chars : String → List Char
chars String.[] = []
chars (String.◌∷◌ c s) = c ∷ chars s

abbrev pub cost : Char → Char → ℕ
cost c d = if nat_beq (code c) (code d) then 0 else 1

abbrev pub min : ℕ → ℕ → ℕ
min m n = if leb m n then m else n

-- `(0..=b.len()).collect()`, from a number on.
unfoldable pub counted : ℕ → List Char → List ℕ
counted k [] = k ∷ []
counted k (d ∷ b) = k ∷ counted (suc k) b

-- The inner loop: what is pushed after `left`, the last number of the row so far, from the part of the row
-- before that the loop has not passed. A row that is too short, which would panic, ends it.
unfoldable pub fill : Char → List Char → List ℕ → ℕ → List ℕ
fill c [] previous left = []
fill c (d ∷ b) [] left = []
fill c (d ∷ b) (p ∷ []) left = []
fill c (d ∷ b) (p ∷ up ∷ previous) left =
    let here = min (min (up + 1) (left + 1)) (p + cost c d) in here ∷ fill c b (up ∷ previous) here

-- The outer loop, from row `i` on.
unfoldable pub last_row : ℕ → List Char → List Char → List ℕ → List ℕ
last_row i [] b previous = previous
last_row i (c ∷ a) b previous = last_row (suc i) a b (suc i ∷ fill c b previous (suc i))

-- `none` is the index out of range.
unfoldable pub edit_distance : String → String → Option ℕ
edit_distance a b =
    get_elem? (last_row 0 (chars a) (chars b) (counted 0 (chars b))) (length (chars b))

-- The distance from a wanted name, without regard to case. The index is never out of range.
unfoldable pub distance_from : String → String → ℕ
unfolding edit_distance
distance_from want n = or_default (edit_distance want (to_ascii_lowercase n)) 0

-- The loop: the first of the nearest names.
unfoldable pub nearest : String → Option (ℕ × String) → List String → Option (ℕ × String)
nearest want best [] = best
nearest want best (n ∷ ns) =
    let d = distance_from want n in
    nearest want (if map_or best true (λ b. ltb d b.0) then some (d, n) else best) ns

-- Whether a name at a distance is worth suggesting.
unfoldable pub is_close : String → ℕ → String → Bool
is_close want d n =
    let lower = to_ascii_lowercase n in leb d 2 || starts_with want lower || starts_with lower want

unfoldable pub suggested : String → Option (ℕ × String) → Option String
suggested want none = none
suggested want (some (d, n)) = if is_close want d n then some n else none

unfoldable pub closest_command : CommandRegistry → String → String → Option String
unfolding nearest suggested
closest_command r flag name =
    let want = to_ascii_lowercase name in suggested want (nearest want none (names flag r))
