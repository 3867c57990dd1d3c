-- ===== src/Commands/Parse/Longest.antt =====
-- Which flag `parse_command` finds at the start of a message.
use cockatiel_engine_rs.Shared.{
  ℕ, String, ◌≡◌, sym, subst, ◌⊎◌, inl, inr, Bool, true, false, ◌&&◌, ◌||◌, not, eq_iff, Option,
  none, some, List, [], ◌∷◌, arith, ltb, leb, if◌then◌else◌, Bool-cases, Option-cases,
  some-injective, ◌==◌, map_or, string_eq, pair_eq,
}
use Prim.Native.String.{len}
use cockatiel_engine_rs.Shared.Text.{starts_with}
use cockatiel_engine_rs.Commands.{Key}
use cockatiel_engine_rs.Commands.Parse.{longest_flag}

-- Of the flags of the index that a message starts with, none is longer.
abbrev pub none_longer : String → ℕ → List (Key × String) → Bool
none_longer raw n [] = true
none_longer raw n (((f, m), o) ∷ index) =
    (not (starts_with f raw) || leb (len f) n) && none_longer raw n index

abbrev pub has_flag : String → List (Key × String) → Bool
has_flag f [] = false
has_flag f (((g, m), o) ∷ index) = g == f || has_flag f index

module _ (raw f : String) where
  abbrev improves : String → Option String → Bool
  improves g best = starts_with g raw && map_or best true (λ b. ltb (len b) (len g))

  longest_flag-step :
      (best : Option String) (e : Key × String) (index : List (Key × String)) (b : Bool)
      → improves e.0.0 best ≡ b
      → longest_flag raw best (e ∷ index) ≡ some f
      → longest_flag raw (if b then some e.0.0 else best) index ≡ some f
  unfolding longest_flag
  longest_flag-step best ((g, n), o) index b test found =
      subst (λ x. longest_flag raw (if x then some g else best) index ≡ some f) test found

  longest_flag-none_longer :
      (best : Option String) (index : List (Key × String))
      → longest_flag raw best index ≡ some f
      → none_longer raw (len f) index && map_or best true (λ b. leb (len b) (len f)) ≡ true
  unfolding longest_flag
  longest_flag-none_longer none [] found = ground arith
  longest_flag-none_longer (some b) [] found = rw (sym (some-injective b f found)) (ground arith)
  longest_flag-none_longer best (((g, n), o) ∷ index) found = elim (Bool-cases (improves g best)) [
    | inl longer ↦
        let rest =
          longest_flag-none_longer (some g) index
            (longest_flag-step best ((g, n), o) index true longer found) in
        ground (arith, Option-cases best)
    | inr kept ↦
        let rest =
          longest_flag-none_longer best index
            (longest_flag-step best ((g, n), o) index false kept found) in
        ground (arith, Option-cases best)
  ]

  longest_flag-has_flag :
      (best : Option String) (index : List (Key × String))
      → longest_flag raw best index ≡ some f
      → (best ≡ some f) ⊎ (has_flag f index && starts_with f raw ≡ true)
  unfolding longest_flag
  longest_flag-has_flag best [] found = inl found
  longest_flag-has_flag best (((g, n), o) ∷ index) found = elim (Bool-cases (improves g best)) [
    | inl longer ↦
        let rest =
          longest_flag-has_flag (some g) index
            (longest_flag-step best ((g, n), o) index true longer found) in
        elim rest [
          | inl same ↦ let equal = some-injective g f same in ground (arith, eq_iff g f)
          | inr later ↦ ground arith
        ]
    | inr kept ↦
        let rest =
          longest_flag-has_flag best index
            (longest_flag-step best ((g, n), o) index false kept found) in
        ground (arith)
  ]

-- The flag that is found is registered, the message starts with it, and of the registered flags that the message
-- starts with none is longer.
pub longest_flag-IsLongest :
    (raw f : String) (index : List (Key × String))
    → longest_flag raw none index ≡ some f
    → (starts_with f raw ≡ true)
      × (has_flag f index ≡ true)
      × (none_longer raw (len f) index ≡ true)
longest_flag-IsLongest raw f index found =
    let longest = longest_flag-none_longer raw f none index found in
    elim (longest_flag-has_flag raw f none index found) [
      | inl absent ↦ ground (arith)
      | inr registered ↦ ground (arith)
    ]
