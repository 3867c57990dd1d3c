-- ===== src/Commands/Nearest/Closest.antt =====
-- Which command `closest_command` suggests.
use cockatiel_engine_rs.Shared.{
  ℕ, String, ◌≡◌, refl, sym, ap, subst, ◌∙◌, ◌⊎◌, inl, inr, Bool, true, false, ◌&&◌, eq_iff, Option,
  none, some, List, [], ◌∷◌, arith, ltb, leb, nat_beq, if◌then◌else◌, Bool-cases, Option-cases,
  some-injective, contains, or_default, map_or, string_eq,
}
use cockatiel_engine_rs.Shared.Text.{to_ascii_lowercase}
use cockatiel_engine_rs.Commands.{CommandRegistry, names}
use cockatiel_engine_rs.Commands.Nearest.{
  distance_from, nearest, is_close, suggested, closest_command,
}

-- No name of the list is nearer.
abbrev pub none_nearer : String → ℕ → List String → Bool
none_nearer want d [] = true
none_nearer want d (n ∷ ns) = leb d (distance_from want n) && none_nearer want d ns

module _ (want : String) (d : ℕ) (f : String) where
  abbrev improves : String → Option (ℕ × String) → Bool
  improves n best = map_or best true (λ b. ltb (distance_from want n) b.0)

  nearest-step :
      (best : Option (ℕ × String)) (n : String) (ns : List String) (b : Bool)
      → improves n best ≡ b
      → nearest want best (n ∷ ns) ≡ some (d, f)
      → nearest want (if b then some (distance_from want n, n) else best) ns ≡ some (d, f)
  unfolding nearest
  nearest-step best n ns b test found =
      subst
        (λ x. nearest want (if x then some (distance_from want n, n) else best) ns ≡ some (d, f))
        test found

  nearest-none_nearer :
      (best : Option (ℕ × String)) (ns : List String)
      → nearest want best ns ≡ some (d, f)
      → none_nearer want d ns && map_or best true (λ b. leb d b.0) ≡ true
  unfolding nearest
  nearest-none_nearer none [] found = refl
  nearest-none_nearer (some (e, g)) [] found =
      let same = some-injective (e, g) (d, f) found in ground arith
  nearest-none_nearer best (n ∷ ns) found = elim (Bool-cases (improves n best)) [
    | inl nearer ↦
        let rest =
          nearest-none_nearer (some (distance_from want n, n)) ns
            (nearest-step best n ns true nearer found) in
        ground (arith, Option-cases best)
    | inr kept ↦
        let rest = nearest-none_nearer best ns (nearest-step best n ns false kept found) in
        ground (arith, Option-cases best)
  ]

  nearest-contains :
      (best : Option (ℕ × String)) (ns : List String)
      → nearest want best ns ≡ some (d, f)
      → (best ≡ some (d, f)) ⊎ (contains ns f && nat_beq d (distance_from want f) ≡ true)
  unfolding nearest contains
  nearest-contains best [] found = inl found
  nearest-contains best (n ∷ ns) found = elim (Bool-cases (improves n best)) [
    | inl nearer ↦
        elim (nearest-contains (some (distance_from want n, n)) ns
          (nearest-step best n ns true nearer found)) [
            | inl same ↦
                let pair = some-injective (distance_from want n, n) (d, f) same in
                let near : distance_from want n ≡ d = ap (λ p. p.0) pair in
                let name : n ≡ f = ap (λ p. p.1) pair in
                let here : d ≡ distance_from want f = sym near ∙ ap (distance_from want) name in
                ground (arith, eq_iff n f)
            | inr later ↦ ground arith
          ]
    | inr kept ↦
        let rest = nearest-contains best ns (nearest-step best n ns false kept found) in
        ground arith
  ]

suggested-some :
    (want f : String) (o : Option (ℕ × String))
    → suggested want o ≡ some f
    → (d : ℕ) × (o ≡ some (d, f)) × (is_close want d f ≡ true)
unfolding suggested
suggested-some want f none found = ground arith
suggested-some want f (some (d, n)) found = elim (Bool-cases (is_close want d n)) [
  | inl close ↦
      let same =
        ap (λ o. or_default o n) (subst (λ b. (if b then some n else none) ≡ some f) close found) in
      (d, ap (λ m. some (d, m)) same, subst (λ m. is_close want d m ≡ true) same close)
  | inr far ↦
      let wrong = subst (λ b. (if b then some n else none) ≡ some f) far found in ground arith
]

-- A name that is suggested is the name of a command that is registered under the flag, it is close enough to what
-- was typed, and no other name under the flag is nearer, all without regard to case.
pub closest_command-IsClosest :
    (r : CommandRegistry) (flag name f : String)
    → closest_command r flag name ≡ some f
    → (contains (names flag r) f ≡ true)
      × (is_close (to_ascii_lowercase name) (distance_from (to_ascii_lowercase name) f) f ≡ true)
      × (none_nearer
            (to_ascii_lowercase name)
            (distance_from (to_ascii_lowercase name) f)
            (names flag r)
          ≡ true)
unfolding closest_command
closest_command-IsClosest r flag name f found =
    let want = to_ascii_lowercase name in
    let (d, near, close) = suggested-some want f (nearest want none (names flag r)) found in
    let first = nearest-none_nearer want d f none (names flag r) near in
    elim (nearest-contains want d f none (names flag r) near) [
      | inl absent ↦ ground arith
      | inr listed ↦
          let at : d ≡ distance_from want f = ground arith in
          (
            ground arith,
            subst (λ k. is_close want k f ≡ true) at close,
            subst (λ k. none_nearer want k (names flag r) ≡ true) at (ground arith),
          )
    ]
