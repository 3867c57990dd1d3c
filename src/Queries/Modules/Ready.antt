-- ===== src/Queries/Modules/Ready.antt =====
-- When src/queries.rs calls the modules ready.
use cockatiel_engine_rs.Shared.{
  ◌≤◌, String, ◌≡◌, refl, inl, inr, Bool, true, false, not, eq_iff, List, [], ◌∷◌, ◌++◌, arith, leb,
  Bool-cases, eq_refl, ◌==◌, length, any, keep, any-append, length-keep-le, contains, string_eq,
}
use cockatiel_engine_rs.Connection.Sessions.{AuthSession}
use cockatiel_engine_rs.Queries.Modules.{
  Discovered, collect, live_names, autostart_names, module_load_counts,
}

any-contains :
    (q : String → Bool) (x : String) (xs : List String)
    → contains xs x ≡ true
    → q x ≡ true
    → any q xs ≡ true
unfolding contains any
any-contains q x [] listed holds = ground arith
any-contains q x (y ∷ ys) listed holds = elim (Bool-cases (y == x)) [
  | inl same ↦ ground (arith, eq_iff y x)
  | inr other ↦ ground (arith, any-contains q x ys)
]

any-collect : (q : String → Bool) (xs : List String) → any q (collect xs) ≡ any q xs
unfolding collect any
any-collect q [] = refl
any-collect q (x ∷ xs) =
    ground
      (arith, any-collect q xs, any-contains q x (collect xs), Bool-cases (contains (collect xs) x))

leb-keep :
    (p : String → Bool) (xs : List String)
    → leb (length xs) (length (keep p xs)) ≡ not (any (λ x. not (p x)) xs)
unfolding keep any
leb-keep p [] = refl
leb-keep p (x ∷ xs) = ground (arith, leb-keep p xs, length-keep-le p xs)

any-missing :
    (xs ys : List String)
    → ((n : String) → contains xs n ≡ true → contains ys n ≡ true)
    → any (λ n. not (contains ys n)) xs ≡ false
unfolding any contains
any-missing [] ys sub = refl
any-missing (x ∷ xs) ys sub =
    ground (arith, sub x, any-missing xs ys (λ n listed. sub n (ground (arith, listed))), eq_refl x)

-- The modules are ready exactly when every module that starts by itself, the control surface aside, is live; and
-- never are more modules live than are expected.
pub module_load_counts_lem :
    (discovered : List (String × Discovered)) (sessions : List AuthSession)
    → ((module_load_counts discovered sessions).2
        ≡ not (any (λ n. not (contains (live_names sessions) n)) (autostart_names discovered)))
      × ((module_load_counts discovered sessions).1 ≤ (module_load_counts discovered sessions).0)
unfolding module_load_counts
module_load_counts_lem discovered sessions =
    let live = live_names sessions in
    let starts = autostart_names discovered in
    let p = contains live in
    (
      rw
          (
            leb-keep p (collect (starts ++ live)),
            any-collect (λ n. not (p n)) (starts ++ live),
            any-append (λ n. not (p n)) starts live,
            any-missing live live (λ n listed. listed),
          )
          (ground arith),
      length-keep-le p (collect (starts ++ live)),
    )
