-- ===== src/Shared/Ordered.antt =====
-- A sorted map of the code, such as its `BTreeMap`: an association list by texts in ascending order.
use cockatiel_engine_rs.Shared.Sorting.{is_after, is_after_trans, is_after_asym, reversed-compare}
use cockatiel_engine_rs.Shared.Lists.{All}
use cockatiel_engine_rs.Shared.Keys.{string_eq, eq_of_beq}
use cockatiel_engine_rs.Shared.Maps.{Map, lookup}
use cockatiel_engine_rs.Shared.Tests.{if◌then◌else◌, Bool-cases}
use Prim.Native.String.{String}
use text.Mathlib.Text.{◌==◌}
use text.Mathlib.TextEquality.{eq_iff}
use mathlib.Core.Path.{◌≡◌, refl, subst}
use mathlib.Core.Logic.{inl, inr}
use mathlib.Core.Bool.{true, false}
use mathlib.Core.List.{[], ◌∷◌}
use mathlib.Core.Option.{some}
use native.Mathlib.Omega.{arith}

unfoldable pub insert_in_order {ℓ} : {V : Type ℓ} → String → V → Map String V → Map String V
insert_in_order k v [] = (k, v) ∷ []
insert_in_order k v ((j, w) ∷ m) =
    let rest = insert_in_order k v m in
    if j == k then (k, v) ∷ m else if is_after j k then (k, v) ∷ (j, w) ∷ m else (j, w) ∷ rest

pub lookup-insert_in_order {ℓ} :
    {V : Type ℓ} (k j : String) (v : V) (m : Map String V)
    → lookup j (insert_in_order k v m) ≡ (if k == j then some v else lookup j m)
unfolding lookup insert_in_order
lookup-insert_in_order k j v [] = refl
lookup-insert_in_order k j v ((i, w) ∷ m) =
    ground (arith, eq_iff k j, eq_iff i k, eq_iff i j, lookup-insert_in_order k j v m)

-- Each key is before all that follow it.
abbrev pub IsAscending {ℓ} : {V : Type ℓ} → Map String V → Type 0
IsAscending [] = Unit
IsAscending ((k, v) ∷ m) = All (λ q. is_after (q.0) k ≡ true) m × IsAscending m

is_after_total : (s t : String) → (s == t) ≡ false → is_after s t ≡ false → is_after t s ≡ true
is_after_total s t h k = ground (arith, reversed-compare s t)

is_after_strict : (s t u : String) → is_after u t ≡ true → is_after t s ≡ true → is_after u s ≡ true
is_after_strict s t u h k = ground (arith, is_after_asym t s, is_after_trans u s t)

All-is_after_strict {ℓ} :
    {V : Type ℓ} (k j : String) (m : Map String V)
    → is_after j k ≡ true
    → All (λ q. is_after (q.0) j ≡ true) m
    → All (λ q. is_after (q.0) k ≡ true) m
All-is_after_strict k j [] h a = tt
All-is_after_strict k j ((i, w) ∷ m) h a =
    (is_after_strict k j i a.0 h, All-is_after_strict k j m h a.1)

All-insert_in_order {ℓ} :
    {V : Type ℓ} (P : String → Type 0) (k : String) (v : V) (m : Map String V)
    → P k
    → All (λ q. P (q.0)) m
    → All (λ q. P (q.0)) (insert_in_order k v m)
unfolding insert_in_order
All-insert_in_order P k v [] p a = (p, tt)
All-insert_in_order P k v ((i, w) ∷ m) p a = ground (arith, All-insert_in_order P k v m p a.1)

pub insert_in_order-IsAscending {ℓ} :
    {V : Type ℓ} (k : String) (v : V) (m : Map String V)
    → IsAscending m
    → IsAscending (insert_in_order k v m)
unfolding insert_in_order
insert_in_order-IsAscending k v [] a = (tt, tt)
insert_in_order-IsAscending k v ((i, w) ∷ m) a = elim (Bool-cases (i == k)) [
  | inl e ↦ rw e (subst (λ j. All (λ q. is_after (q.0) j ≡ true) m) (eq_of_beq i k e) a.0, a.1)
  | inr n ↦ elim (Bool-cases (is_after i k)) [
    | inl h ↦ rw (n, h) ((h, All-is_after_strict k i m h a.0), a)
    | inr h ↦
        rw (n, h)
          (
            All-insert_in_order (λ j. is_after j i ≡ true) k v m (is_after_total i k n h) a.0,
            insert_in_order-IsAscending k v m a.1,
          )
  ]
]
