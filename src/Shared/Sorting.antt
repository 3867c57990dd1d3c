-- ===== src/Shared/Sorting.antt =====
-- Sorting a list of texts, in the order of their characters' numbers.
use cockatiel_engine_rs.Shared.Lists.{contains, All, keep, All-keep, Once}
use cockatiel_engine_rs.Shared.Keys.{string_eq}
use Prim.Native.Nat.{ℕ, Ordering, compare as compare_ℕ}
use Prim.Native.Char.{code}
use Prim.Native.String.compare
use Prim.Native.String.{String, compare, then as or_else, [] as nil, ◌∷◌ as cons}
use text.Mathlib.TextEquality.{eq_iff}
use mathlib.Core.Path.{◌≡◌, refl, ◌∙◌}
use mathlib.Core.Bool.{Bool, true, false}
use mathlib.Core.List.{List, [], ◌∷◌}
use native.Mathlib.Omega.{arith}
use cockatiel_engine_rs.Shared.Tests.{if◌then◌else◌}

abbrev pub is_after : String → String → Bool
is_after s t = elim (compare s t) [ Ordering.gt ↦ true | _ ↦ false ]

unfoldable pub place : String → List String → List String
place x [] = x ∷ []
place x (y ∷ ys) = let rest = place x ys in if is_after x y then y ∷ rest else x ∷ y ∷ ys

unfoldable pub sort : List String → List String
unfolding place
sort [] = []
sort (x ∷ xs) = place x (sort xs)

pub contains-place :
    (x k : String) (ys : List String) → contains (place x ys) k ≡ contains (x ∷ ys) k
unfolding place contains
contains-place x k [] = refl
contains-place x k (y ∷ ys) = ground (arith, contains-place x k ys)

pub contains-sort : (k : String) (xs : List String) → contains (sort xs) k ≡ contains xs k
unfolding sort contains
contains-sort k [] = refl
contains-sort k (x ∷ xs) = ground (arith, contains-place x k (sort xs), contains-sort k xs)

abbrev reversed : Ordering → Ordering
reversed Ordering.lt = Ordering.gt
reversed Ordering.eq = Ordering.eq
reversed Ordering.gt = Ordering.lt

reversed-compare_ℕ : (m n : ℕ) → compare_ℕ n m ≡ reversed (compare_ℕ m n)
reversed-compare_ℕ m n = ground arith

reversed-or_else : (o p : Ordering) → or_else (reversed o) (reversed p) ≡ reversed (or_else o p)
reversed-or_else Ordering.lt p = refl
reversed-or_else Ordering.eq p = refl
reversed-or_else Ordering.gt p = refl

pub reversed-compare : (s t : String) → compare t s ≡ reversed (compare s t)
reversed-compare nil nil = refl
reversed-compare nil (cons d t) = rw (compare.nil-cons d t, compare.cons-nil d t) refl
reversed-compare (cons c s) nil = rw (compare.nil-cons c s, compare.cons-nil c s) refl
reversed-compare (cons c s) (cons d t) =
    rw
      (
        compare.cons-cons c d s t,
        compare.cons-cons d c t s,
        reversed-compare_ℕ (code c) (code d),
        reversed-compare s t,
      )
      (reversed-or_else (compare_ℕ (code c) (code d)) (compare s t))

is_gt : Ordering → Bool
is_gt Ordering.gt = true
is_gt _ = false

or_else_trans :
    (a b c : ℕ) (o p q : Ordering)
    → (is_gt o ≡ false → is_gt p ≡ false → is_gt q ≡ false)
    → is_gt (or_else (compare_ℕ a b) o) ≡ false
    → is_gt (or_else (compare_ℕ b c) p) ≡ false
    → is_gt (or_else (compare_ℕ a c) q) ≡ false
unfolding is_gt
or_else_trans a b c o p q h f g = ground arith

is_after-is_gt : (s t : String) → is_after s t ≡ is_gt (compare s t)
unfolding is_gt
is_after-is_gt s t = ground arith

is_gt_trans :
    (s t u : String)
    → is_gt (compare s t) ≡ false
    → is_gt (compare t u) ≡ false
    → is_gt (compare s u) ≡ false
unfolding is_gt
is_gt_trans nil nil u h k = k
is_gt_trans nil (cons d t) nil h k = refl
is_gt_trans nil (cons d t) (cons e u) h k = rw (compare.nil-cons e u) refl
is_gt_trans (cons c s) nil u h k = ground (arith, compare.cons-nil c s)
is_gt_trans (cons c s) (cons d t) nil h k = ground (arith, compare.cons-nil d t)
is_gt_trans (cons c s) (cons d t) (cons e u) h k = rw (compare.cons-cons c e s u) (
    or_else_trans (code c) (code d) (code e) (compare s t) (compare t u) (compare s u)
      (is_gt_trans s t u) (rw (compare.cons-cons c d s t) at h)
      (rw (compare.cons-cons d e t u) at k))

-- Each text is before or equal to all that follow it.
abbrev pub IsOrdered : List String → Type 0
IsOrdered [] = Unit
IsOrdered (x ∷ xs) = All (λ y. is_after x y ≡ false) xs × IsOrdered xs

pub is_after_trans :
    (s t u : String) → is_after s t ≡ false → is_after t u ≡ false → is_after s u ≡ false
is_after_trans s t u h k =
    ground (arith, is_after-is_gt s t, is_after-is_gt t u, is_after-is_gt s u, is_gt_trans s t u)

pub is_after_asym : (s t : String) → is_after s t ≡ true → is_after t s ≡ false
is_after_asym s t h = ground (arith, reversed-compare s t)

All-is_after :
    (x y : String) (ys : List String)
    → is_after x y ≡ false
    → All (λ z. is_after y z ≡ false) ys
    → All (λ z. is_after x z ≡ false) ys
All-is_after x y [] h a = tt
All-is_after x y (z ∷ ys) h a = (is_after_trans x y z h a.0, All-is_after x y ys h a.1)

All-place :
    (P : String → Type 0) (x : String) (ys : List String) → P x → All P ys → All P (place x ys)
unfolding place
All-place P x [] p a = (p, tt)
All-place P x (y ∷ ys) p a = ground (arith, All-place P x ys p a.1)

place-IsOrdered : (x : String) (ys : List String) → IsOrdered ys → IsOrdered (place x ys)
unfolding place
place-IsOrdered x [] o = (tt, tt)
place-IsOrdered x (y ∷ ys) o = ground (
  arith,
  All-place (λ z. is_after y z ≡ false) x ys,
  is_after_asym x y,
  place-IsOrdered x ys o.1,
  All-is_after x y ys,
)

pub sort-IsOrdered : (xs : List String) → IsOrdered (sort xs)
unfolding sort
sort-IsOrdered [] = tt
sort-IsOrdered (x ∷ xs) = place-IsOrdered x (sort xs) (sort-IsOrdered xs)

pub keep-IsOrdered : (p : String → Bool) (xs : List String) → IsOrdered xs → IsOrdered (keep p xs)
unfolding keep
keep-IsOrdered p [] o = tt
keep-IsOrdered p (x ∷ xs) o =
    ground (arith, All-keep (λ y. is_after x y ≡ false) p xs, keep-IsOrdered p xs o.1)

place-Once : (x : String) (ys : List String) → contains ys x ≡ false → Once ys → Once (place x ys)
unfolding place contains
place-Once x [] h o = (refl, tt)
place-Once x (y ∷ ys) h o =
    ground (
      arith,
      contains-place x y ys,
      eq_iff x y,
      eq_iff y x,
      place-Once x ys (ground (arith, h)) o.1,
    )

pub sort-Once : (xs : List String) → Once xs → Once (sort xs)
unfolding sort
sort-Once [] o = tt
sort-Once (x ∷ xs) o = place-Once x (sort xs) (contains-sort x xs ∙ o.0) (sort-Once xs o.1)
