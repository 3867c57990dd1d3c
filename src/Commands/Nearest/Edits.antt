-- ===== src/Commands/Nearest/Edits.antt =====
-- The fewest edits that turn one text into another, as a specification of `edit_distance`.
use cockatiel_engine_rs.Shared.{
  ℕ, suc, ◌+◌, ◌≤◌, String, ◌≡◌, refl, ap, subst, ◌∙◌, ◌⊎◌, inl, inr, some, List, [], ◌∷◌, ◌++◌,
  arith, length, get_elem?,
}
use Prim.Native.Char.{Char}
use cockatiel_engine_rs.Commands.Nearest.{chars, cost, min, counted, fill, last_row, edit_distance}

-- One list of characters is turned into another in that many edits. Putting a character in the place of an
-- equal one is no edit.
pub data Edits : ℕ → List Char → List Char → Type 0 where
  done : Edits 0 [] []
  change :
      {n : ℕ} {a b : List Char} (c d : Char) → Edits n a b → Edits (n + cost c d) (c ∷ a) (d ∷ b)
  delete : {n : ℕ} {a b : List Char} (c : Char) → Edits n a b → Edits (suc n) (c ∷ a) b
  add : {n : ℕ} {a b : List Char} (d : Char) → Edits n a b → Edits (suc n) a (d ∷ b)

abbrev distance : List Char → List Char → ℕ
distance [] b = length b
distance (c ∷ a) [] = suc (length a)
distance (c ∷ a) (d ∷ b) =
    min (min (distance a (d ∷ b) + 1) (distance (c ∷ a) b + 1)) (distance a b + cost c d)

-- The distances of one reversed prefix from those that are longer than another.
abbrev later : List Char → List Char → List Char → List ℕ
later ra rb [] = []
later ra rb (d ∷ b) = distance ra (d ∷ rb) ∷ later ra (d ∷ rb) b

abbrev reverse_onto : List Char → List Char → List Char
reverse_onto ra [] = ra
reverse_onto ra (c ∷ a) = reverse_onto (c ∷ ra) a

counted-later : (rb b : List Char) → counted (length rb) b ≡ length rb ∷ later [] rb b
unfolding counted
counted-later rb [] = refl
counted-later rb (d ∷ b) = ap (λ ns. length rb ∷ ns) (counted-later (d ∷ rb) b)

fill-later :
    (c : Char) (ra rb b : List Char)
    → fill c b (distance ra rb ∷ later ra rb b) (distance (c ∷ ra) rb) ≡ later (c ∷ ra) rb b
unfolding fill
fill-later c ra rb [] = refl
fill-later c ra rb (d ∷ b) = ap (λ ns. distance (c ∷ ra) (d ∷ rb) ∷ ns) (fill-later c ra (d ∷ rb) b)

distance-[] : (a : List Char) → distance a [] ≡ length a
distance-[] [] = refl
distance-[] (c ∷ a) = refl

last_row-later :
    (ra a b : List Char)
    → last_row (length ra) a b (distance ra [] ∷ later ra [] b)
      ≡ distance (reverse_onto ra a) [] ∷ later (reverse_onto ra a) [] b
unfolding last_row
last_row-later ra [] b = refl
last_row-later ra (c ∷ a) b =
    ap (λ ns. last_row (suc (length ra)) a b (suc (length ra) ∷ ns)) (fill-later c ra [] b)
    ∙ last_row-later (c ∷ ra) a b

get_elem?-later :
    (ra rb b : List Char)
    → get_elem? (distance ra rb ∷ later ra rb b) (length b) ≡ some (distance ra (reverse_onto rb b))
get_elem?-later ra rb [] = refl
get_elem?-later ra rb (d ∷ b) = get_elem?-later ra (d ∷ rb) b

edit_distance-distance :
    (a b : String)
    → edit_distance a b ≡ some (distance (reverse_onto [] (chars a)) (reverse_onto [] (chars b)))
unfolding edit_distance
edit_distance-distance a b =
    rw (counted-later [] (chars b), last_row-later [] (chars a) (chars b))
      (get_elem?-later (reverse_onto [] (chars a)) [] (chars b))

distance-delete : (c : Char) (a b : List Char) → distance (c ∷ a) b ≤ suc (distance a b)
distance-delete c a [] = rw (distance-[] a) (ground arith)
distance-delete c a (d ∷ b) = ground arith

distance-add : (d : Char) (a b : List Char) → distance a (d ∷ b) ≤ suc (distance a b)
distance-add d [] b = ground arith
distance-add d (c ∷ a) b = ground arith

distance-change :
    (c d : Char) (a b : List Char) → distance (c ∷ a) (d ∷ b) ≤ distance a b + cost c d
distance-change c d a b = ground arith

distance-least : {n : ℕ} {a b : List Char} → Edits n a b → distance a b ≤ n
distance-least done = ground arith
distance-least (change {a = a} {b = b} c d e) =
    let less = distance-least e in let step = distance-change c d a b in omega arith
distance-least (delete {a = a} {b = b} c e) =
    let less = distance-least e in let step = distance-delete c a b in omega arith
distance-least (add {a = a} {b = b} d e) =
    let less = distance-least e in let step = distance-add d a b in omega arith

least_of_three :
    (x y z : ℕ)
    → (suc x ≡ min (min (x + 1) (y + 1)) z)
      ⊎ ((suc y ≡ min (min (x + 1) (y + 1)) z) ⊎ (z ≡ min (min (x + 1) (y + 1)) z))
least_of_three x y z = ground arith

distance-Edits : (a b : List Char) → Edits (distance a b) a b
distance-Edits [] [] = done
distance-Edits [] (d ∷ b) = add d (distance-Edits [] b)
distance-Edits (c ∷ a) [] =
    delete c (subst (λ n. Edits n a []) (distance-[] a) (distance-Edits a []))
distance-Edits (c ∷ a) (d ∷ b) =
    elim (least_of_three (distance a (d ∷ b)) (distance (c ∷ a) b) (distance a b + cost c d)) [
      | inl deletes ↦
          subst (λ n. Edits n (c ∷ a) (d ∷ b)) deletes (delete c (distance-Edits a (d ∷ b)))
      | inr (inl adds) ↦
          subst (λ n. Edits n (c ∷ a) (d ∷ b)) adds (add d (distance-Edits (c ∷ a) b))
      | inr (inr changes) ↦
          subst (λ n. Edits n (c ∷ a) (d ∷ b)) changes (change c d (distance-Edits a b))
    ]

reverse_onto-Edits :
    {n : ℕ} {a b : List Char}
    → Edits n a b
    → {m : ℕ} {ra rb : List Char} → Edits m ra rb
    → Edits (n + m) (reverse_onto ra a) (reverse_onto rb b)
reverse_onto-Edits done {ra = ra} {rb = rb} before = subst (λ k. Edits k ra rb) (omega arith) before
reverse_onto-Edits (change {a = a} {b = b} c d e) {ra = ra} {rb = rb} before =
    subst (λ k. Edits k (reverse_onto (c ∷ ra) a) (reverse_onto (d ∷ rb) b)) (omega arith)
      (reverse_onto-Edits e (change c d before))
reverse_onto-Edits (delete {a = a} {b = b} c e) {ra = ra} {rb = rb} before =
    subst (λ k. Edits k (reverse_onto (c ∷ ra) a) (reverse_onto rb b)) (omega arith)
      (reverse_onto-Edits e (delete c before))
reverse_onto-Edits (add {a = a} {b = b} d e) {ra = ra} {rb = rb} before =
    subst (λ k. Edits k (reverse_onto ra a) (reverse_onto (d ∷ rb) b)) (omega arith)
      (reverse_onto-Edits e (add d before))

reverse-Edits :
    {n : ℕ} {a b : List Char} → Edits n a b → Edits n (reverse_onto [] a) (reverse_onto [] b)
reverse-Edits {a = a} {b = b} e =
    subst (λ k. Edits k (reverse_onto [] a) (reverse_onto [] b)) (omega arith)
      (reverse_onto-Edits e done)

++-empty : (a : List Char) → a ++ [] ≡ a
++-empty [] = refl
++-empty (c ∷ a) = ap (λ s. c ∷ s) (++-empty a)

reverse-reverse :
    (r ra a : List Char) → reverse_onto r (reverse_onto ra a) ≡ reverse_onto (a ++ r) ra
reverse-reverse r ra [] = refl
reverse-reverse r ra (c ∷ a) = reverse-reverse r (c ∷ ra) a

twice_reversed : (a : List Char) → reverse_onto [] (reverse_onto [] a) ≡ a
twice_reversed a = reverse-reverse [] [] a ∙ ++-empty a

-- The distance of two texts is always computed. It is a number of edits that turns the one into the other, and no
-- fewer edits do.
pub edit_distance-IsLeast :
    (a b : String)
    → (n : ℕ) × (edit_distance a b ≡ some n)
      × Edits n (chars a) (chars b)
      × ((m : ℕ) → Edits m (chars a) (chars b) → n ≤ m)
edit_distance-IsLeast a b =
    let ra = reverse_onto [] (chars a) in
    let rb = reverse_onto [] (chars b) in
    (
      distance ra rb,
      edit_distance-distance a b,
      subst (λ s. Edits (distance ra rb) s (chars b)) (twice_reversed (chars a))
          (subst (λ s. Edits (distance ra rb) (reverse_onto [] ra) s) (twice_reversed (chars b))
            (reverse-Edits (distance-Edits ra rb))),
      λ m e. distance-least (reverse-Edits e),
    )
