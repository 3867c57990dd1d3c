-- ===== src/Tests/Codec.antt =====
-- A writing of values as texts that reads back: a concrete encoding for the parameters that stand for
-- `serde_json` and `jsonwebtoken`.
use Prim.Native.Char.{Char, code}
use mathlib.Core.Bool.{Bool}
use cockatiel_engine_rs.Shared.{
  ℕ, zero, suc, ◌+◌, ◌≤◌, ◌<◌, String, ◌≡◌, refl, Option, none, some, List, [], ◌∷◌, arith, nat_beq,
  if◌then◌else◌, length,
}

abbrev pub size : String → ℕ
size String.[] = 0
size (String.◌∷◌ c s) = suc (size s)

pub record Codec (A : Type 0) : Type 0 where
  pub put : A → String → String
  pub get : String → Option (A × String)
  pub get-put : (a : A) (rest : String) → get (put a rest) ≡ some (a, rest)
  pub longer : (a : A) (rest : String) → size rest ≤ size (put a rest)

abbrev more : Char
more = "+"

abbrev stop : Char
stop = "."

abbrev is_more : Char → Bool
is_more c = nat_beq (code c) b'+'

put_nat : ℕ → String → String
put_nat zero rest = String.◌∷◌ stop rest
put_nat (suc n) rest = String.◌∷◌ more (put_nat n rest)

get_nat : String → Option (ℕ × String)
get_nat String.[] = none
get_nat (String.◌∷◌ c s) =
    let after = get_nat s in
    if is_more c then (elim after [ none ↦ none | some (n, r) ↦ some (suc n, r) ]) else some (0, s)

get_nat-put_nat : (n : ℕ) (rest : String) → get_nat (put_nat n rest) ≡ some (n, rest)
unfolding get_nat put_nat
get_nat-put_nat zero rest = refl
get_nat-put_nat (suc n) rest = rw (get_nat-put_nat n rest) refl

put_nat-longer : (n : ℕ) (rest : String) → size rest ≤ size (put_nat n rest)
unfolding put_nat
put_nat-longer zero rest = omega arith
put_nat-longer (suc n) rest = omega (arith, put_nat-longer n rest)

put_text : String → String → String
put_text String.[] rest = String.◌∷◌ stop rest
put_text (String.◌∷◌ c s) rest = String.◌∷◌ more (String.◌∷◌ c (put_text s rest))

get_text : String → Option (String × String)
get_text String.[] = none
get_text (String.◌∷◌ c String.[]) = if is_more c then none else some ("", "")
get_text (String.◌∷◌ c (String.◌∷◌ d s)) =
    let after = get_text s in
    if is_more c
    then (elim after [ none ↦ none | some (t, r) ↦ some (String.◌∷◌ d t, r) ])
    else some ("", String.◌∷◌ d s)

get_text-put_text : (t rest : String) → get_text (put_text t rest) ≡ some (t, rest)
unfolding get_text put_text
get_text-put_text String.[] String.[] = refl
get_text-put_text String.[] (String.◌∷◌ d rest) = refl
get_text-put_text (String.◌∷◌ c s) rest = rw (get_text-put_text s rest) refl

put_text-longer : (t rest : String) → size rest ≤ size (put_text t rest)
unfolding put_text
put_text-longer String.[] rest = omega arith
put_text-longer (String.◌∷◌ c s) rest = omega (arith, put_text-longer s rest)

pub nat_codec : Codec ℕ
nat_codec = record {
  put = put_nat;
  get = get_nat;
  get-put = get_nat-put_nat;
  longer = put_nat-longer;
}

pub text_codec : Codec String
text_codec = record {
  put = put_text;
  get = get_text;
  get-put = get_text-put_text;
  longer = put_text-longer;
}

-- A type whose values are as good as those of another.
module _ {A B : Type 0} (to : A → B) (from : B → A) (same : (a : A) → from (to a) ≡ a)
    (c : Codec B) where
  get_mapped : String → Option (A × String)
  get_mapped s = elim (c.get s) [ none ↦ none | some (b, r) ↦ some (from b, r) ]

  mapped_law : (a : A) (rest : String) → get_mapped (c.put (to a) rest) ≡ some (a, rest)
  unfolding get_mapped
  mapped_law a rest = ground (arith, c.get-put (to a) rest, same a)

  pub mapped : Codec A
  mapped = record {
    put = λ a rest. c.put (to a) rest;
    get = get_mapped;
    get-put = mapped_law;
    longer = λ a rest. c.longer (to a) rest;
  }

module _ {A B : Type 0} (c : Codec A) (d : Codec B) where
  get_both : String → Option ((A × B) × String)
  get_both s = elim (c.get s) [
    | none ↦ none
    | some (a, r) ↦ elim (d.get r) [ none ↦ none | some (b, q) ↦ some ((a, b), q) ]
  ]

  both_law : (p : A × B) (rest : String) → get_both (c.put p.0 (d.put p.1 rest)) ≡ some (p, rest)
  unfolding get_both
  both_law (a, b) rest = ground (arith, c.get-put a (d.put b rest), d.get-put b rest)

  both_longer : (p : A × B) (rest : String) → size rest ≤ size (c.put p.0 (d.put p.1 rest))
  both_longer (a, b) rest = omega (arith, c.longer a (d.put b rest), d.longer b rest)

  pub both : Codec (A × B)
  both = record {
    put = λ p rest. c.put p.0 (d.put p.1 rest);
    get = get_both;
    get-put = both_law;
    longer = both_longer;
  }

module _ {A : Type 0} (c : Codec A) where
  put_list : List A → String → String
  put_list [] rest = String.◌∷◌ stop rest
  put_list (a ∷ as') rest = String.◌∷◌ more (c.put a (put_list as' rest))

  get_list : ℕ → String → Option (List A × String)
  get_list zero s = none
  get_list (suc fuel) String.[] = none
  get_list (suc fuel) (String.◌∷◌ h s) =
      if is_more h
      then (elim (c.get s) [
        | none ↦ none
        | some (a, r) ↦ elim (get_list fuel r) [ none ↦ none | some (l, q) ↦ some (a ∷ l, q) ]
      ])
      else some ([], s)

  put_list-longer : (l : List A) (rest : String) → size rest + length l < size (put_list l rest)
  unfolding put_list
  put_list-longer [] rest = omega arith
  put_list-longer (a ∷ l) rest = omega (arith, put_list-longer l rest, c.longer a (put_list l rest))

  get_list-put_list :
      (fuel : ℕ) (l : List A) (rest : String)
      → length l < fuel
      → get_list fuel (put_list l rest) ≡ some (l, rest)
  unfolding get_list put_list
  get_list-put_list zero l rest h = absurd (omega arith)
  get_list-put_list (suc fuel) [] rest h = refl
  get_list-put_list (suc fuel) (a ∷ l) rest h =
      ground (arith, c.get-put a (put_list l rest), get_list-put_list fuel l rest)

  pub list_codec : Codec (List A)
  list_codec = record {
    put = put_list;
    get = λ s. get_list (size s) s;
    get-put = λ l rest.
        get_list-put_list (size (put_list l rest)) l rest (omega (arith, put_list-longer l rest));
    longer = λ l rest. omega (arith, put_list-longer l rest);
  }
