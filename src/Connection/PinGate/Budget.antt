-- ===== src/Connection/PinGate/Budget.antt =====
-- How many PINs an identity can try: the gate of src/main.rs over any sequence of connection attempts.
use cockatiel_engine_rs.Shared.{
  ℕ, ◌+◌, ◌≤◌, ◌<◌, ◌≡◌, refl, ap, ◌∙◌, ◌⊎◌, inl, inr, Bool, true, false, ◌&&◌, Option, none, some,
  List, [], ◌∷◌, arith, ltb, leb, if◌then◌else◌, lt→ltb, Bool-cases, pair_beq, pair_beq_iff, length,
  All, All-imp, or_default, map_or, lookup, insert, erase, lookup-insert, lookup-erase, retain,
  Distinct, lookup-retain, retain-Distinct, insert-Distinct, erase-Distinct, string_eq, pair_eq,
}
use cockatiel_engine_rs.Connection.PinGate.{
  record_success, Identity, PinGate, PinAttempt, record_failure, check, one_more, make_room,
  max_tracked, no_attempt, lock_ms, saturating_add,
}

pub record Attempt : Type 0 where
  pub now : ℕ
  pub identity : Identity
  pub is_right : Bool

-- What the handshake does with the gate.
unfoldable pub attempt : Attempt → PinGate → PinGate
attempt a g =
    if check a.now a.identity g
    then (if a.is_right then record_success a.identity g else record_failure a.now a.identity g)
    else g

-- The attempt is of `k` and gets as far as the comparison of the PIN.
unfoldable pub is_compared : Identity → Attempt → PinGate → Bool
is_compared k a g = pair_beq a.identity k && check a.now a.identity g

-- How many of the attempts of `k` get as far as the comparison of the PIN.
unfoldable pub compared : Identity → List Attempt → PinGate → ℕ
compared k [] g = 0
compared k (a ∷ rest) g = (if is_compared k a g then 1 else 0) + compared k rest (attempt a g)

abbrev pub failures_of : Identity → PinGate → ℕ
failures_of k g = map_or (lookup k g) 0 (λ a. a.failures)

abbrev locked_until : Identity → PinGate → ℕ
locked_until k g = map_or (lookup k g) 0 (λ a. a.locked_until_ms)

module _ (k : Identity) where
  locked_until-retain :
      (now : ℕ) (g : PinGate)
      → Distinct g
      → now < locked_until k g
      → lookup k (retain (λ _ a. ltb now a.locked_until_ms) g) ≡ lookup k g
  locked_until-retain now g d h =
      lookup-retain (λ _ a. ltb now a.locked_until_ms) k g d ∙ by_row (lookup k g) h
    where
      by_row :
          (o : Option PinAttempt)
          → now < map_or o 0 (λ a. a.locked_until_ms)
          → elim o [ none ↦ none | some v ↦ if ltb now v.locked_until_ms then some v else none ] ≡ o
      by_row none h = refl
      by_row (some a) h = rw (lt→ltb _ _ h)

  make_room-locked :
      (now : ℕ) (g : PinGate)
      → Distinct g
      → now < locked_until k g
      → lookup k (make_room now g) ≡ lookup k g
  unfolding make_room
  make_room-locked now g d h = ground (arith, locked_until-retain now g d)

make_room-Distinct : (now : ℕ) (g : PinGate) → Distinct g → Distinct (make_room now g)
unfolding make_room
make_room-Distinct now g d = ground (arith, retain-Distinct (λ _ a. ltb now a.locked_until_ms) g d)

pub attempt-Distinct : (a : Attempt) (g : PinGate) → Distinct g → Distinct (attempt a g)
unfolding attempt record_success record_failure
attempt-Distinct a g d = ground (
  arith,
  erase-Distinct a.identity g d,
  insert-Distinct a.identity
      (one_more a.now (or_default (lookup a.identity (make_room a.now g)) no_attempt))
      (make_room a.now g) (make_room-Distinct a.now g d),
)

module _ (k : Identity) where
  not_checked :
      (now : ℕ) (j : Identity) (g : PinGate)
      → now < locked_until k g
      → j ≡ k
      → check now j g ≡ false
  unfolding check
  not_checked now j g h e = rw e (by_row (lookup k g) h)
    where
      by_row :
          (o : Option PinAttempt)
          → now < map_or o 0 (λ a. a.locked_until_ms)
          → map_or o true (λ a. leb a.locked_until_ms now) ≡ false
      by_row none h = absurd (omega arith)
      by_row (some a) h = ground arith

  -- An attempt before the end of a lock leaves the lock as it is, whoever makes it.
  attempt-locked :
      (a : Attempt) (g : PinGate)
      → Distinct g
      → a.now < locked_until k g
      → lookup k (attempt a g) ≡ lookup k g
  unfolding attempt record_success record_failure
  attempt-locked a g d h = elim (Bool-cases (check a.now a.identity g)) [
    | inr refused ↦ rw refused
    | inl allowed ↦ rw allowed (by_answer a.is_right (other allowed))
  ]
    where
      other : check a.now a.identity g ≡ true → pair_beq a.identity k ≡ false
      other allowed = ground (arith, not_checked a.now a.identity g h, pair_beq_iff a.identity k)

      by_answer :
          (b : Bool)
          → pair_beq a.identity k ≡ false
          → lookup k (
              if b
              then erase a.identity g
              else insert a.identity
                  (one_more a.now (or_default (lookup a.identity (make_room a.now g)) no_attempt))
                  (make_room a.now g))
            ≡ lookup k g
      by_answer true e = rw (lookup-erase a.identity k g, e)
      by_answer false e =
          rw
            (
              lookup-insert a.identity k
                  (one_more a.now (or_default (lookup a.identity (make_room a.now g)) no_attempt))
                  (make_room a.now g),
              e,
            )
            (make_room-locked k a.now g d h)

  -- While an identity is locked none of its PINs is compared.
  compared-locked :
      (until : ℕ) (rest : List Attempt) (g : PinGate)
      → Distinct g
      → until ≤ locked_until k g
      → All (λ a. a.now < until) rest
      → compared k rest g ≡ 0
  unfolding compared is_compared
  compared-locked until [] g d h early = refl
  compared-locked until (a ∷ rest) g d h early = ground (
    arith,
    compared-locked until rest (attempt a g) (attempt-Distinct a g d)
        (rw (attempt-locked a g d (omega arith)) h) early.1,
    not_checked a.now a.identity g (omega arith),
    pair_beq_iff a.identity k,
  )

  attempt-other :
      (a : Attempt) (g : PinGate)
      → length g < max_tracked
      → pair_beq a.identity k ≡ false
      → lookup k (attempt a g) ≡ lookup k g
  unfolding attempt record_success record_failure make_room
  attempt-other a g room other = ground (
    arith,
    lookup-erase a.identity k g,
    lookup-insert a.identity k (one_more a.now (or_default (lookup a.identity g) no_attempt)) g,
  )

  attempt-wrong :
      (a : Attempt) (g : PinGate)
      → length g < max_tracked
      → a.identity ≡ k
      → a.is_right ≡ false
      → check a.now a.identity g ≡ true
      → lookup k (attempt a g) ≡ some (one_more a.now (or_default (lookup k g) no_attempt))
  unfolding attempt record_failure make_room
  attempt-wrong a g room e wrong allowed = ground (
    arith,
    lookup-insert a.identity k (one_more a.now (or_default (lookup a.identity g) no_attempt)) g,
    pair_beq_iff a.identity k,
  )

length-erase-le : (k : Identity) (g : PinGate) → length (erase k g) ≤ length g
unfolding erase
length-erase-le k [] = omega arith
length-erase-le k (p ∷ g) = ground (arith, length-erase-le k g)

length-insert-le :
    (k : Identity) (a : PinAttempt) (g : PinGate) → length (insert k a g) ≤ length g + 1
unfolding insert
length-insert-le k a [] = omega arith
length-insert-le k a (p ∷ g) = ground (arith, length-insert-le k a g)

length-attempt-le :
    (a : Attempt) (g : PinGate) → length g < max_tracked → length (attempt a g) ≤ length g + 1
unfolding attempt record_success record_failure make_room
length-attempt-le a g room = ground (
  arith,
  length-erase-le a.identity g,
  length-insert-le a.identity (one_more a.now (or_default (lookup a.identity g) no_attempt)) g,
)

abbrev pub spent : ℕ → ℕ
spent n = if ltb n 5 then n else 4

-- A wrong PIN, tried within the minute that begins at `start`, by an identity with `f` wrong ones before it.
one_more_cases :
    (start now : ℕ) (a : PinAttempt)
    → start ≤ now
    → (start + lock_ms ≤ (one_more now a).locked_until_ms)
      ⊎ ((a.failures < 4) × ((one_more now a).failures ≡ a.failures + 1))
unfolding one_more saturating_add
one_more_cases start now a h = elim (Bool-cases (ltb a.failures 4)) [
  | inl few ↦ inr (ground arith, ground arith)
  | inr many ↦ inl (ground arith)
]

-- An attempt within the minute, with a wrong PIN if it is of the identity `k`.
abbrev pub InMinute : ℕ → Identity → Attempt → Type 0
InMinute start k a =
    (start ≤ a.now)
    × (a.now < start + lock_ms)
    × (pair_beq a.identity k ≡ true → a.is_right ≡ false)

attempt-refused : (a : Attempt) (g : PinGate) → check a.now a.identity g ≡ false → attempt a g ≡ g
unfolding attempt
attempt-refused a g h = rw h

spend :
    (b : Bool) (n f f' : ℕ)
    → n + spent f' ≤ 5
    → (b ≡ false → f' ≡ f)
    → (b ≡ true → (n ≡ 0) ⊎ ((f < 4) × (f' ≡ f + 1)))
    → (if b then 1 else 0) + n + spent f ≤ 5
spend false n f f' h same step = ground (arith, same refl)
spend true n f f' h same step = elim (step refl) [
  | inl nothing ↦ ground arith
  | inr counted ↦ ground arith
]

module _ (start : ℕ) (k : Identity) where
  early :
      (rest : List Attempt) → All (InMinute start k) rest → All (λ a. a.now < start + lock_ms) rest
  early rest = All-imp (InMinute start k) (λ a. a.now < start + lock_ms) rest (λ a h. h.1)

  skipped :
      (a : Attempt) (g : PinGate)
      → length g < max_tracked
      → is_compared k a g ≡ false
      → lookup k (attempt a g) ≡ lookup k g
  unfolding is_compared
  skipped a g room h = elim (Bool-cases (pair_beq a.identity k)) [
    | inr other ↦ attempt-other k a g room other
    | inl same ↦ ap (lookup k) (attempt-refused a g (ground arith))
  ]

  tried :
      (a : Attempt) (g : PinGate)
      → length g < max_tracked
      → InMinute start k a
      → is_compared k a g ≡ true
      → (start + lock_ms ≤ locked_until k (attempt a g))
        ⊎ ((failures_of k g < 4) × (failures_of k (attempt a g) ≡ failures_of k g + 1))
  unfolding is_compared
  tried a g room h hit =
      rw
        (attempt-wrong k a g room (ground (arith, pair_beq_iff a.identity k)) (ground (arith, h.2))
          (ground arith))
        (by_row (lookup k g))
    where
      by_row :
          (o : Option PinAttempt)
          → (start + lock_ms ≤ (one_more a.now (or_default o no_attempt)).locked_until_ms)
            ⊎ ((map_or o 0 (λ a. a.failures) < 4)
                × ((one_more a.now (or_default o no_attempt)).failures
                    ≡ map_or o 0 (λ a. a.failures) + 1))
      by_row none = one_more_cases start a.now no_attempt h.0
      by_row (some old) = one_more_cases start a.now old h.0

  -- Within a minute at most five wrong PINs of an identity are compared, less the wrong ones counted before, and
  -- one where five or more were counted: however many attempts are made by it and by others in whatever
  -- order, as long as the gate has room for all of them.
  pub compared-spent :
      (rest : List Attempt) (g : PinGate)
      → Distinct g
      → length g + length rest ≤ max_tracked
      → All (InMinute start k) rest
      → compared k rest g + spent (failures_of k g) ≤ 5
  unfolding compared
  compared-spent [] g d room h = ground arith
  compared-spent (a ∷ rest) g d room h =
      let ih =
        compared-spent rest (attempt a g) (attempt-Distinct a g d)
          (omega (arith, length-attempt-le a g (omega arith))) h.1 in
      spend (is_compared k a g) (compared k rest (attempt a g)) (failures_of k g)
        (failures_of k (attempt a g)) ih
        (λ no_try. ap (λ o. map_or o 0 (λ p. p.failures)) (skipped a g (omega arith) no_try))
        (λ hit. elim (tried a g (omega arith) h.0 hit) [
          | inl locked ↦ inl (
              compared-locked k (start + lock_ms) rest (attempt a g) (attempt-Distinct a g d) locked
                (early rest h.1))
          | inr counted ↦ inr counted
        ])
