-- ===== src/Pipeline/Ack/Timeouts.antt =====
-- The timeout sweep of src/pipeline.rs over the pending acks, and the restart of their clocks.
use mathlib.Core.Path.{ap₂}
use mathlib.Core.List.{append-nil}
use cockatiel_engine_rs.Shared.{
  ℕ, ◌-◌, ◌≤◌, String, ◌≡◌, refl, sym, subst, ◌∙◌, ◌≢◌, inl, inr, Bool, not, eq_iff, none, some,
  List, [], ◌∷◌, ◌++◌, map, arith, if◌then◌else◌, Bool-cases, ◌==◌, eq_of_beq, ne_of_beq, is_empty,
  keep, All, All-keep, keep-append, lookup, Distinct, string_eq,
}
use cockatiel_engine_rs.Pipeline.Ack.{
  PendingAck, AckTracker, entries_of, is_expired, check_timeouts, restart, restart_clocks,
  has_pending,
}

abbrev pub live : ℕ → PendingAck → Bool
live now e = not (is_expired now e)

lookup-check_timeouts-none :
    (now : ℕ) (u : String) (t : AckTracker)
    → lookup u t ≡ none
    → lookup u (check_timeouts now t).1 ≡ none
unfolding lookup check_timeouts
lookup-check_timeouts-none now u [] h = refl
lookup-check_timeouts-none now u ((j, es) ∷ t) h =
    ground (arith, lookup-check_timeouts-none now u t)

pub lookup-check_timeouts :
    (now : ℕ) (u : String) (t : AckTracker)
    → Distinct t
    → lookup u (check_timeouts now t).1 ≡ (
        let still = keep (live now) (entries_of u t) in if is_empty still then none else some still)
unfolding lookup check_timeouts keep
lookup-check_timeouts now u [] d = refl
lookup-check_timeouts now u ((j, es) ∷ t) d =
    ground
      (arith, eq_iff j u, lookup-check_timeouts now u t d.1, lookup-check_timeouts-none now j t d.0)

-- Every entry stands under its own message.
abbrev pub Keyed : AckTracker → Type 0
Keyed = All (λ p. All (λ e. e.uuid7 ≡ p.0) p.1)

abbrev pub about : String → PendingAck × Bool → Bool
about u p = p.0.uuid7 == u

keep-about_self :
    (u : String) (b : Bool) (es : List PendingAck)
    → All (λ e. e.uuid7 ≡ u) es
    → keep (about u) (map (λ e. (e, b)) es) ≡ map (λ e. (e, b)) es
unfolding keep
keep-about_self u b [] h = refl
keep-about_self u b (e ∷ es) h = ground (arith, eq_iff e.uuid7 u, keep-about_self u b es h.1)

keep-about_other :
    (u j : String) (b : Bool) (es : List PendingAck)
    → j ≢ u
    → All (λ e. e.uuid7 ≡ j) es
    → keep (about u) (map (λ e. (e, b)) es) ≡ []
unfolding keep
keep-about_other u j b [] ne h = refl
keep-about_other u j b (e ∷ es) ne h =
    ground (arith, eq_iff e.uuid7 u, keep-about_other u j b es ne h.1)

drained_none :
    (now : ℕ) (u : String) (t : AckTracker)
    → Keyed t
    → lookup u t ≡ none
    → keep (about u) (check_timeouts now t).0 ≡ []
unfolding lookup check_timeouts keep
drained_none now u [] k h = refl
drained_none now u ((j, es) ∷ t) k h =
    let b = not (is_empty (keep (live now) es)) in
    let gone = keep (is_expired now) es in
    keep-append (about u) (map (λ e. (e, b)) gone) (check_timeouts now t).0
    ∙ ap₂ ◌++◌
        (keep-about_other u j b gone (ground (arith, eq_iff j u))
          (All-keep _ (is_expired now) es k.0))
        (drained_none now u t k.1 (ground (arith, eq_iff j u)))

has_pending-check_timeouts_head :
    (now : ℕ) (u : String) (es : List PendingAck) (t : AckTracker)
    → lookup u t ≡ none
    → has_pending u (check_timeouts now ((u, es) ∷ t)).1 ≡ not (is_empty (keep (live now) es))
unfolding check_timeouts has_pending lookup
has_pending-check_timeouts_head now u es t h =
    ground (arith, eq_iff u u, lookup-check_timeouts-none now u t h)

-- What a sweep drains of one message: its expired entries, in order, each with the same answer to
-- "is anything still pending", which is what the tracker holds after the sweep.
abbrev pub Drained : ℕ → String → AckTracker → Type 0
Drained now u t =
    keep (about u) (check_timeouts now t).0
    ≡ map (λ e. (e, has_pending u (check_timeouts now t).1))
        (keep (is_expired now) (entries_of u t))

entries_of_self :
    (u : String) (es : List PendingAck) (t : AckTracker) → entries_of u ((u, es) ∷ t) ≡ es
unfolding lookup
entries_of_self u es t = ground (arith, eq_iff u u)

entries_of_other :
    (u j : String) (es : List PendingAck) (t : AckTracker)
    → j ≢ u
    → entries_of u ((j, es) ∷ t) ≡ entries_of u t
unfolding lookup
entries_of_other u j es t h = ground (arith, eq_iff j u)

Drained-self :
    (now : ℕ) (u : String) (es : List PendingAck) (t : AckTracker)
    → All (λ e. e.uuid7 ≡ u) es
    → Keyed t
    → lookup u t ≡ none
    → Drained now u ((u, es) ∷ t)
unfolding check_timeouts
Drained-self now u es t own k h =
    rw (entries_of_self u es t, has_pending-check_timeouts_head now u es t h)
      (let b = not (is_empty (keep (live now) es)) in
        let gone = keep (is_expired now) es in
        keep-append (about u) (map (λ e. (e, b)) gone) (check_timeouts now t).0
        ∙ ap₂ ◌++◌ (keep-about_self u b gone (All-keep _ (is_expired now) es own))
            (drained_none now u t k h)
        ∙ append-nil _)

has_pending-check_timeouts_tail :
    (now : ℕ) (u j : String) (es : List PendingAck) (t : AckTracker)
    → j ≢ u
    → has_pending u (check_timeouts now ((j, es) ∷ t)).1 ≡ has_pending u (check_timeouts now t).1
unfolding check_timeouts has_pending lookup
has_pending-check_timeouts_tail now u j es t h = ground (arith, eq_iff j u)

Drained-other :
    (now : ℕ) (u j : String) (es : List PendingAck) (t : AckTracker)
    → j ≢ u
    → All (λ e. e.uuid7 ≡ j) es
    → Drained now u t
    → Drained now u ((j, es) ∷ t)
unfolding check_timeouts
Drained-other now u j es t ne own ih =
    rw (entries_of_other u j es t ne, has_pending-check_timeouts_tail now u j es t ne)
      (let b = not (is_empty (keep (live now) es)) in
        let gone = keep (is_expired now) es in
        keep-append (about u) (map (λ e. (e, b)) gone) (check_timeouts now t).0
        ∙ ap₂ ◌++◌ (keep-about_other u j b gone ne (All-keep _ (is_expired now) es own)) ih)

-- Let every message have one list in the tracker, with entries that are its own. Then what a sweep at
-- `now` drains of message `u` are its expired entries, in order, each with the same answer to whether
-- anything of `u` is still pending, which is what the tracker holds after the sweep.
pub drained : (now : ℕ) (u : String) (t : AckTracker) → Distinct t → Keyed t → Drained now u t
unfolding check_timeouts keep lookup
drained now u [] d k = refl
drained now u ((j, es) ∷ t) d k = elim (Bool-cases (j == u)) [
  | inl same ↦
      let e = eq_of_beq j u same in
      subst (λ x. Drained now u ((x, es) ∷ t)) (sym e)
        (Drained-self now u es t (subst (λ x. All (λ y. y.uuid7 ≡ x) es) e k.0) k.1 (rw e at d.0))
  | inr other ↦ Drained-other now u j es t (ne_of_beq j u other) k.0 (drained now u t d.1 k.1)
]

-- Paused time does not count: with the clocks restarted at `now`, a sweep at `later` drains nothing
-- while no entry's full budget has passed since `now`.
pub check_timeouts-restart_clocks :
    (now later : ℕ) (t : AckTracker)
    → All (λ p. All (λ e. later - now ≤ e.timeout) p.1) t
    → (check_timeouts later (restart_clocks now t)).0 ≡ []
unfolding check_timeouts restart_clocks keep
check_timeouts-restart_clocks now later [] h = refl
check_timeouts-restart_clocks now later ((u, es) ∷ t) h =
    rw (none_expired es h.0) (check_timeouts-restart_clocks now later t h.1)
  where
    none_expired :
        (es : List PendingAck)
        → All (λ e. later - now ≤ e.timeout) es
        → keep (is_expired later) (map (restart now) es) ≡ []
    none_expired [] h = refl
    none_expired (e ∷ es) h = ground (arith, none_expired es h.1)
