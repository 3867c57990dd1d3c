-- ===== src/Connection/Probe/Silence.antt =====
-- What becomes of a module that stays silent: src/main.rs.
use cockatiel_engine_rs.Shared.{
  ℕ, ◌+◌, ◌≤◌, ◌<◌, String, ◌≡◌, refl, ◌⊎◌, inl, inr, Bool, true, false, ◌&&◌, some, List, [], ◌∷◌,
  ◌++◌, arith, ltb, leb, ltb→lt, leb→le, Bool-cases, eq_refl, Map, lookup, lookup-adjust, string_eq,
}
use cockatiel_engine_rs.Connection.Sessions.{AuthSession, mark_probed, mark_unresponsive}
use cockatiel_engine_rs.Connection.Probe.{
  Decision, leave, flag, ask_again, decide, after_decision, Probing, carry_out, probed, probed_at,
}

-- What the task does to a session in the store.
pub lookup-carry_out :
    (kill_map : Map String ℕ) (now response_ms : ℕ) (s : AuthSession) (d : Decision) (p : Probing)
    → lookup s.instance_uuid7 p.sessions ≡ some s
    → lookup s.instance_uuid7 (carry_out kill_map now response_ms s d p).sessions
      ≡ some (after_decision now response_ms d s)
unfolding carry_out mark_unresponsive mark_probed after_decision
lookup-carry_out kill_map now response_ms s leave p found = found
lookup-carry_out kill_map now response_ms s flag p found =
    rw
      (
        lookup-adjust s.instance_uuid7 s.instance_uuid7
            (λ s. record s { unresponsive = true; probe_deadline_ms = 0 }) p.sessions,
        found,
        eq_refl s.instance_uuid7,
      )
      refl
lookup-carry_out kill_map now response_ms s ask_again p found =
    rw
      (
        lookup-adjust s.instance_uuid7 s.instance_uuid7
            (λ s. record s { last_probe_at_ms = now; probe_deadline_ms = now + response_ms })
            p.sessions,
        found,
        eq_refl s.instance_uuid7,
      )
      refl

-- All times are before a time.
abbrev all_before : ℕ → List ℕ → Bool
all_before d [] = true
all_before d (t ∷ ts) = ltb t d && all_before d ts

-- The session is not due, and was asked less than an interval ago.
decide-leave :
    (now interval_ms response_ms : ℕ) (s : AuthSession)
    → s.unresponsive ≡ false
    → now < s.probe_deadline_ms
    → now < s.last_probe_at_ms + interval_ms
    → decide now interval_ms response_ms s ≡ leave
unfolding decide
decide-leave now interval_ms response_ms s up early recent = ground arith

decide-ask_again :
    (now interval_ms response_ms : ℕ) (s : AuthSession)
    → s.unresponsive ≡ false
    → (s.probe_deadline_ms ≡ 0) ⊎ (now < s.probe_deadline_ms)
    → s.last_activity_ms + interval_ms ≤ now
    → s.last_probe_at_ms + interval_ms ≤ now
    → decide now interval_ms response_ms s ≡ ask_again
unfolding decide
decide-ask_again now interval_ms response_ms s up not_due silent since = ground arith

decide-flag :
    (now interval_ms response_ms : ℕ) (s : AuthSession)
    → s.unresponsive ≡ false
    → 0 < s.probe_deadline_ms
    → s.probe_deadline_ms ≤ now
    → decide now interval_ms response_ms s ≡ flag
unfolding decide
decide-flag now interval_ms response_ms s up pending due = ground arith

probed-leave :
    (now interval_ms response_ms : ℕ) (s : AuthSession)
    → s.unresponsive ≡ false
    → now < s.probe_deadline_ms
    → now < s.last_probe_at_ms + interval_ms
    → probed interval_ms response_ms now s ≡ s
unfolding probed after_decision
probed-leave now interval_ms response_ms s up early recent =
    rw (decide-leave now interval_ms response_ms s up early recent) refl

probed_at-leave :
    (interval_ms response_ms : ℕ) (ts : List ℕ) (s : AuthSession)
    → s.unresponsive ≡ false
    → s.probe_deadline_ms ≤ s.last_probe_at_ms + interval_ms
    → all_before s.probe_deadline_ms ts ≡ true
    → probed_at interval_ms response_ms ts s ≡ s
unfolding probed_at
probed_at-leave interval_ms response_ms [] s up short early = refl
probed_at-leave interval_ms response_ms (t ∷ ts) s up short early =
    let first : t < s.probe_deadline_ms = ground (arith, ltb→lt t s.probe_deadline_ms) in
    rw (probed-leave t interval_ms response_ms s up first (omega arith))
      (probed_at-leave interval_ms response_ms ts s up short (ground arith))

probed_at-next :
    (interval_ms response_ms t : ℕ) (ts : List ℕ) (s : AuthSession)
    → probed_at interval_ms response_ms (t ∷ ts) s
      ≡ probed_at interval_ms response_ms ts (probed interval_ms response_ms t s)
unfolding probed_at
probed_at-next interval_ms response_ms t ts s = refl

probed_at-append :
    (interval_ms response_ms : ℕ) (ts us : List ℕ) (s : AuthSession)
    → probed_at interval_ms response_ms (ts ++ us) s
      ≡ probed_at interval_ms response_ms us (probed_at interval_ms response_ms ts s)
unfolding probed_at
probed_at-append interval_ms response_ms [] us s = refl
probed_at-append interval_ms response_ms (t ∷ ts) us s =
    probed_at-append interval_ms response_ms ts us (probed interval_ms response_ms t s)

probed-ask_again :
    (now interval_ms response_ms : ℕ) (s : AuthSession)
    → decide now interval_ms response_ms s ≡ ask_again
    → probed interval_ms response_ms now s
      ≡ record s { last_probe_at_ms = now; probe_deadline_ms = now + response_ms }
unfolding probed after_decision
probed-ask_again now interval_ms response_ms s asks = rw asks refl

probed-flag :
    (now interval_ms response_ms : ℕ) (s : AuthSession)
    → decide now interval_ms response_ms s ≡ flag
    → (probed interval_ms response_ms now s).unresponsive ≡ true
unfolding probed after_decision
probed-flag now interval_ms response_ms s flags = rw flags refl

-- A module that is up and has been silent for an interval is asked at the next turn. Where the time to answer is not
-- longer than the interval, it is left alone at every turn until that time is over, and marked unresponsive at
-- the first turn after.
pub probed_at-silent :
    (interval_ms response_ms asked due : ℕ) (ts : List ℕ) (s : AuthSession)
    → s.unresponsive ≡ false
    → s.probe_deadline_ms ≡ 0
    → s.last_activity_ms + interval_ms ≤ asked
    → s.last_probe_at_ms + interval_ms ≤ asked
    → 0 < asked
    → response_ms ≤ interval_ms
    → all_before (asked + response_ms) ts ≡ true
    → asked + response_ms ≤ due
    → ((probed_at interval_ms response_ms (asked ∷ ts) s).unresponsive ≡ false)
      × ((probed_at interval_ms response_ms ((asked ∷ ts) ++ due ∷ []) s).unresponsive ≡ true)
unfolding probed_at probed
probed_at-silent interval_ms response_ms asked due ts s up free silent since later short early
      late =
    let s' = record s { last_probe_at_ms = asked; probe_deadline_ms = asked + response_ms } in
    let first =
      probed-ask_again asked interval_ms response_ms s
        (decide-ask_again asked interval_ms response_ms s up (inl free) silent since) in
    let wait = probed_at-leave interval_ms response_ms ts s' up (omega arith) early in
    (
      rw (probed_at-next interval_ms response_ms asked ts s, first, wait) up,
      rw
          (
            probed_at-next interval_ms response_ms asked (ts ++ due ∷ []) s,
            first,
            probed_at-append interval_ms response_ms ts (due ∷ []) s',
            wait,
          )
          (probed-flag due interval_ms response_ms s'
            (decide-flag due interval_ms response_ms s' up (omega arith) late)),
    )

-- Times that go on from a time, each at most `gap` after the one before.
abbrev is_steady : ℕ → ℕ → List ℕ → Bool
is_steady gap from [] = true
is_steady gap from (t ∷ ts) = leb from t && leb t (from + gap) && is_steady gap t ts

-- Where the time to answer is longer than the interval and the time from one turn to the next together, a silent module
-- that has been asked is never marked unresponsive: each turn that asks it again moves its deadline.
pub probed_at-patient :
    (interval_ms response_ms gap from : ℕ) (ts : List ℕ) (s : AuthSession)
    → 0 < interval_ms
    → interval_ms + gap ≤ response_ms
    → s.unresponsive ≡ false
    → s.last_activity_ms + interval_ms ≤ from
    → from < s.last_probe_at_ms + interval_ms
    → s.probe_deadline_ms ≡ s.last_probe_at_ms + response_ms
    → is_steady gap from ts ≡ true
    → (probed_at interval_ms response_ms ts s).unresponsive ≡ false
unfolding probed_at
probed_at-patient interval_ms response_ms gap from [] s pos long up silent recent due steady = up
probed_at-patient interval_ms response_ms gap from (t ∷ ts) s pos long up silent recent due steady =
    let at_least : from ≤ t = ground (arith, leb→le from t) in
    let at_most : t ≤ from + gap = ground (arith, leb→le t (from + gap)) in
    let early : t < s.probe_deadline_ms = omega arith in
    elim (Bool-cases (leb (s.last_probe_at_ms + interval_ms) t)) [
      | inl since ↦
          rw
            (
              probed_at-next interval_ms response_ms t ts s,
              probed-ask_again t interval_ms response_ms s (
                  decide-ask_again t interval_ms response_ms s up (inr early) (omega arith)
                    (leb→le _ _ since)),
            )
            (probed_at-patient interval_ms response_ms gap t ts
              (record s { last_probe_at_ms = t; probe_deadline_ms = t + response_ms }) pos long up
              (omega arith) (omega arith) refl (ground arith))
      | inr not_yet ↦
          let before : t < s.last_probe_at_ms + interval_ms = ground arith in
          rw
            (
              probed_at-next interval_ms response_ms t ts s,
              probed-leave t interval_ms response_ms s up early before,
            )
            (probed_at-patient interval_ms response_ms gap t ts s pos long up (omega arith) before
              due (ground arith))
    ]
