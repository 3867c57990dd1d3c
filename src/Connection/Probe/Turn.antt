-- ===== src/Connection/Probe/Turn.antt =====
-- One turn of the probe task of src/main.rs over the whole store, session by session.
use cockatiel_engine_rs.Shared.{
  ℕ, ◌+◌, String, ◌≡◌, refl, sym, ap, subst, ◌∙◌, inl, inr, Bool, true, false, ◌&&◌, not, Option,
  some, List, [], ◌∷◌, arith, if◌then◌else◌, Bool-cases, some-injective, eq_of_beq, ◌==◌, any, find,
  Map, lookup, lookup-adjust, string_eq,
}
use cockatiel_engine_rs.Connection.Sessions.{AuthSession, mark_probed, mark_unresponsive}
use cockatiel_engine_rs.Connection.Probe.{
  Limits, limits_for, to_ms, Decision, leave, flag, ask_again, decide, Probing, carry_out,
  probe_each, probed,
}
use cockatiel_engine_rs.Connection.Probe.Silence.{lookup-carry_out}

abbrev is_of : String → AuthSession → Bool
is_of u s = s.instance_uuid7 == u

-- No two sessions of the list have the same identifier.
abbrev pub are_distinct : List AuthSession → Bool
are_distinct [] = true
are_distinct (s ∷ rest) = not (any (is_of s.instance_uuid7) rest) && are_distinct rest

carry_out_other :
    (kill_map : Map String ℕ) (now response_ms : ℕ) (s : AuthSession) (d : Decision) (p : Probing)
    (u : String)
    → (s.instance_uuid7 == u) ≡ false
    → lookup u (carry_out kill_map now response_ms s d p).sessions ≡ lookup u p.sessions
unfolding carry_out mark_unresponsive mark_probed
carry_out_other kill_map now response_ms s leave p u other = refl
carry_out_other kill_map now response_ms s flag p u other =
    rw
      (
        lookup-adjust s.instance_uuid7 u
            (λ s. record s { unresponsive = true; probe_deadline_ms = 0 }) p.sessions,
        other,
      )
      refl
carry_out_other kill_map now response_ms s ask_again p u other =
    rw
      (
        lookup-adjust s.instance_uuid7 u
            (λ s. record s { last_probe_at_ms = now; probe_deadline_ms = now + response_ms })
            p.sessions,
        other,
      )
      refl

if-true : {A : Type 0} (b : Bool) (x y : A) → b ≡ true → (if b then x else y) ≡ x
if-true b x y on = rw on refl

if-false : {A : Type 0} (b : Bool) (x y : A) → b ≡ false → (if b then x else y) ≡ y
if-false b x y off = rw off refl

module _ (discovered : Map String Limits) (configured : Limits) (kill_map : Map String ℕ)
    (now : ℕ) where
  abbrev response_of : AuthSession → ℕ
  response_of s = to_ms (limits_for discovered configured s.module_name).probe_response_secs

  abbrev interval_of : AuthSession → ℕ
  interval_of s = to_ms (limits_for discovered configured s.module_name).unresponsive_timeout_secs

  abbrev handled : AuthSession → Probing → Probing
  handled s p =
      carry_out kill_map now (response_of s) s (decide now (interval_of s) (response_of s) s) p

  probe_each_other :
      (u : String) (xs : List AuthSession) (p : Probing)
      → any (is_of u) xs ≡ false
      → lookup u (probe_each discovered configured kill_map now xs p).sessions ≡ lookup u p.sessions
  unfolding probe_each any
  probe_each_other u [] p absent = refl
  probe_each_other u (x ∷ rest) p absent =
      probe_each_other u rest (handled x p) (ground arith)
      ∙ carry_out_other kill_map now (response_of x) x
          (decide now (interval_of x) (response_of x) x) p u (ground arith)

  handled_self :
      (u : String) (x : AuthSession) (p : Probing)
      → x.instance_uuid7 ≡ u
      → lookup u p.sessions ≡ some x
      → lookup u (handled x p).sessions ≡ some (probed (interval_of x) (response_of x) now x)
  unfolding probed
  handled_self u x p named found =
      subst
        (λ v. lookup v (handled x p).sessions ≡ some (probed (interval_of x) (response_of x) now x))
        named
        (lookup-carry_out kill_map now (response_of x) x
          (decide now (interval_of x) (response_of x) x) p
          (subst (λ v. lookup v p.sessions ≡ some x) (sym named) found))

  -- In one turn over sessions with identifiers of their own, each session becomes what the turn makes of it alone.
  pub lookup-probe_each :
      (u : String) (s : AuthSession) (xs : List AuthSession) (p : Probing)
      → are_distinct xs ≡ true
      → find (is_of u) xs ≡ some s
      → lookup u p.sessions ≡ some s
      → lookup u (probe_each discovered configured kill_map now xs p).sessions
        ≡ some (probed (interval_of s) (response_of s) now s)
  unfolding probe_each find any probed
  lookup-probe_each u s [] p distinct listed found = ground arith
  lookup-probe_each u s (x ∷ rest) p distinct listed found = elim (Bool-cases (is_of u x)) [
    | inl here ↦
        let same : x ≡ s = some-injective x s (
          sym (if-true {A = Option AuthSession} (is_of u x) (some x) (find (is_of u) rest) here)
          ∙ listed) in
        let named : x.instance_uuid7 ≡ u = eq_of_beq x.instance_uuid7 u here in
        probe_each_other u rest (handled x p)
          (subst (λ v. any (is_of v) rest ≡ false) named (ground arith))
        ∙ handled_self u x p named (found ∙ ap Option.some (sym same))
        ∙ ap (λ y. Option.some (probed (interval_of y) (response_of y) now y)) same
    | inr other ↦
        lookup-probe_each u s rest (handled x p) (ground arith)
          (sym (if-false {A = Option AuthSession} (is_of u x) (some x) (find (is_of u) rest) other)
            ∙ listed)
          (carry_out_other kill_map now (response_of x) x
              (decide now (interval_of x) (response_of x) x) p u other
            ∙ found)
  ]
