-- ===== src/Queries/Access.antt =====
-- Who is admitted to what: src/queries.rs.
use cockatiel_engine_rs.Shared.Text.{starts_with}
use cockatiel_engine_rs.Shared.{
  String, ◌≡◌, refl, subst, ◌≢◌, ◌↔◌, inl, inr, Bool, true, false, ◌&&◌, ◌||◌, not, none, List, [],
  ◌∷◌, arith, if◌then◌else◌, Bool-cases, eq_of_beq, ◌==◌, All, contains, All-not_contains,
  string_eq,
}
use cockatiel_engine_rs.Queries.{
  QueryRoute, classify_query, caller_gate, is_control_surface, then_some,
}

-- The queries that control the engine and the stream, release held messages, or read and write its figures
-- and credentials.
abbrev pub control_queries : List String
control_queries =
    "engine_shutdown" ∷ "pipeline_set_paused" ∷ "test_run" ∷ "audit_list" ∷ "audit_approve"
    ∷ "audit_reject" ∷ "set_credentials" ∷ "stats" ∷ "stream_leaderboard" ∷ "stream_control" ∷ []

-- The operations on the user database that some modules may call, too.
abbrev pub shared_userdb_queries : List String
shared_userdb_queries = "userdb_adjust_score" ∷ "userdb_block" ∷ "userdb_unblock" ∷ []

abbrev pub other_queries : List String
other_queries =
    "db_status" ∷ "module_list" ∷ "engine_info" ∷ "test_probe" ∷ "chat_commend" ∷ "chat_reprimand"
    ∷ "chat_verify_identity" ∷ "chat_reply" ∷ "module_bans_report" ∷ "prediction_get_score"
    ∷ "channel_viewers" ∷ "leaderboard_report" ∷ "stream_schedule" ∷ "stream_control_status"
    ∷ "test_archive" ∷ []

-- A query that only the control surface is to make, by its name.
unfoldable pub is_control_query : String → Bool
unfolding contains starts_with
is_control_query q =
    contains control_queries q || starts_with "userdb_" q && not (contains shared_userdb_queries q)

-- A query that the engine names at all.
unfoldable pub is_known_query : String → Bool
unfolding contains starts_with
is_known_query q =
    contains control_queries q
    || contains other_queries q
    || starts_with "userdb_" q
    || starts_with "mod_" q

ne_of_prefix :
    (p q s : String) → starts_with p q ≡ true → starts_with p s ≡ false → (q == s) ≡ false
ne_of_prefix p q s h k = elim (Bool-cases (q == s)) [
  | inl e ↦ absurd (ground (arith, subst (λ x. starts_with p x ≡ true) (eq_of_beq q s e) h))
  | inr e ↦ e
]

admits : (b : Bool) (message : String) → (then_some (not b) message ≡ none) ↔ (b ≡ true)
admits true message = (λ _. refl, λ _. refl)
admits false message = (λ h. absurd (ground (arith, h)), λ h. absurd (ground (arith, h)))

ne_not_prefix :
    (p q s : String) → starts_with p q ≡ false → starts_with p s ≡ true → (q == s) ≡ false
ne_not_prefix p q s h k = elim (Bool-cases (q == s)) [
  | inl e ↦ absurd (ground (arith, subst (λ x. starts_with p x ≡ false) (eq_of_beq q s e) h))
  | inr e ↦ e
]

-- No name starts both ways.
not_mod : (q : String) → starts_with "userdb_" q ≡ true → starts_with "mod_" q ≡ false
unfolding starts_with
not_mod String.[] h = refl
not_mod (String.◌∷◌ c q) h = ground arith

-- A query whose name starts with `userdb_` is the score adjustment, a block or an unblock, or one of the
-- user database's family, which only the control surface may call: no other test of the chain
-- catches it, whatever the rest of the name.
pub classify_query-userdb :
    (q caller : String)
    → starts_with "userdb_" q ≡ true
    → (classify_query q ≡ (
        if q == "userdb_adjust_score"
        then QueryRoute.userdb_adjust_score
        else if q == "userdb_block" || q == "userdb_unblock"
        then QueryRoute.userdb_block
        else QueryRoute.userdb_family))
      × ((q == "userdb_adjust_score") ≡ false
          → (q == "userdb_block") ≡ false
          → (q == "userdb_unblock") ≡ false
          → (caller_gate (classify_query q) caller ≡ none) ↔ (is_control_surface caller ≡ true))
unfolding starts_with classify_query caller_gate
classify_query-userdb q caller h = (route, gate)
  where
    not_named : (s : String) → starts_with "userdb_" s ≡ false → (q == s) ≡ false
    not_named s k = ne_of_prefix "userdb_" q s h k

    no_mod : starts_with "mod_" q ≡ false
    no_mod = not_mod q h

    route : classify_query q ≡ (
        if q == "userdb_adjust_score"
        then QueryRoute.userdb_adjust_score
        else if q == "userdb_block" || q == "userdb_unblock"
        then QueryRoute.userdb_block
        else QueryRoute.userdb_family)
    route =
        rw
          (
            classify_query,
            not_named "db_status" refl,
            not_named "module_list" refl,
            not_named "engine_info" refl,
            not_named "pipeline_set_paused" refl,
            not_named "engine_shutdown" refl,
            not_named "test_run" refl,
            not_named "test_probe" refl,
            not_named "audit_list" refl,
            not_named "audit_approve" refl,
            not_named "audit_reject" refl,
            not_named "chat_commend" refl,
            not_named "chat_reprimand" refl,
            not_named "chat_verify_identity" refl,
            not_named "chat_reply" refl,
            not_named "module_bans_report" refl,
            no_mod,
            h,
          )
          refl

    gate :
        (q == "userdb_adjust_score") ≡ false
        → (q == "userdb_block") ≡ false
        → (q == "userdb_unblock") ≡ false
        → (caller_gate (classify_query q) caller ≡ none) ↔ (is_control_surface caller ≡ true)
    gate a b c = rw (route, a, b, c) (admits (is_control_surface caller) _)

All-contains {κ} :
    (P : String → Type κ) (q : String) (xs : List String) → contains xs q ≡ true → All P xs → P q
unfolding contains
All-contains P q [] h a = absurd (ground (arith, h))
All-contains P q (x ∷ xs) h a = elim (Bool-cases (x == q)) [
  | inl e ↦ subst P (eq_of_beq x q e) a.0
  | inr e ↦ All-contains P q xs (ground (arith, h, e)) a.1
]

-- The gate of a named query, of whatever caller.
abbrev IsForControl : String → String → Type 0
IsForControl caller q =
    (caller_gate (classify_query q) caller ≡ none) ↔ (is_control_surface caller ≡ true)

named : (caller : String) → All (IsForControl caller) control_queries
unfolding classify_query caller_gate
named caller =
    let c = is_control_surface caller in
    (
      admits c _,
      (
        admits c _,
        (
          admits c _,
          (
            admits c _,
            (admits c _, (admits c _, (admits c _, (admits c _, (admits c _, (admits c _, tt)))))),
          ),
        ),
      ),
    )

none_of :
    (a b c d : Bool)
    → (a || b || c || d) ≡ false
    → (a ≡ false) × (b ≡ false) × (c ≡ false) × (d ≡ false)
none_of a b c d h = ground arith

second_of : (a b c : Bool) → (a || b && not c) ≡ true → a ≡ false → (b ≡ true) × (c ≡ false)
second_of a b c h k = ground arith

unnamed : (q : String) → is_known_query q ≡ false → classify_query q ≡ QueryRoute.unsupported
unfolding is_known_query classify_query starts_with
unnamed q h =
    let (no_control, no_other, no_userdb, no_mod) = none_of _ _ _ _ h in
    let (c0, (c1, (c2, (c3, (c4, (c5, (c6, (c7, (c8, (c9, _)))))))))) =
      All-not_contains q control_queries no_control in
    let (
      o0,
      (o1, (o2, (o3, (o4, (o5, (o6, (o7, (o8, (o9, (o10, (o11, (o12, (o13, (o14, _)))))))))))))),
    ) =
      All-not_contains q other_queries no_other in
    let not_named : (s : String) → starts_with "userdb_" s ≡ true → (q == s) ≡ false =
      λ s k. ne_not_prefix "userdb_" q s no_userdb k in
    rw
      (
        classify_query,
        c0,
        c1,
        c2,
        c3,
        c4,
        c5,
        c6,
        c7,
        c8,
        c9,
        o0,
        o1,
        o2,
        o3,
        o4,
        o5,
        o6,
        o7,
        o8,
        o9,
        o10,
        o11,
        o12,
        o13,
        o14,
        no_mod,
        no_userdb,
        not_named "userdb_adjust_score" refl,
        not_named "userdb_block" refl,
        not_named "userdb_unblock" refl,
      )
      refl

-- The control surface, and nobody else, is admitted to a query that is for the control surface by
-- its name: the ten that control the engine or the stream, decide on held messages, or read its
-- figures and set credentials, and every query whose name starts with `userdb_` but the score
-- adjustment, the block and the unblock. And nobody is admitted to a query that the engine does not
-- name.
pub caller_gate-classify_query :
    (q caller : String)
    → (is_control_query q ≡ true
        → (caller_gate (classify_query q) caller ≡ none) ↔ (is_control_surface caller ≡ true))
      × (is_known_query q ≡ false → caller_gate (classify_query q) caller ≢ none)
unfolding is_control_query caller_gate contains
caller_gate-classify_query q caller = (control, unknown)
  where
    control :
        is_control_query q ≡ true
        → (caller_gate (classify_query q) caller ≡ none) ↔ (is_control_surface caller ≡ true)
    control h = elim (Bool-cases (contains control_queries q)) [
      | inl k ↦ All-contains (IsForControl caller) q control_queries k (named caller)
      | inr k ↦
          let (userdb, other) = second_of _ _ _ h k in
          let (not_adjust, (not_block, (not_unblock, _))) =
            All-not_contains q shared_userdb_queries other in
          (classify_query-userdb q caller userdb).1 not_adjust not_block not_unblock
    ]

    unknown : is_known_query q ≡ false → caller_gate (classify_query q) caller ≢ none
    unknown h k = absurd (ground (arith, unnamed q h, k))
