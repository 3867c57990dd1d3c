-- ===== src/Pipeline/Ack/Laws.antt =====
-- What tracking, receipts and acks of src/pipeline.rs do to a message's pending entries.
use cockatiel_engine_rs.Shared.{
  ℕ, ◌-◌, String, ◌≡◌, refl, subst, ◌∙◌, ◌≢◌, ◌↔◌, inl, inr, true, false, ◌&&◌, ◌||◌, not, eq_iff,
  Option, none, some, List, [], ◌∷◌, ◌++◌, arith, if◌then◌else◌, Option-cases, ◌==◌, is_empty, any,
  keep, find, any-append, is_empty-keep, is_empty-snoc, any-find, find_of_any, lookup,
  lookup-insert, lookup-erase, lookup-adjust, string_eq,
}
use cockatiel_engine_rs.Pipeline.Ack.{
  PendingAck, AckTracker, entries_of, push, track, of_module, drop_module, has_pending,
  is_pending_for, re_track, ack_module, sent, Acked, mark_first, mark_receipt,
}

-- The entries of every message but `u` are as before.
abbrev pub SameElsewhere : String → AckTracker → AckTracker → Type 0
SameElsewhere u t t' = (j : String) → u ≢ j → lookup j t' ≡ lookup j t

pub lookup-push :
    (u j : String) (e : PendingAck) (t : AckTracker)
    → lookup j (push u e t) ≡ (if u == j then some (entries_of u t ++ e ∷ []) else lookup j t)
lookup-push u j e t = lookup-insert u j (entries_of u t ++ e ∷ []) t

pub has_pending-push :
    (u : String) (e : PendingAck) (t : AckTracker) → has_pending u (push u e t) ≡ true
unfolding has_pending
has_pending-push u e t =
    ground (arith, lookup-push u u e t, eq_iff u u, is_empty-snoc (entries_of u t) e)

pub has_pending-push_other :
    (u j : String) (e : PendingAck) (t : AckTracker)
    → u ≢ j
    → has_pending j (push u e t) ≡ has_pending j t
unfolding has_pending
has_pending-push_other u j e t h = ground (arith, lookup-push u j e t, eq_iff u j)

pub is_pending_for-push :
    (u m stage : String) (e : PendingAck) (t : AckTracker)
    → is_pending_for u m stage (push u e t)
      ≡ (is_pending_for u m stage t || (e.module_name == m && e.stage == stage))
unfolding is_pending_for any
is_pending_for-push u m stage e t = ground (
  arith,
  lookup-push u u e t,
  eq_iff u u,
  any-append (λ x. x.module_name == m && x.stage == stage) (entries_of u t) (e ∷ []),
)

-- A tracked send is pending for its module and stage, and no other message's entries change.
pub track_lem :
    (now : ℕ) (u stage m : String) (timeout_ms : ℕ) (t : AckTracker)
    → (is_pending_for u m stage (track now u stage m timeout_ms t) ≡ true)
      × (has_pending u (track now u stage m timeout_ms t) ≡ true)
      × SameElsewhere u t (track now u stage m timeout_ms t)
unfolding track
track_lem now u stage m timeout_ms t = (
  ground (
    arith,
    is_pending_for-push u m stage (sent now u stage m timeout_ms) t,
    eq_iff m m,
    eq_iff stage stage,
  ),
  has_pending-push u _ t,
  λ j h. lookup-push u j _ t ∙ rw (ne_false u j h),
)
  where
    ne_false : (a b : String) → a ≢ b → (a == b) ≡ false
    ne_false a b h = ground (arith, eq_iff a b)

-- A module is taken off a list of entries by what it is called, whatever the stage.
any-drop :
    (m m' stage : String) (es : List PendingAck)
    → any (λ e. e.module_name == m' && e.stage == stage) (keep (λ e. not (of_module m e)) es)
      ≡ (not (m == m') && any (λ e. e.module_name == m' && e.stage == stage) es)
unfolding any keep
any-drop m m' stage [] = ground arith
any-drop m m' stage (e ∷ es) =
    ground
      (arith, any-drop m m' stage es, eq_iff e.module_name m, eq_iff e.module_name m', eq_iff m m')

-- After `m` has acked `u`, the message's entries of `m` are gone and all others are as before.
abbrev pub Cleared : String → String → AckTracker → AckTracker → Type 0
Cleared u m t t' =
    (m' stage : String)
    → is_pending_for u m' stage t' ≡ (not (m == m') && is_pending_for u m' stage t)

module _ (now : ℕ) (u m : String) (e : PendingAck) (es : List PendingAck) (t : AckTracker) where
  drop_module-pending :
      let (a, t') = drop_module now u m e es t in
      (a.still_pending ≡ any (λ x. not (of_module m x)) es) × (has_pending u t' ≡ a.still_pending)
  unfolding drop_module has_pending
  drop_module-pending =
      let left = keep (λ x. not (of_module m x)) es in
      ground (
        arith,
        is_empty-keep (λ x. not (of_module m x)) es,
        lookup-erase u u t,
        lookup-insert u u left t,
        eq_iff u u,
      )

  drop_module-stage :
      let (a, t') = drop_module now u m e es t in
      (a.stage ≡ e.stage) × (a.elapsed ≡ now - e.sent_at)
  unfolding drop_module
  drop_module-stage = ground arith

  drop_module-Cleared : lookup u t ≡ some es → Cleared u m t (drop_module now u m e es t).1
  unfolding drop_module is_pending_for any
  drop_module-Cleared h m' stage =
      let left = keep (λ x. not (of_module m x)) es in
      ground (
        arith,
        is_empty-keep (λ x. not (of_module m x)) es,
        lookup-erase u u t,
        lookup-insert u u left t,
        eq_iff u u,
        any-drop m m' stage es,
      )

  drop_module-SameElsewhere : SameElsewhere u t (drop_module now u m e es t).1
  unfolding drop_module
  drop_module-SameElsewhere j h =
      let left = keep (λ x. not (of_module m x)) es in
      ground (arith, lookup-erase u j t, lookup-insert u j left t, eq_iff u j)

-- What one ack of `m` for `u` at `now` answers, and what it leaves of the tracker.
pub record AckedRight (now : ℕ) (u m : String) (t : AckTracker) (a : Acked) (t' : AckTracker)
    : Type 0 where
  pub entry : PendingAck
  pub found : find (of_module m) (entries_of u t) ≡ some entry
  pub stage : a.stage ≡ entry.stage
  pub elapsed : a.elapsed ≡ now - entry.sent_at
  pub others : a.still_pending ≡ any (λ x. not (of_module m x)) (entries_of u t)
  pub snapshot : has_pending u t' ≡ a.still_pending
  pub cleared : Cleared u m t t'
  pub elsewhere : SameElsewhere u t t'

-- An ack of `m` for message `u` that is answered: it answers the stage, and the time since the send, of
-- the module's first entry for `u`; `still_pending` says whether another module still owes an answer, and
-- is also what the tracker then holds; the module's entries for `u` are gone, whatever their stage,
-- and the entries of other modules and of other messages are as before.
pub ack_module_lem :
    (now : ℕ) (u m : String) (t : AckTracker) {a : Acked} {t' : AckTracker}
    → ack_module now u m t ≡ some (a, t')
    → AckedRight now u m t a t'
unfolding ack_module
ack_module_lem now u m t {a} {t'} h = go (lookup u t) refl
  where
    from_entry :
        (es : List PendingAck) (e : PendingAck)
        → lookup u t ≡ some es
        → find (of_module m) es ≡ some e
        → AckedRight now u m t a t'
    from_entry es e p q =
        subst (λ (r : Acked × AckTracker). AckedRight now u m t r.0 r.1) result right
      where
        result : drop_module now u m e es t ≡ (a, t')
        result = ground (arith, h, p, q)

        right : AckedRight now u m t (drop_module now u m e es t).0 (drop_module now u m e es t).1
        right = record {
          entry = e;
          found = rw p q;
          stage = (drop_module-stage now u m e es t).0;
          elapsed = (drop_module-stage now u m e es t).1;
          others = rw p ((drop_module-pending now u m e es t).0);
          snapshot = (drop_module-pending now u m e es t).1;
          cleared = drop_module-Cleared now u m e es t p;
          elsewhere = drop_module-SameElsewhere now u m e es t;
        }

    go : (o : Option (List PendingAck)) → lookup u t ≡ o → AckedRight now u m t a t'
    go none p = cc
    go (some es) p = elim (Option-cases (find (of_module m) es)) [
      | inl q ↦ absurd (ground (arith, p, q))
      | inr (e, q) ↦ from_entry es e p q
    ]

-- An ack is not answered exactly where the module has no entry for the message.
pub ack_module-eq-none_iff :
    (now : ℕ) (u m : String) (t : AckTracker)
    → (ack_module now u m t ≡ none) ↔ (any (of_module m) (entries_of u t) ≡ false)
unfolding ack_module any
ack_module-eq-none_iff now u m t = (
  λ h. ground (arith, any-find (of_module m) (entries_of u t)),
  λ h. ground (arith, find_of_any (of_module m) (entries_of u t)),
)

any-mark_first :
    (m m' stage : String) (es : List PendingAck)
    → any (λ e. e.module_name == m' && e.stage == stage) (mark_first m es)
      ≡ any (λ e. e.module_name == m' && e.stage == stage) es
unfolding any mark_first
any-mark_first m m' stage [] = refl
any-mark_first m m' stage (e ∷ es) = ground (arith, any-mark_first m m' stage es)

pub is_empty-mark_first :
    (m : String) (es : List PendingAck) → is_empty (mark_first m es) ≡ is_empty es
unfolding mark_first
is_empty-mark_first m [] = refl
is_empty-mark_first m (e ∷ es) = ground arith

-- A receipt confirms delivery only: it clears no entry.
pub is_pending_for-mark_receipt :
    (u m j m' stage : String) (t : AckTracker)
    → is_pending_for j m' stage (mark_receipt u m t) ≡ is_pending_for j m' stage t
unfolding is_pending_for mark_receipt
is_pending_for-mark_receipt u m j m' stage t = ground (
  arith,
  lookup-adjust u j (mark_first m) t,
  any-mark_first m m' stage (entries_of j t),
  eq_iff u j,
)

-- A resend is pending again, with a fresh clock and one more resend on the count.
pub re_track_lem :
    (now : ℕ) (e : PendingAck) (t : AckTracker)
    → (has_pending e.uuid7 (re_track now e t) ≡ true) × SameElsewhere e.uuid7 t (re_track now e t)
unfolding re_track
re_track_lem now e t = (
  has_pending-push e.uuid7 _ t,
  λ j h. lookup-push e.uuid7 j _ t ∙ ground (arith, eq_iff e.uuid7 j),
)
