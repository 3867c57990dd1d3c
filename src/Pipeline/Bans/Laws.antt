-- ===== src/Pipeline/Bans/Laws.antt =====
-- Properties of the block cache and the module bans of src/pipeline.rs.
use mathlib.Core.Path.{ap₂}
use cockatiel_engine_rs.Shared.Text.{trim}
use cockatiel_engine_rs.Shared.{
  String, ◌≡◌, refl, ◌∙◌, Bool, true, false, ◌&&◌, ◌||◌, not, eq_iff, List, [], ◌∷◌, arith,
  if◌then◌else◌, ◌==◌, any, contains, contains-keep, string_eq,
}
use cockatiel_engine_rs.Pipeline.Bans.{
  add_channels, mark_user_blocked, Set, blocked_alias_key, remove, add, Bans, add_channel,
  remove_channels, mark_user_unblocked, is_identifier_blocked,
}
use cockatiel_engine_rs.Wire.{ChannelRef}

contains-add : (x y : String) (s : Set) → contains (add x s) y ≡ ((x == y) || contains s y)
unfolding contains
contains-add x y s = ground (arith, eq_iff x y)

contains-remove :
    (x y : String) (s : Set) → contains (remove x s) y ≡ (contains s y && not (y == x))
contains-remove x y s = contains-keep (λ y. not (y == x)) s y

-- The two keys under which a channel is blocked, where they are not blank.
unfoldable pub is_alias_of : String → ChannelRef → Bool
unfolding blocked_alias_key trim
is_alias_of key ch =
    (not (trim ch.channel_id == "") && (blocked_alias_key ch.platform ch.channel_id == key))
    || (not (trim ch.handle == "") && (blocked_alias_key ch.platform ch.handle == key))

or_assoc : (a b c : Bool) → ((a || b) || c) ≡ (a || (b || c))
or_assoc a b c = ground arith

contains-add_unless :
    (blank : Bool) (x key : String) (s : Set)
    → contains (if blank then s else add x s) key ≡ (contains s key || (not blank && (x == key)))
contains-add_unless true x key s = ground arith
contains-add_unless false x key s = contains-add x key s ∙ ground arith

contains-add_channel :
    (ch : ChannelRef) (key : String) (s : Set)
    → contains (add_channel ch s) key ≡ (contains s key || is_alias_of key ch)
unfolding add_channel is_alias_of
contains-add_channel ch key s =
    contains-add_unless (trim ch.handle == "") (blocked_alias_key ch.platform ch.handle) key _
    ∙ rw
        (contains-add_unless (trim ch.channel_id == "")
          (blocked_alias_key ch.platform ch.channel_id) key s)
        (or_assoc (contains s key)
          (not (trim ch.channel_id == "") && (blocked_alias_key ch.platform ch.channel_id == key))
          (not (trim ch.handle == "") && (blocked_alias_key ch.platform ch.handle == key)))

contains-add_channels :
    (chs : List ChannelRef) (key : String) (s : Set)
    → contains (add_channels chs s) key ≡ (contains s key || any (is_alias_of key) chs)
unfolding add_channels any
contains-add_channels [] key s = ground arith
contains-add_channels (ch ∷ chs) key s =
    contains-add_channels chs key (add_channel ch s)
    ∙ rw (contains-add_channel ch key s)
        (or_assoc (contains s key) (is_alias_of key ch) (any (is_alias_of key) chs))

-- After a user is blocked, exactly these keys are in the block cache: those that were, the user's
-- identifier, and the two aliases of each of their channels that are not blank. A blank identifier
-- blocks nobody.
pub mark_user_blocked-contains :
    (uuid7 key : String) (channels : List ChannelRef) (b : Bans)
    → contains (mark_user_blocked uuid7 channels b).blocked_users key ≡ (
        contains b.blocked_users key
        || (not (trim uuid7 == "") && ((uuid7 == key) || any (is_alias_of key) channels)))
unfolding mark_user_blocked
mark_user_blocked-contains uuid7 key channels b = ground (
  arith,
  contains-add_channels channels key (add uuid7 b.blocked_users),
  contains-add uuid7 key b.blocked_users,
)

any-imp :
    {A : Type 0} (p q : A → Bool) (xs : List A)
    → ((x : A) → p x ≡ true → q x ≡ true)
    → any p xs ≡ true
    → any q xs ≡ true
unfolding any
any-imp p q [] f h = cc
any-imp p q (x ∷ xs) f h = ground (arith, f x, any-imp p q xs f)

beq_sym : (a b : String) → (a == b) ≡ (b == a)
beq_sym a b = ground (arith, eq_iff a b, eq_iff b a)

abbrev pub is_key_of : String → ChannelRef → Bool
is_key_of key ch =
    (key == blocked_alias_key ch.platform ch.channel_id)
    || (key == blocked_alias_key ch.platform ch.handle)

contains-remove_channels :
    (chs : List ChannelRef) (key : String) (s : Set)
    → contains (remove_channels chs s) key ≡ (contains s key && not (any (is_key_of key) chs))
unfolding remove_channels any
contains-remove_channels [] key s = ground arith
contains-remove_channels (ch ∷ chs) key s =
    contains-remove_channels chs key _
    ∙ rw
        (
          contains-remove (blocked_alias_key ch.platform ch.handle) key
              (remove (blocked_alias_key ch.platform ch.channel_id) s),
          contains-remove (blocked_alias_key ch.platform ch.channel_id) key s,
        )
        (ground arith)

-- A key that is an alias of a channel is one of the two that are taken out.
alias-own : (key : String) (ch : ChannelRef) → is_alias_of key ch ≡ true → is_key_of key ch ≡ true
unfolding is_alias_of
alias-own key ch h =
    rw
      (
        beq_sym key (blocked_alias_key ch.platform ch.channel_id),
        beq_sym key (blocked_alias_key ch.platform ch.handle),
      )
      (drop_guards (not (trim ch.channel_id == "")) (not (trim ch.handle == ""))
        (blocked_alias_key ch.platform ch.channel_id == key)
        (blocked_alias_key ch.platform ch.handle == key) h)
  where
    drop_guards : (a b x y : Bool) → ((a && x) || (b && y)) ≡ true → (x || y) ≡ true
    drop_guards a b x y h = ground arith

-- Blocking a user and unblocking the same user with the same channels leaves exactly the keys that were
-- blocked before and are none of the user's.
pub mark_user_unblocked-mark_user_blocked :
    (uuid7 key : String) (channels : List ChannelRef) (b : Bans)
    → contains
        (mark_user_unblocked uuid7 channels (mark_user_blocked uuid7 channels b)).blocked_users
        key
      ≡ (contains b.blocked_users key && not ((key == uuid7) || any (is_key_of key) channels))
unfolding mark_user_unblocked
mark_user_unblocked-mark_user_blocked uuid7 key channels b =
    contains-remove_channels channels key _
    ∙ rw
        (
          contains-remove uuid7 key (mark_user_blocked uuid7 channels b).blocked_users,
          mark_user_blocked-contains uuid7 key channels b,
        )
        (ground (
          arith,
          eq_iff key uuid7,
          eq_iff uuid7 key,
          any-imp (is_alias_of key) (is_key_of key) channels (alias-own key),
        ))

-- After a user with an identifier that is not blank is blocked, whoever comes under that identifier, on
-- any platform, or under a channel or handle of theirs on its platform, is found blocked; the text they
-- come under being without surrounding white space and not empty.
pub mark_user_blocked-is_identifier_blocked :
    (uuid7 platform id : String) (channels : List ChannelRef) (b : Bans)
    → (trim uuid7 == "") ≡ false
    → trim id ≡ id
    → (id == "") ≡ false
    → ((uuid7 == id) || any (is_alias_of (blocked_alias_key platform id)) channels) ≡ true
    → is_identifier_blocked platform id (mark_user_blocked uuid7 channels b) ≡ true
unfolding is_identifier_blocked
mark_user_blocked-is_identifier_blocked uuid7 platform id channels b named trimmed there theirs =
    rw (trimmed, there, either) refl
  where
    decide :
        (c n x y d z a : Bool)
        → n ≡ false
        → (x || a) ≡ true
        → ((c || (not n && (x || y))) || (d || (not n && (z || a)))) ≡ true
    decide c n x y d z a h k = ground arith

    blocked : Set
    blocked = (mark_user_blocked uuid7 channels b).blocked_users

    either : (contains blocked id || contains blocked (blocked_alias_key platform id)) ≡ true
    either =
        ap₂ ◌||◌ (mark_user_blocked-contains uuid7 id channels b)
          (mark_user_blocked-contains uuid7 (blocked_alias_key platform id) channels b)
        ∙ decide (contains b.blocked_users id) (trim uuid7 == "") (uuid7 == id)
            (any (is_alias_of id) channels)
            (contains b.blocked_users (blocked_alias_key platform id))
            (uuid7 == blocked_alias_key platform id)
            (any (is_alias_of (blocked_alias_key platform id)) channels) named theirs
