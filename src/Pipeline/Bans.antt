-- ===== src/Pipeline/Bans.antt =====
-- The block cache and the module-ban caches of src/pipeline.rs: who is dropped before the pipeline
-- starts. Hash sets are lists of texts.
pub mod Laws
use Prim.Native.String.{◌++◌ as append}
use cockatiel_engine_rs.Shared.{
  String, Bool, true, false, ◌||◌, not, List, [], ◌∷◌, if◌then◌else◌, ◌==◌, is_empty, any, keep,
  contains, Map, insert, erase, string_eq,
}
use cockatiel_engine_rs.Shared.Text.{trim}
use cockatiel_engine_rs.Wire.{ChannelRef}

abbrev pub Set : Type 0
Set = List String

abbrev pub add : String → Set → Set
add x s = if contains s x then s else x ∷ s

abbrev pub remove : String → Set → Set
remove x = keep (λ y. not (y == x))

-- The two caches: the globally blocked identities, and those that each module bans.
pub record Bans : Type 0 where
  pub blocked_users : Set
  pub module_bans : Map String Set

unfoldable pub blocked_alias_key : String → String → String
blocked_alias_key platform identifier = append platform (append "\0" identifier)

unfoldable pub any_set : String → String → Map String Set → Bool
any_set id alias [] = false
any_set id alias ((m, s) ∷ ms) = contains s id || contains s alias || any_set id alias ms

unfoldable pub is_module_banned : String → String → Bans → Bool
unfolding trim any_set blocked_alias_key
is_module_banned platform identifier b =
    let id = trim identifier in
    if id == "" then false else any_set id (blocked_alias_key platform id) b.module_bans

unfoldable pub is_identifier_blocked : String → String → Bans → Bool
unfolding trim blocked_alias_key is_module_banned
is_identifier_blocked platform identifier b =
    let id = trim identifier in
    if id == ""
    then false
    else if contains b.blocked_users id || contains b.blocked_users (blocked_alias_key platform id)
    then true
    else is_module_banned platform id b

unfoldable pub add_channel : ChannelRef → Set → Set
unfolding trim blocked_alias_key
add_channel ch s =
    let s1 =
      if trim ch.channel_id == "" then s else add (blocked_alias_key ch.platform ch.channel_id) s in
    if trim ch.handle == "" then s1 else add (blocked_alias_key ch.platform ch.handle) s1

unfoldable pub add_channels : List ChannelRef → Set → Set
unfolding add_channel
add_channels [] s = s
add_channels (ch ∷ chs) s = add_channels chs (add_channel ch s)

unfoldable pub mark_user_blocked : String → List ChannelRef → Bans → Bans
unfolding trim add_channels
mark_user_blocked uuid7 channels b =
    if trim uuid7 == ""
    then b
    else record b { blocked_users = add_channels channels (add uuid7 b.blocked_users) }

unfoldable pub remove_channels : List ChannelRef → Set → Set
unfolding blocked_alias_key
remove_channels [] s = s
remove_channels (ch ∷ chs) s = remove_channels chs (
    remove (blocked_alias_key ch.platform ch.handle)
      (remove (blocked_alias_key ch.platform ch.channel_id) s))

unfoldable pub mark_user_unblocked : String → List ChannelRef → Bans → Bans
unfolding remove_channels
mark_user_unblocked uuid7 channels b = record b {
  blocked_users = remove_channels channels (remove uuid7 b.blocked_users);
}

unfoldable pub replace_blocked_users : Set → Bans → Bans
replace_blocked_users entries b = record b { blocked_users = entries }

unfoldable pub replace_module_bans : String → Set → Bans → Bans
replace_module_bans m keys b = record b {
  module_bans = if is_empty keys then erase m b.module_bans else insert m keys b.module_bans;
}

unfoldable pub has_module_ban_for : String → List ChannelRef → Bans → Bool
unfolding is_module_banned
has_module_ban_for uuid7 channels b =
    if is_module_banned "" uuid7 b
    then true
    else any
        (λ ch.
          is_module_banned ch.platform ch.channel_id b || is_module_banned ch.platform ch.handle b)
        channels
