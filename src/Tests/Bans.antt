-- ===== src/Tests/Bans.antt =====
-- A blocked user is found under a handle of theirs: src/pipeline.rs.
use cockatiel_engine_rs.Shared.Text.{trim}
use cockatiel_engine_rs.Shared.{◌≡◌, refl, true, [], ◌∷◌, any}
use cockatiel_engine_rs.Pipeline.Bans.{blocked_alias_key, is_identifier_blocked, mark_user_blocked}
use cockatiel_engine_rs.Wire.{ChannelRef}
use cockatiel_engine_rs.Pipeline.Bans.Laws.{is_alias_of, mark_user_blocked-is_identifier_blocked}

abbrev bob_channel : ChannelRef
bob_channel = record { platform = "twitch"; channel_id = "42"; handle = "bob" }

mark_user_blocked-is_identifier_blocked_example :
    is_identifier_blocked "twitch" "bob"
      (mark_user_blocked "u9" (bob_channel ∷ []) (record { blocked_users = []; module_bans = [] }))
    ≡ true
unfolding trim any is_alias_of blocked_alias_key
mark_user_blocked-is_identifier_blocked_example =
    mark_user_blocked-is_identifier_blocked "u9" "twitch" "bob" (bob_channel ∷ [])
      (record { blocked_users = []; module_bans = [] }) refl refl refl refl
