-- ===== src/Tests/Rules.antt =====
-- The theorems about the pause, the gates, the bans, the streams, the queue and the timings.
use cockatiel_engine_rs.Pipeline.Gate
use cockatiel_engine_rs.Pipeline.Pause
use cockatiel_engine_rs.Pipeline.Pause.Order.{TakenInOrder, hold_each, take_held-hold_each}
use cockatiel_engine_rs.Pipeline.Pause.{
  HoldPoint, is_gated, user_db, timeline_db, PauseState, BlockedReason, default_pause,
}
use cockatiel_engine_rs.Shared.{
  ◌<◌, String, ◌≡◌, refl, ◌↔◌, true, false, ◌||◌, not, none, some, List, [], ◌∷◌, arith, or_default,
  lookup, string_eq,
}
use cockatiel_engine_rs.Wire.{ChannelRef}
use cockatiel_engine_rs.Stream.{StreamTracker, new_tracker}
use cockatiel_engine_rs.Stream.Streaks.{CacheAgrees}
use cockatiel_engine_rs.Pipeline.Gate.{is_open, User, ModuleGate, permit}
use cockatiel_engine_rs.Timeline.{Table, insert_event}
use cockatiel_engine_rs.Pipeline.Bans.{Bans}
use cockatiel_engine_rs.Pipeline.Sweep.{resend_payload}
use cockatiel_engine_rs.Tests.Samples.{sample_state}
use cockatiel_engine_rs.Shared.Int.{ℤ, pos}
use cockatiel_engine_rs.Pipeline.Gate.Laws.{MeetsGate, permit_lem}
use cockatiel_engine_rs.Pipeline.Dispatch.{pre_payload, in_payload, post_payload, forwarded_audio}
use cockatiel_engine_rs.Pipeline.Progress.Replies.{known_stage}
use cockatiel_engine_rs.Pipeline.Sweep.Resend.{resend_payload_lem}

abbrev the_m1 : String
the_m1 = "m1"

abbrev the_u9 : String
the_u9 = "u9"

abbrev paused : PauseState
paused = record default_pause { paused = true }

abbrev raised : List BlockedReason
raised = user_db ∷ timeline_db ∷ user_db ∷ []

-- A message that is newer, one that is older, and the newer one again at a later point.
abbrev attempts : List (String × HoldPoint)
attempts = ("u9", Pause.entry) ∷ ("m1", Pause.in_process) ∷ ("u9", Pause.post_process) ∷ []

take_held-hold_each_example : TakenInOrder attempts paused (hold_each attempts paused)
unfolding is_gated
take_held-hold_each_example = take_held-hold_each attempts paused refl tt

abbrev blocked : PauseState
blocked = record default_pause { blocked = some user_db; resume_when_unblocked = true }

abbrev priced_gate : ModuleGate
priced_gate = record { authority = 1; min_rank = pos 0; price = 5 }

abbrev moderator : User
moderator = record { is_owner = false; is_admin = false; is_moderator = true; rank = pos 0 }

permit_lem_example :
    ((false || not true) ≡ true
      → permit (some priced_gate) false true (Gate.found moderator) (λ _. true) ≡ (true, none))
    × (permit (some priced_gate) false true Gate.db_error (λ _. true) ≡ (true, none))
    × (permit (some priced_gate) false true Gate.unknown (λ _. true) ≡ (false, none))
    × (((permit (some priced_gate) false true (Gate.found moderator) (λ _. true)).0 ≡ true)
        ↔ (MeetsGate priced_gate moderator × (0 < 5 → true ≡ true)))
    × ((amount : ℤ)
        → ((permit (some priced_gate) false true (Gate.found moderator) (λ _. true)).1
            ≡ some amount)
          ↔ (MeetsGate priced_gate moderator × (0 < 5) × (amount ≡ pos 5)))
unfolding is_open
permit_lem_example =
    permit_lem priced_gate moderator false true (Gate.found moderator) (λ _. true) refl
      (omega arith)

abbrev twitch_channel : ChannelRef
twitch_channel = record { platform = "twitch"; channel_id = "42"; handle = "bob" }

abbrev no_bans : Bans
no_bans = record { blocked_users = []; module_bans = [] }

abbrev on_air : StreamTracker
on_air = record new_tracker {
  current_stream_uuid = some "s2";
  previous_stream_uuid = some "s1";
  attendance = ("u1", (10, 20)) ∷ [];
  streaks = ("u1", ("s1", 3)) ∷ [];
}

on_air-CacheAgrees : CacheAgrees on_air
unfolding lookup
on_air-CacheAgrees user c h = cc

abbrev inserted : Table
inserted = or_default (insert_event "m1" 1 "twitch" [] "hello" "" "{}" []) []

resend_payload_lem_example :
    (resend_payload "m1" "pre_process" sample_state ≡ some (pre_payload "m1" sample_state))
    × (resend_payload "m1" "in_process" sample_state ≡ some (in_payload "m1" sample_state))
    × ((resend_payload "m1" "post_process" sample_state ≡ some (post_payload "m1" sample_state))
        ↔ (forwarded_audio sample_state ≡ ([], "")))
    × (known_stage "queued" ≡ false → resend_payload "m1" "queued" sample_state ≡ none)
resend_payload_lem_example = resend_payload_lem "m1" "queued" sample_state
