-- ===== src/Tests/Shutdown.antt =====
-- The shutdown of src/queries.rs at a connection with an empty channel and at one with a waiting frame.
use cockatiel_engine_rs.Shared.{◌≡◌, refl, true, false, [], ◌∷◌}
use cockatiel_engine_rs.Queries.Shutdown.{
  System, new_system, take_query, push_frame, put, here, then_step, takes, requested, answered,
  write_frame,
}
use cockatiel_engine_rs.Queries.Shutdown.Asked.{IsUnasked, Run-IsUnasked}
use cockatiel_engine_rs.Queries.Shutdown.Release.{armed, arm-empty_channel, arm-busy_channel}

Run-IsUnasked_example : IsUnasked (take_query 0 new_system)
unfolding take_query
Run-IsUnasked_example =
    Run-IsUnasked (take_query 0 new_system) (then_step (here new_system) (takes 0 new_system refl))
      refl

arm-empty_channel_example :
    ((armed 0 new_system).stage ≡ requested)
    × (((armed 0 new_system).socket 0).outbound ≡ true ∷ [])
    × ((write_frame 0 true [] (armed 0 new_system)).stage ≡ answered)
    × (((write_frame 0 true [] (armed 0 new_system)).socket 0).written ≡ true ∷ [])
arm-empty_channel_example = arm-empty_channel 0 new_system refl refl

abbrev one_waiting : System
one_waiting = push_frame 0 new_system

arm-busy_channel_example :
    (((armed 0 one_waiting).socket 0).outbound ≡ false ∷ true ∷ [])
    × ((write_frame 0 false (true ∷ []) (armed 0 one_waiting)).stage ≡ answered)
    × (((write_frame 0 false (true ∷ []) (armed 0 one_waiting)).socket 0).outbound ≡ true ∷ [])
    × (((write_frame 0 false (true ∷ []) (armed 0 one_waiting)).socket 0).written ≡ false ∷ [])
unfolding push_frame put
arm-busy_channel_example = arm-busy_channel 0 one_waiting false [] refl refl
