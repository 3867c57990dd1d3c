-- ===== src/Connection/Placement/Disk.antt =====
-- The configuration in memory and in the file: src/config.rs.
use cockatiel_engine_rs.Shared.{String, ◌≡◌, refl, true, Option, none, some, arith, map_or}
use cockatiel_engine_rs.Connection.Files.{read_file, Json, IsFaithful}
use cockatiel_engine_rs.Connection.Placement.{
  update_config, get_config, reread, refresh_config, Config, ConfigState,
}

-- An update is made on top of what is in the file, not of what the engine remembers: what the operator's
-- tools wrote meanwhile is kept. Where the file can be written, it then holds the updated settings, and they are what
-- `get_config` answers, also after a `refresh_config`.
pub update_config_lem :
    (j : Json Config) (faithful : IsFaithful j) (update : Config → Config) (s : ConfigState)
    (c : Config)
    → read_file j s.config_json ≡ some c
    → (read_file j (update_config j true update s).config_json ≡ some (update c))
      × ((get_config j (update_config j true update s)).0 ≡ update c)
      × ((get_config j (refresh_config j (update_config j true update s))).0 ≡ update c)
unfolding read_file update_config get_config reread refresh_config
update_config_lem j faithful update s c on_disk =
    by_text (j.to_text (update c)) refl (faithful (update c))
  where
    by_text :
        (o : Option String)
        → j.to_text (update c) ≡ o
        → map_or (j.to_text (update c)) none j.from_text ≡ some (update c)
        → (read_file j (update_config j true update s).config_json ≡ some (update c))
          × ((get_config j (update_config j true update s)).0 ≡ update c)
          × ((get_config j (refresh_config j (update_config j true update s))).0 ≡ update c)
    by_text none e h = absurd (ground (arith, e, h))
    by_text (some t) e h = (
      ground (arith, e, h, on_disk),
      ground (arith, e, h, on_disk),
      ground (arith, e, h, on_disk),
    )
