-- ===== src/Tests/Drain.antt =====
-- The recovery drain, at the sample engine after a restart.
use cockatiel_engine_rs.Shared.{string_eq}
