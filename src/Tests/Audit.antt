-- ===== src/Tests/Audit.antt =====
-- Holding and releasing the sample row.
use cockatiel_engine_rs.Shared.{String}

abbrev the_m2 : String
the_m2 = "m2"

abbrev the_m1 : String
the_m1 = "m1"
