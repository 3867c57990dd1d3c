-- ===== src/Shared/Json.antt =====
-- A value of the crate `serde_json`, and its accessors as the crate documents them: what the code sees of JSON.
use cockatiel_engine_rs.Shared.Tests.{ltb, if◌then◌else◌}
use cockatiel_engine_rs.Shared.Maps.{Map}
use cockatiel_engine_rs.Shared.Int.{ℤ, pos, negsuc}
use Prim.Native.Nat.{ℕ, ◌^◌}
use Prim.Native.String.{String}
use mathlib.Core.Bool.{Bool}
use mathlib.Core.Option.{Option, none, some}

-- A JSON value, as far as the code looks into one: an array, an object or a fraction is `compound`.
pub data Value : Type 0 where
  null compound : Value
  flag : Bool → Value
  number : ℤ → Value
  text : String → Value

-- A JSON object. A value that is no object has no keys, as `Value::get` answers.
abbrev pub Object : Type 0
Object = Map String Value

unfoldable pub fits_i64 : ℤ → Bool
fits_i64 (pos n) = ltb n (2 ^ 63)
fits_i64 (negsuc n) = ltb n (2 ^ 63)

unfoldable pub as_str : Value → Option String
as_str (text t) = some t
as_str _ = none

unfoldable pub as_bool : Value → Option Bool
as_bool (flag b) = some b
as_bool _ = none

unfoldable pub as_i64 : Value → Option ℤ
unfolding fits_i64
as_i64 (number i) = if fits_i64 i then some i else none
as_i64 _ = none

unfoldable pub as_u64 : Value → Option ℕ
as_u64 (number (pos n)) = if ltb n (2 ^ 64) then some n else none
as_u64 _ = none
