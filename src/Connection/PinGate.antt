-- ===== src/Connection/PinGate.antt =====
-- `PinGate` of src/main.rs: the counter of wrong PINs by peer address and module name. Times are
-- milliseconds since the epoch; an address is its text.
pub mod Budget
use cockatiel_engine_rs.Shared.{
  ℕ, ◌+◌, String, Bool, true, ltb, leb, if◌then◌else◌, length, Map, or_default, map_or, lookup,
  insert, erase, retain, string_eq, pair_eq,
}

abbrev pub Identity : Type 0
Identity = String × String

pub record PinAttempt : Type 0 where
  pub failures : ℕ
  pub locked_until_ms : ℕ

abbrev pub PinGate : Type 0
PinGate = Map Identity PinAttempt

abbrev pub no_attempt : PinAttempt
no_attempt = record { failures = 0; locked_until_ms = 0 }

abbrev pub max_tracked : ℕ
max_tracked = 4096

abbrev pub lock_ms : ℕ
lock_ms = 60000

unfoldable pub saturating_add : ℕ → ℕ → ℕ
saturating_add a b = if ltb (a + b) 0x100000000 then a + b else 0xFFFFFFFF

unfoldable pub check : ℕ → Identity → PinGate → Bool
check now k g = map_or (lookup k g) true (λ a. leb a.locked_until_ms now)

unfoldable pub make_room : ℕ → PinGate → PinGate
make_room now g =
    if leb max_tracked (length g) then retain (λ _ a. ltb now a.locked_until_ms) g else g

unfoldable pub one_more : ℕ → PinAttempt → PinAttempt
unfolding saturating_add
one_more now a =
    let failures = saturating_add a.failures 1 in
    record {
      failures = failures;
      locked_until_ms = if leb 5 failures then now + lock_ms else a.locked_until_ms;
    }

unfoldable pub record_failure : ℕ → Identity → PinGate → PinGate
unfolding make_room one_more
record_failure now k g =
    let inner = make_room now g in
    insert k (one_more now (or_default (lookup k inner) no_attempt)) inner

unfoldable pub record_success : Identity → PinGate → PinGate
record_success k g = erase k g
