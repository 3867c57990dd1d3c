-- ===== src/Pipeline/Ack.antt =====
-- `PendingAck` and `AckTracker` of src/pipeline.rs: which modules still owe an answer for which
-- message. Instants and durations are numbers of nanoseconds, and the clock is an argument.
pub mod Laws
pub mod Timeouts
use cockatiel_engine_rs.Shared.{
  ℕ, ◌+◌, ◌-◌, ◌*◌, String, Bool, true, false, ◌&&◌, not, Option, none, some, List, [], ◌∷◌, ◌++◌,
  map, ltb, if◌then◌else◌, ◌==◌, is_empty, any, keep, find, Map, or_default, map_or, lookup, insert,
  erase, adjust, string_eq,
}

pub record PendingAck : Type 0 where
  pub uuid7 : String
  pub stage : String
  pub module_name : String
  pub sent_at : ℕ
  pub timeout : ℕ
  pub receipt_received : Bool
  pub resend_count : ℕ

abbrev pub AckTracker : Type 0
AckTracker = Map String (List PendingAck)

abbrev pub from_millis : ℕ → ℕ
from_millis ms = ms * 1000000

abbrev pub entries_of : String → AckTracker → List PendingAck
entries_of uuid7 t = or_default (lookup uuid7 t) []

-- `pending.entry(uuid7).or_default().push(entry)`.
abbrev pub push : String → PendingAck → AckTracker → AckTracker
push uuid7 entry t = insert uuid7 (entries_of uuid7 t ++ entry ∷ []) t

abbrev pub sent : ℕ → String → String → String → ℕ → PendingAck
sent now uuid7 stage module_name timeout_ms = record {
  uuid7 = uuid7;
  stage = stage;
  module_name = module_name;
  sent_at = now;
  timeout = from_millis timeout_ms;
  receipt_received = false;
  resend_count = 0;
}

unfoldable pub track : ℕ → String → String → String → ℕ → AckTracker → AckTracker
track now uuid7 stage module_name timeout_ms =
    push uuid7 (sent now uuid7 stage module_name timeout_ms)

unfoldable pub mark_first : String → List PendingAck → List PendingAck
mark_first module_name [] = []
mark_first module_name (e ∷ es) =
    let rest = mark_first module_name es in
    if e.module_name == module_name then record e { receipt_received = true } ∷ es else e ∷ rest

unfoldable pub mark_receipt : String → String → AckTracker → AckTracker
unfolding mark_first
mark_receipt uuid7 module_name = adjust uuid7 (mark_first module_name)

unfoldable pub re_track : ℕ → PendingAck → AckTracker → AckTracker
re_track now entry = push entry.uuid7 (record entry {
  sent_at = now;
  receipt_received = false;
  resend_count = entry.resend_count + 1;
})

unfoldable pub ack : String → AckTracker → List PendingAck × AckTracker
ack uuid7 t = (entries_of uuid7 t, erase uuid7 t)

abbrev pub of_module : String → PendingAck → Bool
of_module module_name e = e.module_name == module_name

-- What an ack answers: the stage, the time since the send, and whether anything is still pending.
pub record Acked : Type 0 where
  pub stage : String
  pub elapsed : ℕ
  pub still_pending : Bool

-- `entries.retain(...)`, and the removal of the message when nothing is left.
unfoldable pub drop_module :
    ℕ → String → String → PendingAck → List PendingAck → AckTracker → Acked × AckTracker
drop_module now uuid7 module_name entry entries t =
    let left = keep (λ e. not (of_module module_name e)) entries in
    if is_empty left
    then (
      record { stage = entry.stage; elapsed = now - entry.sent_at; still_pending = false },
      erase uuid7 t,
    )
    else (
      record { stage = entry.stage; elapsed = now - entry.sent_at; still_pending = true },
      insert uuid7 left t,
    )

unfoldable pub ack_module : ℕ → String → String → AckTracker → Option (Acked × AckTracker)
unfolding drop_module
ack_module now uuid7 module_name t = elim (lookup uuid7 t) [
  | none ↦ none
  | some entries ↦ elim (find (of_module module_name) entries) [
    | none ↦ none
    | some entry ↦ some (drop_module now uuid7 module_name entry entries t)
  ]
]

abbrev pub is_expired : ℕ → PendingAck → Bool
is_expired now e = ltb e.timeout (now - e.sent_at)

-- One pass over the messages: what expired, each with "is anything left", and what is left.
unfoldable pub check_timeouts : ℕ → AckTracker → List (PendingAck × Bool) × AckTracker
check_timeouts now [] = ([], [])
check_timeouts now ((uuid7, entries) ∷ t) =
    let (expired, left) = check_timeouts now t in
    let still = keep (λ e. not (is_expired now e)) entries in
    (
      map (λ e. (e, not (is_empty still))) (keep (is_expired now) entries) ++ expired,
      if is_empty still then left else (uuid7, still) ∷ left,
    )

unfoldable pub has_pending : String → AckTracker → Bool
has_pending uuid7 t = map_or (lookup uuid7 t) false (λ es. not (is_empty es))

unfoldable pub is_pending_for : String → String → String → AckTracker → Bool
is_pending_for uuid7 module_name stage t =
    map_or (lookup uuid7 t) false (any (λ e. e.module_name == module_name && e.stage == stage))

abbrev pub restart : ℕ → PendingAck → PendingAck
restart now e = record e { sent_at = now }

unfoldable pub restart_clocks : ℕ → AckTracker → AckTracker
restart_clocks now = map (λ p. (p.0, map (restart now) p.1))
