-- ===== src/Timeline/Queue.antt =====
-- The timeline of src/database.rs as the queue that a crash leaves: what was inserted comes back, and
-- what has ended does not.
use cockatiel_engine_rs.Timeline.Outcome.{status, write_terminal_outcome, update_row}
use cockatiel_engine_rs.Shared.{
  ℕ, String, ◌≡◌, refl, sym, ◌∙◌, inl, inr, true, false, eq_iff, none, some, [], ◌∷◌, arith,
  Bool-cases, Option-cases, keep, contains, Once, contains-sort, sort-Once, is_some, or_default,
  lookup, adjust, lookup-insert, lookup-adjust, Distinct, string_eq,
}
use cockatiel_engine_rs.Wire.{Bytes}
use cockatiel_engine_rs.Timeline.{
  get_queued_uuids, queued_keys, Table, load_queued_message, Row, insert_event, set_user_uuid,
  is_audited, loaded_row, queued_row,
}
use cockatiel_engine_rs.Timeline.Outcome.{PipelineOutcome, PipelineResult}
use cockatiel_engine_rs.Timeline.Writes.{status-written, status-update_row, status-not_queued}

-- In a table with each key once, the rows that are queued are loaded.
queued_loads :
    (u : String) (t : Table)
    → Distinct t
    → contains (queued_keys t) u ≡ true
    → is_some (load_queued_message u t) ≡ true
unfolding queued_keys load_queued_message loaded_row lookup contains keep
queued_loads u [] d h = absurd (ground (arith, h))
queued_loads u ((k, r) ∷ t) d h = ground (arith, d.0, eq_iff k u, queued_loads u t d.1)

absent_unqueued :
    (u : String) (t : Table) → Distinct t → lookup u t ≡ none → contains (queued_keys t) u ≡ false
unfolding load_queued_message
absent_unqueued u t d h = elim (Bool-cases (contains (queued_keys t) u)) [
  | inl q ↦ absurd (ground (arith, h, queued_loads u t d q))
  | inr q ↦ q
]

queued_keys-Once : (t : Table) → Distinct t → Once (queued_keys t)
unfolding queued_keys keep
queued_keys-Once [] d = tt
queued_keys-Once ((k, r) ∷ t) d =
    ground (arith, absent_unqueued k t d.1 d.0, queued_keys-Once t d.1)

pub get_queued_uuids-Once : (t : Table) → Distinct t → Once (get_queued_uuids t)
unfolding get_queued_uuids
get_queued_uuids-Once t d = sort-Once (queued_keys t) (queued_keys-Once t d)

pub named_loads :
    (u : String) (t : Table)
    → Distinct t
    → contains (get_queued_uuids t) u ≡ true
    → is_some (load_queued_message u t) ≡ true
unfolding get_queued_uuids
named_loads u t d h = queued_loads u t d (sym (contains-sort u (queued_keys t)) ∙ h)

module _ (u : String) (event_type : ℕ) (platform : String) (raw_data : Bytes)
    (raw_message command flags user : String) (t t' : Table) where
  abbrev inserted_row : Row
  inserted_row = queued_row event_type platform raw_data raw_message command flags

  lookup-insert_event :
      insert_event u event_type platform raw_data raw_message command flags t ≡ some t'
      → lookup u t' ≡ some inserted_row
  unfolding insert_event
  lookup-insert_event h = ground (arith, lookup-insert u u inserted_row t, eq_iff u u)

  -- A row that was inserted, and given its user, is loaded again with all that the queue keeps of it; and
  -- once any outcome that sets a status is written, the row is not loaded again.
  pub load_queued_message-insert_event :
      (now : ℕ) (o : PipelineOutcome) (r : PipelineResult)
      → insert_event u event_type platform raw_data raw_message command flags t ≡ some t'
      → is_some (status o) ≡ true
      → (load_queued_message u (set_user_uuid u user t')
          ≡ some (record {
            event_type = event_type;
            platform = platform;
            raw_message = raw_message;
            command = command;
            flags = flags;
            user_uuid7 = user;
          }))
        × (load_queued_message u (write_terminal_outcome now u o r (set_user_uuid u user t'))
            ≡ none)
  unfolding load_queued_message set_user_uuid is_audited
  load_queued_message-insert_event now o r h st = (
    rw set_found refl,
    elim (Option-cases (status o)) [
      | inl k ↦ absurd (ground (arith, k))
      | inr (s, k) ↦ rw (written s k) (not_loaded s k)
    ],
  )
    where
      given : Row
      given = record inserted_row { user_uuid7 = some user }

      set_found :
          lookup u
            (adjust u (λ r. record r { user_uuid7 = some (or_default r.user_uuid7 user) }) t')
          ≡ some given
      set_found =
          lookup-adjust u u (λ r. record r { user_uuid7 = some (or_default r.user_uuid7 user) }) t'
          ∙ rw (lookup-insert_event h) (ground (arith, eq_iff u u))

      queued : is_audited u (set_user_uuid u user t') ≡ false
      queued = rw (set_found, is_audited) refl

      written :
          (s : String)
          → status o ≡ some s
          → lookup u (write_terminal_outcome now u o r (set_user_uuid u user t'))
            ≡ some (update_row now o r given)
      written s k = status-written now u o r (set_user_uuid u user t') given s k set_found queued

      not_loaded : (s : String) → status o ≡ some s → loaded_row (update_row now o r given) ≡ none
      not_loaded s k = rw (status-update_row now o r given s k, status-not_queued o s k) refl
