-- ===== src/Timeline/Audit.antt =====
-- Holding a row of src/database.rs for audit, and releasing it.
use cockatiel_engine_rs.Timeline.Outcome
use cockatiel_engine_rs.Timeline.Outcome.{
  status, mark_audit, update_row, write_terminal_outcome, default_result, nothing_to_write,
}
use cockatiel_engine_rs.Shared.{
  ℕ, String, ◌≡◌, refl, ap, ◌∙◌, Bool, true, false, eq_iff, Option, none, some, arith,
  if◌then◌else◌, eq_refl, ◌==◌, is_some, map_or, lookup, lookup-adjust, string_eq,
}
use cockatiel_engine_rs.Timeline.{Table, release_audit, is_audited, Row, released_row}
use cockatiel_engine_rs.Timeline.Writes.{other-written}

abbrev pub status_of : String → Table → Option String
status_of u t = map_or (lookup u t) none (λ r. some r.pipeline_status)

module _ (now : ℕ) (u reason : String) (t : Table) where
  marked :
      (row : Row)
      → lookup u t ≡ some row
      → lookup u (mark_audit now u reason t)
        ≡ some (update_row now (Outcome.audit reason) default_result row)
  unfolding mark_audit write_terminal_outcome nothing_to_write status
  marked row h = ground (
    arith,
    lookup-adjust u u (λ row. update_row now (Outcome.audit reason) default_result row) t,
    eq_iff u u,
  )

  marked_status :
      (row : Row)
      → (update_row now (Outcome.audit reason) default_result row).pipeline_status ≡ "audit"
  unfolding update_row status
  marked_status row = refl

  marked_other : (j : String) → (u == j) ≡ false → lookup j (mark_audit now u reason t) ≡ lookup j t
  unfolding mark_audit
  marked_other j h = other-written now u j (Outcome.audit reason) default_result t h

  lookup-release_audit :
      (approve : Bool) (j : String) (t : Table)
      → lookup j (release_audit now u approve t) ≡ (
          if u == j
          then map_or (lookup j t) none (λ r. some (released_row now approve r))
          else lookup j t)
  unfolding release_audit
  lookup-release_audit approve j t = lookup-adjust u j (released_row now approve) t

  released_status :
      (approve : Bool) (row : Row)
      → row.pipeline_status ≡ "audit"
      → (released_row now approve row).pipeline_status ≡ (if approve then "complete" else "failed")
  unfolding released_row
  released_status true row h = rw h refl
  released_status false row h = rw h refl

  not_held :
      (approve : Bool) (row : Row)
      → (row.pipeline_status == "audit") ≡ false
      → released_row now approve row ≡ row
  unfolding released_row
  not_held approve row h = rw h refl

  -- A row that is there is held once it is marked for audit, whatever its status was. A release after
  -- that makes it `complete` when it is approved and `failed` when it is rejected. A release of a row that is not held
  -- changes nothing of it, and neither operation touches another row.
  pub release_audit-mark_audit :
      (approve : Bool) (j : String)
      → is_some (lookup u t) ≡ true
      → (is_audited u (mark_audit now u reason t) ≡ true)
        × (status_of u (release_audit now u approve (mark_audit now u reason t))
            ≡ some (if approve then "complete" else "failed"))
        × (is_audited u t ≡ false → lookup u (release_audit now u approve t) ≡ lookup u t)
        × ((u == j) ≡ false
            → lookup j (release_audit now u approve (mark_audit now u reason t)) ≡ lookup j t)
  unfolding is_audited
  release_audit-mark_audit approve j there = by_row (lookup u t) refl
    where
      held : Row → Row
      held = update_row now (Outcome.audit reason) default_result

      by_row :
          (o : Option Row)
          → lookup u t ≡ o
          → (is_audited u (mark_audit now u reason t) ≡ true)
            × (status_of u (release_audit now u approve (mark_audit now u reason t))
                ≡ some (if approve then "complete" else "failed"))
            × (is_audited u t ≡ false → lookup u (release_audit now u approve t) ≡ lookup u t)
            × ((u == j) ≡ false
                → lookup j (release_audit now u approve (mark_audit now u reason t)) ≡ lookup j t)
      by_row none h = absurd (ground (arith, h, there))
      by_row (some row) h = (
        rw (is_audited, marked row h, marked_status row) refl,
        rw (lookup-release_audit approve u (mark_audit now u reason t), eq_refl u, marked row h)
            (ap (λ s. some s) (released_status approve (held row) (marked_status row))),
        λ free.
            lookup-release_audit approve u t ∙ ground (arith, h, eq_iff u u, not_held approve row),
        λ other.
            lookup-release_audit approve j (mark_audit now u reason t)
            ∙ rw other (marked_other j other),
      )
