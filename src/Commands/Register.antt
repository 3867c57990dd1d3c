-- ===== src/Commands/Register.antt =====
-- What a registration does to the index of commands: src/command_registry.rs.
use cockatiel_engine_rs.Shared.{
  String, ◌≡◌, refl, ap, ◌∙◌, Bool, false, not, eq_iff, Option, none, some, List, [], ◌∷◌, arith,
  if◌then◌else◌, ◌==◌, pair_beq, any, Map, lookup, insert, lookup-insert, Distinct, lookup-retain,
  retain-Distinct, insert-Distinct, string_eq, pair_eq,
}
use cockatiel_engine_rs.Wire.{Command, Commands}
use cockatiel_engine_rs.Commands.{CommandRegistry, Key, key_of, claim, register, owner}

abbrev pub claims : Key → List Command → Bool
claims k = any (λ c. pair_beq (key_of c) k)

lookup-claim :
    (m : String) (k : Key) (cs : List Command) (index : Map Key String)
    → lookup k (claim m cs index).1 ≡ (if claims k cs then some m else lookup k index)
unfolding claim any
lookup-claim m k [] index = refl
lookup-claim m k (c ∷ cs) index =
    ground
      (arith, lookup-claim m k cs (insert (key_of c) m index), lookup-insert (key_of c) k m index)

claim-Distinct :
    (m : String) (cs : List Command) (index : Map Key String)
    → Distinct index
    → Distinct (claim m cs index).1
unfolding claim
claim-Distinct m [] index d = d
claim-Distinct m (c ∷ cs) index d = claim-Distinct m cs _ (insert-Distinct (key_of c) m index d)

-- Who owned the command before, leaving out the module that registers anew.
abbrev pub other_owner : String → Option String → Option String
other_owner m none = none
other_owner m (some o) = if o == m then none else some o

pub other_owner-cases :
    (m o : String) (old : Option String)
    → other_owner m old ≡ some o
    → (old ≡ some o) × ((o == m) ≡ false)
other_owner-cases m o none h = absurd (ground arith)
other_owner-cases m o (some p) h = ground (arith, eq_iff p m, eq_iff o m)

-- In an index with each key once: after a registration a command belongs to the module if it is in the new list, and otherwise to
-- whoever else owned it: nothing of the module's old list is left.
pub owner-register :
    (m flag name : String) (commands : Commands) (r : CommandRegistry)
    → Distinct r.index
    → owner flag name (register m commands r).1 ≡ (
        if claims (flag, name) commands.commands then some m else other_owner m (owner flag name r))
unfolding owner register
owner-register m flag name commands r d =
    lookup-claim m (flag, name) commands.commands _
    ∙ ap (λ o. if claims (flag, name) commands.commands then some m else o)
        (lookup-retain _ (flag, name) r.index d ∙ same (lookup (flag, name) r.index))
  where
    same :
        (o : Option String)
        → elim o [ none ↦ none | some v ↦ if not (v == m) then some v else none ] ≡ other_owner m o
    same none = refl
    same (some o) = ground arith

pub register-Distinct :
    (m : String) (commands : Commands) (r : CommandRegistry)
    → Distinct r.index
    → Distinct (register m commands r).1.index
unfolding register
register-Distinct m commands r d =
    claim-Distinct m commands.commands _ (retain-Distinct _ r.index d)
