-- ===== src/Pipeline/Frame.antt =====
-- That a step of src/pipeline.rs for one message leaves all other messages alone: what is compared, and
-- how it composes along a run.
pub mod Steps
pub mod Dispatch
pub mod Messages
pub mod Ingest
use cockatiel_engine_rs.Shared.{
  String, ◌≡◌, refl, ◌∙◌, Bool, true, false, Option, none, some, if◌then◌else◌, ◌==◌, map_or,
  lookup, string_eq,
}
use cockatiel_engine_rs.Pipeline.State.{ok, err, M, Engine, Result, and_then}

-- The row of `j`, its state, what modules owe it, and where it is held.
abbrev pub Same : String → Engine → Engine → Type 0
Same j e e' =
    (lookup j e'.rows ≡ lookup j e.rows)
    × (lookup j e'.pipeline_states ≡ lookup j e.pipeline_states)
    × (lookup j e'.ack_tracker ≡ lookup j e.ack_tracker)
    × (lookup j e'.pause_state.held ≡ lookup j e.pause_state.held)

-- Every message but `u` is as it was.
abbrev pub Elsewhere : String → Engine → Engine → Type 0
Elsewhere u e e' = (j : String) → (u == j) ≡ false → Same j e e'

pub Elsewhere-refl : (u : String) (e : Engine) → Elsewhere u e e
Elsewhere-refl u e j h = (refl, refl, refl, refl)

pub Elsewhere-trans :
    (u : String) (e e1 e2 : Engine) → Elsewhere u e e1 → Elsewhere u e1 e2 → Elsewhere u e e2
Elsewhere-trans u e e1 e2 a b j h =
    let p = a j h in let q = b j h in (q.0 ∙ p.0, q.1 ∙ p.1, q.2 ∙ p.2, q.3 ∙ p.3)

-- The engine with which a run ends, well or not, is so.
abbrev pub Leaves : {A : Type 0} → String → Engine → Result A × Engine → Type 0
Leaves u e (ok a, e') = Elsewhere u e e'
Leaves u e (err x, e') = Elsewhere u e e'

abbrev pub Local : {A : Type 0} → String → M A → Type 0
Local u m = (e : Engine) → Leaves u e (m e)

pub Leaves-Elsewhere :
    {A : Type 0} (u : String) (e : Engine) (r : Result A × Engine)
    → Leaves u e r
    → Elsewhere u e r.1
Leaves-Elsewhere u e (ok a, e') h = h
Leaves-Elsewhere u e (err x, e') h = h

Leaves-trans :
    {A : Type 0} (u : String) (e e1 : Engine) (r : Result A × Engine)
    → Elsewhere u e e1
    → Leaves u e1 r
    → Leaves u e r
Leaves-trans u e e1 (ok a, e2) h k = Elsewhere-trans u e e1 e2 h k
Leaves-trans u e e1 (err x, e2) h k = Elsewhere-trans u e e1 e2 h k

pub and_then-Local :
    {A B : Type 0} (u : String) (e : Engine) (r : Result A × Engine) (f : A → M B)
    → Leaves u e r
    → ((a : A) → Local u (f a))
    → Leaves u e (and_then r f)
and_then-Local u e (ok a, e1) f h k = Leaves-trans u e e1 (f a e1) h (k a e1)
and_then-Local u e (err x, e1) f h k = h

-- A step that is no more than a change of the engine, and then a run from there.
pub after-Local :
    {A : Type 0} (u : String) (e e1 : Engine) (m : M A)
    → Elsewhere u e e1
    → Local u m
    → Leaves u e (m e1)
after-Local u e e1 m h k = Leaves-trans u e e1 (m e1) h (k e1)

pub if-Local :
    {A : Type 0} (u : String) (b : Bool) (m n : M A)
    → Local u m
    → Local u n
    → Local u (if b then m else n)
if-Local u true m n h k = h
if-Local u false m n h k = k

pub map_or-Local :
    {A B : Type 0} (u : String) (o : Option A) (m : M B) (f : A → M B)
    → Local u m
    → ((a : A) → Local u (f a))
    → Local u (map_or o m f)
map_or-Local u none m f h k = h
map_or-Local u (some a) m f h k = k a
