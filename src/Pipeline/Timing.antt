-- ===== src/Pipeline/Timing.antt =====
-- `ModuleTiming` and `ModuleTimings` of src/pipeline.rs: the rolling latency of each module.
-- A sample is the exact time in nanoseconds, and the average is kept as the sum and the number of
-- the samples; the code holds both as `f32` milliseconds.
use cockatiel_engine_rs.Shared.{
  ℕ, ◌+◌, ◌-◌, ◌≤◌, String, ◌≡◌, Option, none, some, List, [], ◌∷◌, ◌++◌, arith, ltb, if◌then◌else◌,
  length, length-append, drop, length-drop, Map, or_default, lookup, insert, string_eq,
}

pub record ModuleTiming : Type 0 where
  pub samples : List ℕ
  pub avg_sum : ℕ
  pub avg_count : ℕ

abbrev pub window : ℕ
window = 8

abbrev pub default_timing : ModuleTiming
default_timing = record { samples = []; avg_sum = 0; avg_count = 0 }

unfoldable pub sum : List ℕ → ℕ
sum [] = 0
sum (x ∷ xs) = x + sum xs

unfoldable pub record_sample : ℕ → ModuleTiming → ModuleTiming
unfolding sum
record_sample elapsed t =
    let pushed = t.samples ++ elapsed ∷ [] in
    let kept : List ℕ =
      if ltb window (length pushed) then drop (length pushed - window) pushed else pushed in
    record { samples = kept; avg_sum = sum kept; avg_count = length kept }

abbrev pub ModuleTimings : Type 0
ModuleTimings = Map String ModuleTiming

-- `by_module.entry(name).or_default().record(elapsed)`.
unfoldable pub record_timing : String → ℕ → ModuleTimings → ModuleTimings
unfolding record_sample
record_timing m elapsed ts =
    insert m (record_sample elapsed (or_default (lookup m ts) default_timing)) ts

unfoldable pub avg_of : String → ModuleTimings → Option (ℕ × ℕ)
avg_of m ts = elim (lookup m ts) [ none ↦ none | some t ↦ some (t.avg_sum, t.avg_count) ]

pub record IsWindow (t : ModuleTiming) : Type 0 where
  pub bounded : length t.samples ≤ window
  pub summed : t.avg_sum ≡ sum t.samples
  pub counted : t.avg_count ≡ length t.samples

-- Recording a sample keeps at most eight samples, and the sum and the count that the average is made of
-- are those of the samples kept.
pub record_sample-IsWindow :
    (elapsed : ℕ) (t : ModuleTiming) → IsWindow t → IsWindow (record_sample elapsed t)
unfolding record_sample
record_sample-IsWindow elapsed t w =
    let pushed = t.samples ++ elapsed ∷ [] in
    ground
      (arith, length-append t.samples (elapsed ∷ []), length-drop (length pushed - window) pushed)
