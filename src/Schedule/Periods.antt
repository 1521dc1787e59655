-- ===== src/Schedule/Periods.antt =====
-- `_add_circular_schedule_interval` and `_schedule_periods_from_intervals` of
-- givEVC-ocppv2/app/ocpp/coordinator.py: from the windows of a schedule to the periods of the
-- charging profile. Times are whole seconds in one cycle (a day or a week).
use Prim.Native.Nat.{max}
use mathlib.Core.List.{reverse}
use giv_evc_ocppv.Base.{
  ℕ, suc, ℤ, pos, negsuc, ◌+◌, ◌-◌, ◌%◌, Bool, ◌&&◌, ◌||◌, List, [], ◌∷◌, ◌++◌, if◌then◌else◌, ltb,
  leb, ◌==◌, nat_comparable,
}

abbrev pub Pair : Type 0
Pair = ℕ × ℕ

-- Python's `%` with a positive modulus, on an integer of either sign.
unfoldable pub wrap : ℤ → ℕ → ℕ
wrap (pos n) cycle = n % cycle
wrap (negsuc n) cycle = (cycle - suc n % cycle) % cycle

unfoldable pub add_circular_schedule_interval : List Pair → ℤ → ℕ → ℕ → List Pair
add_circular_schedule_interval intervals start_offset duration_seconds cycle_seconds =
    if leb cycle_seconds duration_seconds
    then intervals ++ (0, cycle_seconds) ∷ []
    else (let start = wrap start_offset cycle_seconds in
        let stop = (start + duration_seconds) % cycle_seconds in
        if ltb start stop
        then intervals ++ (start, stop) ∷ []
        else intervals ++ (0, stop) ∷ (start, cycle_seconds) ∷ [])

-- Python's order on pairs.
unfoldable pub pair_le : Pair → Pair → Bool
pair_le (a, b) (c, d) = ltb a c || (a == c && leb b d)

unfoldable pub insert_pair : Pair → List Pair → List Pair
unfolding pair_le
insert_pair x [] = x ∷ []
insert_pair x (y ∷ ys) = if pair_le x y then x ∷ y ∷ ys else y ∷ insert_pair x ys

-- `sorted` on a list of pairs.
unfoldable pub sorted : List Pair → List Pair
unfolding insert_pair
sorted [] = []
sorted (x ∷ xs) = insert_pair x (sorted xs)

-- The loop that fills `merged`, which is kept latest first: its head is `merged[-1]`.
unfoldable pub merge_loop : List Pair → List Pair → List Pair
merge_loop merged [] = reverse merged
merge_loop [] ((start, stop) ∷ rest) = merge_loop ((start, stop) ∷ []) rest
merge_loop ((first, last) ∷ merged) ((start, stop) ∷ rest) =
    merge_loop
      (if ltb last start
        then (start, stop) ∷ (first, last) ∷ merged
        else (first, max last stop) ∷ merged)
      rest

-- One round of the loop over `merged` that fills `periods`.
unfoldable pub add_periods : ℕ → ℕ → List Pair → Pair → List Pair
add_periods cycle_seconds limit_a periods (start, stop) =
    let opened =
      if ltb 0 start
      then periods ++ (start, limit_a) ∷ []
      else elim periods [ [] ↦ (0, limit_a) ∷ [] | p ∷ ps ↦ p ∷ ps ] in
    if ltb stop cycle_seconds then opened ++ (stop, 0) ∷ [] else opened

unfoldable pub period_loop : ℕ → ℕ → List Pair → List Pair → List Pair
unfolding add_periods
period_loop cycle_seconds limit_a periods [] = periods
period_loop cycle_seconds limit_a periods (window ∷ rest) =
    period_loop cycle_seconds limit_a (add_periods cycle_seconds limit_a periods window) rest

-- `periods.append((0, 0))` before the loop, when the first window opens later.
unfoldable pub leading_period : List Pair → List Pair
leading_period [] = []
leading_period ((start, stop) ∷ rest) = if ltb 0 start then (0, 0) ∷ [] else []

-- The loop that fills `deduped`, kept latest first.
unfoldable pub dedupe_loop : List Pair → List Pair → List Pair
dedupe_loop deduped [] = reverse deduped
dedupe_loop [] ((start, limit) ∷ rest) = dedupe_loop ((start, limit) ∷ []) rest
dedupe_loop ((last, level) ∷ deduped) ((start, limit) ∷ rest) =
    dedupe_loop
      (if last == start
        then (start, limit) ∷ deduped
        else if level == limit
        then (last, level) ∷ deduped
        else (start, limit) ∷ (last, level) ∷ deduped)
      rest

-- `deduped or [(0, 0)]`
abbrev pub or_zero : List Pair → List Pair
or_zero [] = (0, 0) ∷ []
or_zero (p ∷ ps) = p ∷ ps

unfoldable pub schedule_periods_from_intervals : List Pair → ℕ → ℕ → List Pair
unfolding sorted merge_loop leading_period period_loop dedupe_loop
schedule_periods_from_intervals [] cycle_seconds limit_a = (0, 0) ∷ []
schedule_periods_from_intervals (window ∷ windows) cycle_seconds limit_a =
    let merged = merge_loop [] (sorted (window ∷ windows)) in
    or_zero
      (dedupe_loop [] (sorted (period_loop cycle_seconds limit_a (leading_period merged) merged)))
