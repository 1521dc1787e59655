-- ===== src/Schedule/Midnight.antt =====
-- Where `_add_circular_schedule_interval` and `_schedule_periods_from_intervals` do not fit
-- together: the empty window that the first adds when a window ends with its cycle.
use native.Mathlib.Nat.{mod_self, mod-eq_of_lt}
use giv_evc_ocppv.Base.{
  pos, ℕ, zero, suc, ◌+◌, ◌-◌, ◌%◌, ◌<◌, ◌≡◌, false, true, [], ◌∷◌, arith, ltb, leb, ◌==◌,
  nat_comparable,
}
use giv_evc_ocppv.Schedule.Periods.{
  wrap, add_circular_schedule_interval, schedule_periods_from_intervals,
}

window_pair :
    (start cycle : ℕ)
    → 0 < start
    → start < cycle
    → add_circular_schedule_interval [] (pos start) (cycle - start) cycle
      ≡ (0, 0) ∷ (start, cycle) ∷ []
unfolding add_circular_schedule_interval wrap
window_pair start cycle hs hc =
    let short : leb cycle (cycle - start) ≡ false = ground arith in
    let home : start % cycle ≡ start = mod-eq_of_lt hc in
    let total : start + (cycle - start) ≡ cycle = omega arith in
    let none_left : ltb start 0 ≡ false = ground arith in
    rw (short, home, total, mod_self cycle, none_left)

pair_periods :
    (start cycle limit : ℕ)
    → 0 < start
    → start < cycle
    → schedule_periods_from_intervals ((0, 0) ∷ (start, cycle) ∷ []) cycle limit ≡ (0, limit) ∷ []
unfolding schedule_periods_from_intervals
pair_periods start cycle zero hs hc =
    let later : ltb 0 start ≡ true = ground arith in
    let inside : ltb 0 cycle ≡ true = ground arith in
    let at_end : ltb cycle cycle ≡ false = ground arith in
    let apart : (0 == start) ≡ false = ground arith in simp (later, inside, at_end, apart)
pair_periods start cycle (suc limit) hs hc =
    let later : ltb 0 start ≡ true = ground arith in
    let inside : ltb 0 cycle ≡ true = ground arith in
    let at_end : ltb cycle cycle ≡ false = ground arith in
    let apart : (0 == start) ≡ false = ground arith in
    let same : (suc limit == suc limit) ≡ true = ground arith in
    let more : leb (suc limit) 0 ≡ false = ground arith in
    simp (later, inside, at_end, apart, same, more)

-- A window that opens after the start of a cycle and ends exactly at its end is sent as a profile
-- with a single period, from second 0, at the full limit: charging is allowed at all times.
pub window_to_cycle_end :
    (start cycle limit : ℕ)
    → 0 < start
    → start < cycle
    → schedule_periods_from_intervals
        (add_circular_schedule_interval [] (pos start) (cycle - start) cycle)
        cycle
        limit
      ≡ (0, limit) ∷ []
window_to_cycle_end start cycle limit hs hc =
    rw (window_pair start cycle hs hc) (pair_periods start cycle limit hs hc)
