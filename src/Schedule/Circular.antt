-- ===== src/Schedule/Circular.antt =====
-- `_add_circular_schedule_interval`: the seconds that a window of a repeating cycle covers.
use native.Mathlib.Nat.{mod-lt, mod-eq_of_lt, mod-eq-sub-mod}
use giv_evc_ocppv.Base.{
  ℤ, pos, negsuc, ℕ, ◌+◌, ◌-◌, ◌%◌, ◌≤◌, ◌<◌, ◌≡◌, ◌≢◌, refl, Bool, false, true, ◌||◌, List, [],
  ◌∷◌, ◌++◌, arith, if◌then◌else◌, ltb, leb, ◌⊎◌, ltb→lt, lt→ltb, leb→le, All, Bool-cases, inl, inr,
  ◌∙◌,
}
use giv_evc_ocppv.Schedule.Periods.{Pair, wrap, add_circular_schedule_interval}
use giv_evc_ocppv.Schedule.Coverage.{covered, Fits}

pub wrap-lt : (offset : ℤ) (cycle : ℕ) → 0 < cycle → wrap offset cycle < cycle
unfolding wrap
wrap-lt (pos n) cycle h = mod-lt _ h
wrap-lt (negsuc n) cycle h = mod-lt _ h

-- A sum of two numbers below c wraps at most once.
mod_wrap : (n c : ℕ) → n < c + c → n % c ≡ (if ltb n c then n else n - c)
mod_wrap n c h = elim (Bool-cases (ltb n c)) [
  | inl e ↦ rw e (mod-eq_of_lt (ltb→lt n c e))
  | inr e ↦ let le : c ≤ n = ground arith in rw e (mod-eq-sub-mod le ∙ mod-eq_of_lt (omega arith))
]

covered-append : (xs ys : List Pair) (t : ℕ) → covered (xs ++ ys) t ≡ covered xs t || covered ys t
covered-append [] ys t = refl
covered-append (x ∷ xs) ys t = ground (arith, covered-append xs ys t)

-- Whether a window that opens at `start` and lasts `duration` is open at t, in a cycle.
abbrev pub open_at : ℕ → ℕ → ℕ → ℕ → Bool
open_at cycle start duration t = ltb ((t + cycle - start) % cycle) duration

covered_whole : (cycle t : ℕ) → t < cycle → covered ((0, cycle) ∷ []) t ≡ true
covered_whole cycle t h = ground arith

-- A window that does not reach the end of its cycle, and one that runs past it.
covered_within :
    (cycle start duration t : ℕ)
    → t < cycle
    → start + duration < cycle
    → covered ((start, start + duration) ∷ []) t ≡ open_at cycle start duration t
covered_within cycle start duration t ht hs =
    rw (mod_wrap (t + cycle - start) cycle (omega arith)) (ground arith)

covered_past :
    (cycle start duration t : ℕ)
    → t < cycle
    → start < cycle
    → duration < cycle
    → cycle ≤ start + duration
    → covered ((0, start + duration - cycle) ∷ (start, cycle) ∷ []) t
      ≡ open_at cycle start duration t
covered_past cycle start duration t ht hs hd hp =
    rw (mod_wrap (t + cycle - start) cycle (omega arith)) (ground arith)

-- The windows that one call adds.
abbrev pub added : ℕ → ℕ → ℕ → List Pair
added cycle start duration =
    let stop = (start + duration) % cycle in
    if ltb start stop then (start, stop) ∷ [] else (0, stop) ∷ (start, cycle) ∷ []

covered-added :
    (cycle start duration t : ℕ)
    → t < cycle
    → start < cycle
    → 0 < duration
    → duration < cycle
    → covered (added cycle start duration) t ≡ open_at cycle start duration t
covered-added cycle start duration t ht hs hp hd =
    elim (Bool-cases (ltb (start + duration) cycle)) [
      | inl e ↦
          let within : start + duration < cycle = ltb→lt _ _ e in
          let stop : (start + duration) % cycle ≡ start + duration = mod-eq_of_lt within in
          let forward : ltb start (start + duration) ≡ true = lt→ltb _ _ (omega arith) in
          rw (stop, forward) (covered_within cycle start duration t ht within)
      | inr e ↦
          let past : cycle ≤ start + duration = ground arith in
          let stop : (start + duration) % cycle ≡ start + duration - cycle =
            mod-eq-sub-mod past ∙ mod-eq_of_lt (omega arith) in
          let back : ltb start (start + duration - cycle) ≡ false = ground arith in
          rw (stop, back) (covered_past cycle start duration t ht hs hd past)
    ]

-- The call appends to the list that it is given.
fresh : ℕ → ℤ → ℕ → List Pair
fresh cycle offset duration =
    if leb cycle duration then (0, cycle) ∷ [] else added cycle (wrap offset cycle) duration

add-eq-append :
    (windows : List Pair) (offset : ℤ) (duration cycle : ℕ)
    → add_circular_schedule_interval windows offset duration cycle
      ≡ windows ++ fresh cycle offset duration
unfolding add_circular_schedule_interval fresh
add-eq-append windows offset duration cycle =
    let start = wrap offset cycle in
    elim (Bool-cases (leb cycle duration)) [
      | inl whole ↦ rw whole
      | inr part ↦ elim (Bool-cases (ltb start ((start + duration) % cycle))) [
        | inl e ↦ rw (part, e)
        | inr e ↦ rw (part, e)
      ]
    ]

covered-fresh :
    (offset : ℤ) (duration cycle t : ℕ)
    → 0 < duration
    → t < cycle
    → covered (fresh cycle offset duration) t ≡ open_at cycle (wrap offset cycle) duration t
unfolding fresh
covered-fresh offset duration cycle t hd ht = elim (Bool-cases (leb cycle duration)) [
  | inl whole ↦
      let inside : (t + cycle - wrap offset cycle) % cycle < cycle = mod-lt _ (omega arith) in
      let open_now : open_at cycle (wrap offset cycle) duration t ≡ true =
        lt→ltb _ _ (omega (arith, leb→le _ _ whole)) in
      rw (whole, open_now) (ground arith)
  | inr part ↦ rw part (
      covered-added cycle (wrap offset cycle) duration t ht (wrap-lt offset cycle (omega arith)) hd
        (ground arith))
]

-- One call adds to the windows exactly the seconds t for which the time since the opening,
-- counted round the cycle, is below the duration. The duration is positive.
pub covered-add_circular_schedule_interval :
    (windows : List Pair) (offset : ℤ) (duration cycle t : ℕ)
    → 0 < duration
    → t < cycle
    → covered (add_circular_schedule_interval windows offset duration cycle) t
      ≡ covered windows t || open_at cycle (wrap offset cycle) duration t
covered-add_circular_schedule_interval windows offset duration cycle t hd ht = rw (
  add-eq-append windows offset duration cycle,
  covered-append windows (fresh cycle offset duration) t,
  covered-fresh offset duration cycle t hd ht,
)

All-append {ℓ} : (P : Pair → Type ℓ) (xs ys : List Pair) → All P xs → All P ys → All P (xs ++ ys)
All-append P [] ys h k = k
All-append P (x ∷ xs) ys h k = (h.0, All-append P xs ys h.1 k)

-- A window does not end exactly at the end of its cycle, or it fills the cycle.
abbrev pub EndsInside : ℕ → ℕ → ℕ → Type 0
EndsInside cycle start duration = (cycle ≤ duration) ⊎ ((start + duration) % cycle ≢ 0)

fresh-Fits :
    (offset : ℤ) (duration cycle : ℕ)
    → 0 < cycle
    → EndsInside cycle (wrap offset cycle) duration
    → All (Fits cycle) (fresh cycle offset duration)
unfolding fresh
fresh-Fits offset duration cycle hc ends =
    let start = wrap offset cycle in
    let inside : start < cycle = wrap-lt offset cycle hc in
    let below : (start + duration) % cycle < cycle = mod-lt _ hc in
    elim (Bool-cases (leb cycle duration)) [
      | inl whole ↦ rw whole ((omega arith, omega arith), tt)
      | inr part ↦ elim (Bool-cases (ltb start ((start + duration) % cycle))) [
        | inl e ↦ rw (part, e) ((ltb→lt _ _ e, omega arith), tt)
        | inr e ↦ rw (part, e) ((ground arith, omega arith), ((inside, omega arith), tt))
      ]
    ]

pub add_circular_schedule_interval-Fits :
    (windows : List Pair) (offset : ℤ) (duration cycle : ℕ)
    → 0 < cycle
    → EndsInside cycle (wrap offset cycle) duration
    → All (Fits cycle) windows
    → All (Fits cycle) (add_circular_schedule_interval windows offset duration cycle)
add_circular_schedule_interval-Fits windows offset duration cycle hc ends fits =
    rw (add-eq-append windows offset duration cycle) (
      All-append (Fits cycle) windows (fresh cycle offset duration) fits
        (fresh-Fits offset duration cycle hc ends))
