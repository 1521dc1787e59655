-- ===== src/Schedule/Contract.antt =====
-- What the periods that are sent to a charger promise: the limit inside the windows, nothing
-- outside, in the form that a charging profile must have.
use giv_evc_ocppv.Base.{ℕ, ◌<◌, ◌≡◌, refl, List, [], ◌∷◌, arith, if◌then◌else◌, All, ◌∙◌, ap}
use giv_evc_ocppv.Schedule.Periods.{Pair, sorted, merge_loop, schedule_periods_from_intervals}
use giv_evc_ocppv.Schedule.Coverage.{
  covered, Fits, Ascending, Separated, covered-sorted, sorted-Ascending, sorted-All,
  merge_loop_start, covered-merge_from, merge_from-Separated,
}
use giv_evc_ocppv.Schedule.Profile.{limit_at}
use giv_evc_ocppv.Schedule.Windows.{IsProfile, profile_of, profile_of_lem}

-- Sorted windows that fit, merged: they cover the same seconds and do not touch.
merged_windows :
    (cycle : ℕ) (ws : List Pair)
    → Ascending 0 ws
    → All (Fits cycle) ws
    → Separated cycle 0 (merge_loop [] ws) × ((t : ℕ) → covered (merge_loop [] ws) t ≡ covered ws t)
unfolding merge_loop
merged_windows cycle [] a f = (tt, λ t. refl)
merged_windows cycle (w ∷ ws) a f = rw (merge_loop_start w ws) (
  merge_from-Separated cycle 0 w.0 w.1 ws (omega arith) f.0 a.1 f.1,
  λ t. covered-merge_from w.0 w.1 ws t a.1,
)

pub periods_lem :
    (cycle limit : ℕ) (ws : List Pair)
    → All (Fits cycle) ws
    → IsProfile (schedule_periods_from_intervals ws cycle limit)
      × ((t : ℕ)
          → t < cycle
          → limit_at 0 (schedule_periods_from_intervals ws cycle limit) t
            ≡ (if covered ws t then limit else 0))
unfolding schedule_periods_from_intervals profile_of
periods_lem cycle limit [] f = ((refl, tt), λ t lt. ground arith)
periods_lem cycle limit (w ∷ ws) f =
    let (apart, same) =
      merged_windows cycle (sorted (w ∷ ws)) (sorted-Ascending (w ∷ ws))
        (sorted-All (Fits cycle) (w ∷ ws) f) in
    let (profile, limits) = profile_of_lem cycle limit (merge_loop [] (sorted (w ∷ ws))) apart in
    (
      profile,
      λ t lt. limits t lt ∙ ap (λ b. if b then limit else 0) (same t ∙ covered-sorted (w ∷ ws) t),
    )

-- The periods made of a list of windows, each of which is not empty and ends within the cycle, put the
-- limit in force at every second of the cycle that is in some window, and 0 at every other one.
pub limit_at-schedule_periods :
    (cycle limit t : ℕ) (windows : List Pair)
    → All (Fits cycle) windows
    → t < cycle
    → limit_at 0 (schedule_periods_from_intervals windows cycle limit) t
      ≡ (if covered windows t then limit else 0)
limit_at-schedule_periods cycle limit t windows fits lt =
    (periods_lem cycle limit windows fits).1 t lt

-- The periods made of a list of windows, each of which is not empty and ends within the cycle, begin at
-- second 0, have strictly ascending starts, and each change the limit of the one before.
pub schedule_periods-IsProfile :
    (cycle limit : ℕ) (windows : List Pair)
    → All (Fits cycle) windows
    → IsProfile (schedule_periods_from_intervals windows cycle limit)
schedule_periods-IsProfile cycle limit windows fits = (periods_lem cycle limit windows fits).0
