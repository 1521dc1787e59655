-- ===== src/Schedule/Wall.antt =====
-- The charging profile against the wall clock: the limit at a moment is decided by the local time
-- of that moment and the hours and days of the schedule.
use giv_evc_ocppv.Base.{
  ℕ, ◌+◌, ◌-◌, ◌*◌, ◌/◌, ◌%◌, ◌≤◌, ◌<◌, ◌≡◌, refl, ℤ, pos, negsuc, sub_ℕ, Bool, if◌then◌else◌, leb,
  ltb, leb→le, arith, inl, inr, Bool-cases,
}
use giv_evc_ocppv.Schedule.Periods.{wrap}
use giv_evc_ocppv.Schedule.Payload.{
  Clock, day_seconds, week_seconds, to_local, to_utc, week_start, window_on,
}

-- An offset below a day, of whole minutes.
abbrev pub IsOffset : ℤ → Type 0
IsOffset (pos east) = (east < day_seconds) × (east % 60 ≡ 0)
IsOffset (negsuc west) = (west + 1 < day_seconds) × ((west + 1) % 60 ≡ 0)

-- A clock past its first weeks, with such an offset.
abbrev pub IsSane : Clock → Type 0
IsSane clock = (2678400 ≤ clock.now_utc) × IsOffset clock.utc_offset

-- The seconds from the opening to the closing time, on the next day if that is not later.
abbrev pub lasts : ℕ → ℕ → ℕ
lasts opens closes = if leb closes opens then closes + day_seconds - opens else closes - opens

pub duration-window_on :
    (offset : ℤ) (local_day opens closes : ℕ)
    → (window_on offset local_day opens closes).duration ≡ lasts opens closes
unfolding window_on
duration-window_on offset local_day opens closes = ground arith

pub lasts_bounds :
    (opens closes : ℕ)
    → opens < day_seconds
    → closes < day_seconds
    → (0 < lasts opens closes) × (lasts opens closes ≤ day_seconds)
lasts_bounds opens closes ho hc = ground arith

-- Whether a window that opens `opening` seconds into the local cycle is open at a UTC moment.
abbrev pub open_locally : ℤ → ℕ → ℕ → ℕ → ℕ → Bool
open_locally offset cycle opening duration moment =
    ltb ((to_local offset moment + cycle - opening) % cycle) duration

week_start_lem : (moment : ℕ) → week_start moment ≡ moment / week_seconds * week_seconds
week_start_lem moment = omega arith

-- The distance of two moments, wrapped to one week.
pub wrap-sub_ℕ : (x a : ℕ) → wrap (sub_ℕ x (a * week_seconds)) week_seconds ≡ x % week_seconds
unfolding wrap
wrap-sub_ℕ x a = elim (Bool-cases (leb (a * week_seconds) x)) [
  | inl e ↦ rw e (omega (arith, leb→le _ _ e))
  | inr e ↦ let below : x < a * week_seconds = ground arith in rw e (omega arith)
]

shift_east :
    (l a east o t : ℕ)
    → east < day_seconds
    → o < week_seconds
    → t < week_seconds
    → 1 ≤ l
    → (t + week_seconds - (l * week_seconds + o - east) % week_seconds) % week_seconds
      ≡ (a * week_seconds + t + east + week_seconds - o) % week_seconds
shift_east l a east o t he ho ht hl = omega arith

shift_west :
    (l a west o t : ℕ)
    → west < day_seconds
    → o < week_seconds
    → t < week_seconds
    → 1 ≤ a
    → (t + week_seconds - (l * week_seconds + o + west) % week_seconds) % week_seconds
      ≡ (a * week_seconds + t - west + week_seconds - o) % week_seconds
shift_west l a west o t he ho ht hl = omega arith

-- The opening of a window, in UTC and counted from the UTC week, against the local week.
pub weekly_offset :
    (offset : ℤ) (now o t : ℕ)
    → 2678400 ≤ now
    → IsOffset offset
    → o < week_seconds
    → t < week_seconds
    → (t
          + week_seconds
          - wrap
              (sub_ℕ (to_utc offset (week_start (to_local offset now) + o)) (week_start now))
              week_seconds)
        % week_seconds
      ≡ (to_local offset (week_start now + t) + week_seconds - o) % week_seconds
unfolding to_local to_utc
weekly_offset (pos east) now o t hn he ho ht =
    rw (week_start_lem now, week_start_lem (now + east))
      (rw (wrap-sub_ℕ ((now + east) / week_seconds * week_seconds + o - east) (now / week_seconds))
        (shift_east ((now + east) / week_seconds) (now / week_seconds) east o t he.0 ho ht
          (omega arith)))
weekly_offset (negsuc west) now o t hn he ho ht =
    rw (week_start_lem now, week_start_lem (now - (west + 1)))
      (rw
        (wrap-sub_ℕ ((now - (west + 1)) / week_seconds * week_seconds + o + (west + 1))
          (now / week_seconds))
        (shift_west ((now - (west + 1)) / week_seconds) (now / week_seconds) (west + 1) o t he.0 ho
          ht (omega arith)))

pub utc_start-window_on :
    (offset : ℤ) (local_day opens closes : ℕ)
    → (window_on offset local_day opens closes).utc_start ≡ to_utc offset (local_day + opens)
unfolding window_on
utc_start-window_on offset local_day opens closes = refl
