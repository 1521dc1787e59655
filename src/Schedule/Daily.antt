-- ===== src/Schedule/Daily.antt =====
-- The daily profile of a schedule against the wall clock.
use giv_evc_ocppv.Base.{
  ℕ, ◌+◌, ◌-◌, ◌*◌, ◌/◌, ◌%◌, ◌≤◌, ◌<◌, ◌≡◌, refl, ℤ, pos, negsuc, true, [], if◌then◌else◌, arith,
  All, ◌∙◌, ap,
}
use giv_evc_ocppv.Schedule.Periods.{wrap}
use giv_evc_ocppv.Schedule.Coverage.{covered, Fits}
use giv_evc_ocppv.Schedule.Profile.{limit_at}
use giv_evc_ocppv.Schedule.Contract.{limit_at-schedule_periods}
use giv_evc_ocppv.Schedule.Circular.{
  EndsInside, covered-add_circular_schedule_interval, add_circular_schedule_interval-Fits,
}
use giv_evc_ocppv.Schedule.Item.{Item}
use giv_evc_ocppv.Schedule.Payload.{
  Clock, Window, day_seconds, week_seconds, to_local, to_utc, week_start, midnight, window_on,
  daily_intervals, minute_of_day, all_days_selected, limit_of, build_charging_schedule_payload,
}
use giv_evc_ocppv.Schedule.Wall.{
  IsSane, IsOffset, lasts, lasts_bounds, open_locally, utc_start-window_on, duration-window_on,
}
use giv_evc_ocppv.Schedule.Weekly.{opening, closing, opening_bound, closing_bound}

daily_east :
    (l a east o t : ℕ)
    → east < day_seconds
    → east % 60 ≡ 0
    → o < day_seconds
    → o % 60 ≡ 0
    → t < day_seconds
    → 1 ≤ l
    → (t + day_seconds - minute_of_day (l * day_seconds + o - east) % day_seconds) % day_seconds
      ≡ (a * day_seconds + t + east + day_seconds - o) % day_seconds
daily_east l a east o t he hm ho hom ht hl = omega arith

daily_west :
    (l a west o t : ℕ)
    → west < day_seconds
    → west % 60 ≡ 0
    → o < day_seconds
    → o % 60 ≡ 0
    → t < day_seconds
    → 1 ≤ a
    → (t + day_seconds - minute_of_day (l * day_seconds + o + west) % day_seconds) % day_seconds
      ≡ (a * day_seconds + t - west + day_seconds - o) % day_seconds
daily_west l a west o t he hm ho hom ht hl = omega arith

week_start_days : (moment : ℕ) → week_start moment ≡ moment / week_seconds * 7 * day_seconds
week_start_days moment = omega arith

-- The opening of the daily window, by the minute and in UTC, against the local day.
daily_offset :
    (offset : ℤ) (now o t : ℕ)
    → 2678400 ≤ now
    → IsOffset offset
    → o < day_seconds
    → o % 60 ≡ 0
    → t < day_seconds
    → (t
          + day_seconds
          - minute_of_day (to_utc offset (midnight (to_local offset now) + o)) % day_seconds)
        % day_seconds
      ≡ (to_local offset (week_start now + t) + day_seconds - o) % day_seconds
unfolding to_local to_utc
daily_offset (pos east) now o t hn he ho hom ht = rw (week_start_days now) (
    daily_east ((now + east) / day_seconds) (now / week_seconds * 7) east o t he.0 he.1 ho hom ht
      (omega arith))
daily_offset (negsuc west) now o t hn he ho hom ht = rw (week_start_days now) (
    daily_west ((now - (west + 1)) / day_seconds) (now / week_seconds * 7) (west + 1) o t he.0 he.1
      ho hom ht (omega arith))

-- The window of the day as `daily_intervals` computes it, and the second at which it opens.
abbrev day_window : Clock → ℕ → ℕ → Window
day_window clock opens closes =
    window_on clock.utc_offset (midnight (to_local clock.utc_offset clock.now_utc)) opens closes

abbrev pub opening_offset : Clock → ℕ → ℕ → ℤ
opening_offset clock opens closes = pos (minute_of_day (day_window clock opens closes).utc_start)

wrap-pos : (n cycle : ℕ) → wrap (pos n) cycle ≡ n % cycle
unfolding wrap
wrap-pos n cycle = refl

module _ (clock : Clock) (opens closes : ℕ) (sane : IsSane clock) (ho : opens < day_seconds)
    (hc : closes < day_seconds) where
  lasting : (day_window clock opens closes).duration ≡ lasts opens closes
  lasting =
      duration-window_on clock.utc_offset (midnight (to_local clock.utc_offset clock.now_utc)) opens
        closes

  covered-daily_intervals :
      (t : ℕ)
      → opens % 60 ≡ 0
      → t < day_seconds
      → covered (daily_intervals clock opens closes) t
        ≡ open_locally clock.utc_offset day_seconds opens
            (lasts opens closes)
            (week_start clock.now_utc + t)
  unfolding daily_intervals
  covered-daily_intervals t hom ht =
      let local_day = midnight (to_local clock.utc_offset clock.now_utc) in
      rw (
        covered-add_circular_schedule_interval [] (opening_offset clock opens closes)
            (day_window clock opens closes).duration day_seconds t
            (rw lasting (lasts_bounds opens closes ho hc).0) ht,
        lasting,
        wrap-pos (minute_of_day (day_window clock opens closes).utc_start) day_seconds,
        utc_start-window_on clock.utc_offset local_day opens closes,
        daily_offset clock.utc_offset clock.now_utc opens t sane.0 sane.1 ho hom ht,
      )

  daily_intervals-Fits :
      EndsInside day_seconds
        (wrap (opening_offset clock opens closes) day_seconds)
        (lasts opens closes)
      → All (Fits day_seconds) (daily_intervals clock opens closes)
  unfolding daily_intervals
  daily_intervals-Fits ends =
      add_circular_schedule_interval-Fits [] (opening_offset clock opens closes)
        (day_window clock opens closes).duration day_seconds (omega arith) (rw lasting ends) tt

opening_minutes : (schedule : Item) → opening schedule % 60 ≡ 0
opening_minutes schedule = omega arith

-- For a schedule of every day, sent with a UTC clock later than January of the year 1 and a local clock
-- that differs from it by whole minutes and less than a day, where the window lasts a whole day or does
-- not end exactly at the end of the UTC day: the profile sets, at every second of that day, the limit
-- of the schedule where the local clock is in the window, and 0 elsewhere.
pub daily_payload_limit :
    (clock : Clock) (schedule : Item) (t : ℕ)
    → IsSane clock
    → all_days_selected schedule.days ≡ true
    → EndsInside day_seconds
        (wrap (opening_offset clock (opening schedule) (closing schedule)) day_seconds)
        (lasts (opening schedule) (closing schedule))
    → t < day_seconds
    → limit_at 0 (build_charging_schedule_payload clock schedule).periods t ≡ (
        if open_locally clock.utc_offset day_seconds
          (opening schedule)
          (lasts (opening schedule) (closing schedule))
          (week_start clock.now_utc + t)
        then limit_of schedule.current_a
        else 0)
unfolding build_charging_schedule_payload
daily_payload_limit clock schedule t sane every_day ends ht =
    let opens = opening schedule in
    let closes = closing schedule in
    let ho = opening_bound schedule in
    let hc = closing_bound schedule in
    rw every_day (
      limit_at-schedule_periods day_seconds (limit_of schedule.current_a) t
        (daily_intervals clock opens closes)
        (daily_intervals-Fits clock opens closes sane ho hc ends) ht
      ∙ ap (λ b. if b then limit_of schedule.current_a else 0)
          (covered-daily_intervals clock opens closes sane ho hc t (opening_minutes schedule) ht))
