-- ===== src/Schedule/Weekly.antt =====
-- The weekly profile of a schedule against the wall clock.
use giv_evc_ocppv.Base.{
  ℕ, ◌+◌, ◌*◌, ◌%◌, ◌<◌, ◌≡◌, ◌≢◌, ℤ, sub_ℕ, Bool, false, ◌||◌, List, [], ◌∷◌, if◌then◌else◌,
  or_assoc, any, arith, All, inr, ◌∙◌, ap,
}
use giv_evc_ocppv.Schedule.Periods.{Pair, wrap, add_circular_schedule_interval}
use giv_evc_ocppv.Schedule.Coverage.{covered, Fits}
use giv_evc_ocppv.Schedule.Profile.{limit_at}
use giv_evc_ocppv.Schedule.Contract.{limit_at-schedule_periods}
use giv_evc_ocppv.Schedule.Circular.{
  open_at, covered-add_circular_schedule_interval, add_circular_schedule_interval-Fits,
}
use giv_evc_ocppv.Schedule.Time.{split_hhmm, split_hhmm_bounds}
use giv_evc_ocppv.Schedule.Item.{mon, Day, Item, day_index, selected_days}
use giv_evc_ocppv.Schedule.Payload.{
  Clock, Window, day_seconds, week_seconds, to_local, week_start, of_hhmm, window_on, weekly_loop,
  all_days_selected, limit_of, build_charging_schedule_payload,
}
use giv_evc_ocppv.Schedule.Wall.{
  IsSane, lasts, lasts_bounds, open_locally, weekly_offset, utc_start-window_on, duration-window_on,
}

day_index_bound : (day : Day) → day_index day < 7
day_index_bound mon = omega arith
day_index_bound _ = omega arith

module _ (clock : Clock) (opens closes : ℕ) where
  -- Whether the window of a day is open at a UTC moment, by the local clock.
  abbrev pub day_open : ℕ → Day → Bool
  day_open moment day =
      open_locally clock.utc_offset week_seconds (day_index day * day_seconds + opens)
        (lasts opens closes) moment

  -- The window of a day as the weekly loop computes it, and the second at which it opens.
  abbrev day_window : Day → Window
  day_window day =
      window_on clock.utc_offset
        (week_start (to_local clock.utc_offset clock.now_utc) + day_index day * day_seconds) opens
        closes

  abbrev pub day_offset : Day → ℤ
  day_offset day = sub_ℕ (day_window day).utc_start (week_start clock.now_utc)

  -- No window of the chosen days ends exactly at the end of the UTC week.
  abbrev pub NoneAtWeekEnd : List Day → Type 0
  NoneAtWeekEnd days =
      All (λ day. (wrap (day_offset day) week_seconds + lasts opens closes) % week_seconds ≢ 0) days

module _ (clock : Clock) (opens closes : ℕ) (sane : IsSane clock) (ho : opens < day_seconds)
    (hc : closes < day_seconds) where
  open_at-day :
      (t : ℕ) (day : Day)
      → t < week_seconds
      → open_at week_seconds
          (wrap (day_offset clock opens closes day) week_seconds)
          (day_window clock opens closes day).duration
          t
        ≡ day_open clock opens closes (week_start clock.now_utc + t) day
  open_at-day t day ht =
      let local_week = week_start (to_local clock.utc_offset clock.now_utc) in
      let into = day_index day * day_seconds + opens in
      let within : into < week_seconds = omega (arith, day_index_bound day) in
      let same : local_week + day_index day * day_seconds + opens ≡ local_week + into =
        omega arith in
      rw (
        duration-window_on clock.utc_offset (local_week + day_index day * day_seconds) opens closes,
        utc_start-window_on clock.utc_offset (local_week + day_index day * day_seconds) opens
            closes,
        same,
        weekly_offset clock.utc_offset clock.now_utc into t sane.0 sane.1 within ht,
      )

  covered-weekly_loop :
      (t : ℕ) (intervals : List Pair) (days : List Day)
      → t < week_seconds
      → covered (weekly_loop clock opens closes intervals days) t
        ≡ covered intervals t
          || any (day_open clock opens closes (week_start clock.now_utc + t)) days
  unfolding weekly_loop
  covered-weekly_loop t intervals [] ht = ground arith
  covered-weekly_loop t intervals (day ∷ days) ht =
      let offset = day_offset clock opens closes day in
      let duration = (day_window clock opens closes day).duration in
      let grown = add_circular_schedule_interval intervals offset duration week_seconds in
      let lasting : 0 < duration =
        rw
          (duration-window_on clock.utc_offset
            (week_start (to_local clock.utc_offset clock.now_utc) + day_index day * day_seconds)
            opens closes)
          (lasts_bounds opens closes ho hc).0 in
      let added =
        covered-add_circular_schedule_interval intervals offset duration week_seconds t lasting
          ht in
      rw (covered-weekly_loop t grown days ht, added, open_at-day t day ht)
        (or_assoc (covered intervals t)
          (day_open clock opens closes (week_start clock.now_utc + t) day)
          (any (day_open clock opens closes (week_start clock.now_utc + t)) days))

  weekly_loop-Fits :
      (intervals : List Pair) (days : List Day)
      → NoneAtWeekEnd clock opens closes days
      → All (Fits week_seconds) intervals
      → All (Fits week_seconds) (weekly_loop clock opens closes intervals days)
  unfolding weekly_loop
  weekly_loop-Fits intervals [] ends fits = fits
  weekly_loop-Fits intervals (day ∷ days) ends fits =
      weekly_loop-Fits
        (add_circular_schedule_interval intervals (day_offset clock opens closes day)
          (day_window clock opens closes day).duration week_seconds)
        days ends.1
        (add_circular_schedule_interval-Fits intervals (day_offset clock opens closes day)
          (day_window clock opens closes day).duration week_seconds (omega arith)
          (rw
            (duration-window_on clock.utc_offset
              (week_start (to_local clock.utc_offset clock.now_utc) + day_index day * day_seconds)
              opens closes)
            (inr ends.0))
          fits)

abbrev pub opening : Item → ℕ
opening schedule = of_hhmm (split_hhmm schedule.start)

abbrev pub closing : Item → ℕ
closing schedule = of_hhmm (split_hhmm schedule.stop)

of_hhmm_bound : (t : ℕ × ℕ) → (t.0 < 24) × (t.1 < 60) → of_hhmm t < day_seconds
of_hhmm_bound t h = omega arith

pub opening_bound : (schedule : Item) → opening schedule < day_seconds
opening_bound schedule =
    of_hhmm_bound (split_hhmm schedule.start) (split_hhmm_bounds schedule.start)

pub closing_bound : (schedule : Item) → closing schedule < day_seconds
closing_bound schedule = of_hhmm_bound (split_hhmm schedule.stop) (split_hhmm_bounds schedule.stop)

-- For a schedule of some days of the week, sent with a UTC clock later than January of the year 1 and a
-- local clock that differs from it by whole minutes and less than a day, where no window of a chosen
-- day ends exactly at the end of the UTC week: the profile sets, at every second of that week, the limit
-- of the schedule where the local clock is in the window of a chosen day, and 0 elsewhere.
pub weekly_payload_limit :
    (clock : Clock) (schedule : Item) (t : ℕ)
    → IsSane clock
    → all_days_selected schedule.days ≡ false
    → NoneAtWeekEnd clock (opening schedule) (closing schedule) (selected_days schedule.days)
    → t < week_seconds
    → limit_at 0 (build_charging_schedule_payload clock schedule).periods t ≡ (
        if any
          (day_open clock (opening schedule) (closing schedule) (week_start clock.now_utc + t))
          (selected_days schedule.days)
        then limit_of schedule.current_a
        else 0)
unfolding build_charging_schedule_payload
weekly_payload_limit clock schedule t sane some_days ends ht =
    let opens = opening schedule in
    let closes = closing schedule in
    let days = selected_days schedule.days in
    let ho = opening_bound schedule in
    let hc = closing_bound schedule in
    let windows = weekly_loop clock opens closes [] days in
    rw some_days (
      limit_at-schedule_periods week_seconds (limit_of schedule.current_a) t windows
        (weekly_loop-Fits clock opens closes sane ho hc [] days ends tt) ht
      ∙ ap (λ b. if b then limit_of schedule.current_a else 0)
          (covered-weekly_loop clock opens closes sane ho hc t [] days ht))
