-- ===== src/Schedule/Examples.antt =====
-- Tests of the schedule modules, and the theorems at concrete inputs.
use giv_evc_ocppv.Base.{
  ◌+◌, ◌≡◌, refl, pos, true, false, List, [], ◌∷◌, arith, if◌then◌else◌, codes, Text, inr, map,
  decimal, read_from, any,
}
use giv_evc_ocppv.Schedule.Time.{normalise_time, split_hhmm}
use giv_evc_ocppv.Schedule.Periods.{
  Pair, schedule_periods_from_intervals, add_circular_schedule_interval, wrap,
}
use giv_evc_ocppv.Schedule.Coverage.{covered}
use giv_evc_ocppv.Schedule.Profile.{limit_at}
use giv_evc_ocppv.Schedule.Contract.{limit_at-schedule_periods, schedule_periods-IsProfile}
use giv_evc_ocppv.Schedule.Windows.{IsProfile}
use giv_evc_ocppv.Schedule.Midnight.{window_to_cycle_end}
use giv_evc_ocppv.Schedule.Item.{Day, Item, next_schedule_id, selected_days}
use giv_evc_ocppv.Schedule.Item.Identity.{known, next_schedule_id_fresh}
use giv_evc_ocppv.Schedule.Payload.{
  Clock, weekly, build_charging_schedule_payload, weekly_loop, window_on, to_local, to_utc,
  all_days_selected, week_start, limit_of, day_seconds,
}
use giv_evc_ocppv.Schedule.Wall.{open_locally, lasts}
use giv_evc_ocppv.Schedule.Weekly.{weekly_payload_limit, day_open, opening, closing}
use giv_evc_ocppv.Schedule.Daily.{daily_payload_limit}

-- 22:00 to 01:00 of a day in a UTC day: open over midnight.
night : List Pair
night = add_circular_schedule_interval [] (pos 79200) 10800 86400

night_periods :
    schedule_periods_from_intervals night 86400 32 ≡ (0, 32) ∷ (3600, 0) ∷ (79200, 32) ∷ []
unfolding night schedule_periods_from_intervals add_circular_schedule_interval wrap
night_periods = refl

-- Windows that touch are joined, and one inside another is swallowed.
joined_periods :
    schedule_periods_from_intervals ((50, 60) ∷ (10, 20) ∷ (20, 30) ∷ (12, 15) ∷ []) 100 16
    ≡ (0, 0) ∷ (10, 16) ∷ (30, 0) ∷ (50, 16) ∷ (60, 0) ∷ []
unfolding schedule_periods_from_intervals
joined_periods = refl

times :
    ◌≡◌ {A = List Text}
      (map normalise_time (codes " 7:05" ∷ codes "24:60" ∷ codes "7:5" ∷ codes "noon" ∷ []))
      (codes "07:05" ∷ codes "23:59" ∷ codes "00:00" ∷ codes "00:00" ∷ [])
unfolding normalise_time
times = refl

limit_at-schedule_periods_example :
    limit_at 0 (schedule_periods_from_intervals ((10, 20) ∷ (15, 30) ∷ []) 100 16) 25
    ≡ (if covered ((10, 20) ∷ (15, 30) ∷ []) 25 then 16 else 0)
limit_at-schedule_periods_example =
    limit_at-schedule_periods 100 16 25 ((10, 20) ∷ (15, 30) ∷ []) (omega arith) (omega arith)

schedule_periods-IsProfile_example :
    IsProfile (schedule_periods_from_intervals ((10, 20) ∷ (15, 30) ∷ []) 100 16)
schedule_periods-IsProfile_example =
    schedule_periods-IsProfile 100 16 ((10, 20) ∷ (15, 30) ∷ []) (omega arith)

-- 22:00 to 24:00 UTC: charging is allowed all day.
window_to_cycle_end_example :
    schedule_periods_from_intervals
      (add_circular_schedule_interval [] (pos 79200) 7200 86400)
      86400
      32
    ≡ (0, 32) ∷ []
window_to_cycle_end_example = window_to_cycle_end 79200 86400 32 (omega arith) (omega arith)

next_schedule_id_fresh_example :
    known
      (codes "2" ∷ codes "x" ∷ codes "10" ∷ [])
      (next_schedule_id (codes "2" ∷ codes "x" ∷ codes "10" ∷ []) 1700000000000)
    ≡ false
next_schedule_id_fresh_example =
    next_schedule_id_fresh (codes "2" ∷ codes "x" ∷ codes "10" ∷ []) 1700000000000

eleven : next_schedule_id (codes "2" ∷ codes "x" ∷ codes "10" ∷ []) 1700000000000 ≡ codes "11"
unfolding next_schedule_id decimal read_from
eleven = refl

-- A clock in summer time, one hour ahead of UTC.
abbrev summer : Clock
summer = record { now_utc = 63900000000; utc_offset = pos 3600 }

abbrev evening : List Day → Item
evening days = record {
  id = codes "1";
  name = codes "evening";
  enabled = true;
  start = codes "18:00";
  stop = codes "21:30";
  days = days;
  current_a = 16;
}

weekend : build_charging_schedule_payload summer (evening (Day.sat ∷ Day.sun ∷ [])) ≡ record {
  recurrency = weekly;
  start_schedule = 63899539200;
  periods = (0, 0) ∷ (493200, 16) ∷ (505800, 0) ∷ (579600, 16) ∷ (592200, 0) ∷ [];
}
unfolding build_charging_schedule_payload weekly_loop window_on to_local to_utc
    add_circular_schedule_interval wrap schedule_periods_from_intervals split_hhmm all_days_selected
    selected_days
weekend = refl

weekly_payload_limit_example :
    limit_at 0
      (build_charging_schedule_payload summer (evening (Day.sat ∷ Day.sun ∷ []))).periods
      500000
    ≡ (if any
          (day_open summer
            (opening (evening (Day.sat ∷ Day.sun ∷ [])))
            (closing (evening (Day.sat ∷ Day.sun ∷ [])))
            (week_start 63900000000 + 500000))
          (selected_days (Day.sat ∷ Day.sun ∷ []))
        then limit_of 16
        else 0)
unfolding window_on to_local to_utc wrap split_hhmm all_days_selected selected_days
weekly_payload_limit_example =
    weekly_payload_limit summer (evening (Day.sat ∷ Day.sun ∷ [])) 500000 (omega arith) refl
      (omega arith) (omega arith)

daily_payload_limit_example :
    limit_at 0 (build_charging_schedule_payload summer (evening [])).periods 70000 ≡ (
      if open_locally
        (pos 3600)
        day_seconds
        (opening (evening []))
        (lasts (opening (evening [])) (closing (evening [])))
        (week_start 63900000000 + 70000)
      then limit_of 16
      else 0)
unfolding window_on to_local to_utc wrap split_hhmm all_days_selected
daily_payload_limit_example =
    daily_payload_limit summer (evening []) 70000 (omega arith) refl (inr (omega arith))
      (omega arith)
