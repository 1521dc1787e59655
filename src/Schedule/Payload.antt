-- ===== src/Schedule/Payload.antt =====
-- `_build_charging_schedule_payload` of givEVC-ocppv2/app/ocpp/coordinator.py. A moment is a number
-- of seconds since 0001-01-01T00:00:00, a Monday, on the clock that is named (UTC or local);
-- `tzinfo` of the local clock is a fixed offset from UTC, as `datetime.astimezone` gives it.
use Prim.Native.Nat.{min, max}
use giv_evc_ocppv.Base.{
  ℕ, ◌+◌, ◌-◌, ◌*◌, ◌/◌, ◌%◌, ℤ, pos, negsuc, sub_ℕ, Bool, true, false, List, [], ◌∷◌,
  if◌then◌else◌, leb, ◌==◌, nat_comparable, filter,
}
use giv_evc_ocppv.Schedule.Time.{split_hhmm}
use giv_evc_ocppv.Schedule.Item.{Day, Item, day_index, day_in, schedule_days, selected_days}
use giv_evc_ocppv.Schedule.Periods.{
  Pair, add_circular_schedule_interval, schedule_periods_from_intervals,
}

-- What the function reads of its surroundings: the UTC clock and the local offset from UTC.
pub record Clock : Type 0 where
  pub now_utc : ℕ
  pub utc_offset : ℤ

pub data Recurrency : Type 0 where
  daily weekly : Recurrency

pub record Payload : Type 0 where
  pub recurrency : Recurrency
  pub start_schedule : ℕ
  pub periods : List Pair

abbrev pub day_seconds : ℕ
day_seconds = 86400

abbrev pub week_seconds : ℕ
week_seconds = 604800

-- `.astimezone(local_tz)` and `.astimezone(UTC)`. A moment before the year 1 raises in the source;
-- with a real clock none is met.
unfoldable pub to_local : ℤ → ℕ → ℕ
to_local (pos east) utc = utc + east
to_local (negsuc west) utc = utc - (west + 1)

unfoldable pub to_utc : ℤ → ℕ → ℕ
to_utc (pos east) local = local - east
to_utc (negsuc west) local = local + (west + 1)

-- `.replace(hour=0, minute=0, second=0, microsecond=0)`
abbrev pub midnight : ℕ → ℕ
midnight moment = moment / day_seconds * day_seconds

-- `.weekday()`
abbrev pub weekday : ℕ → ℕ
weekday moment = moment / day_seconds % 7

-- The midnight of the Monday of the week of a moment.
abbrev pub week_start : ℕ → ℕ
week_start moment = midnight (moment - weekday moment * day_seconds)

-- The seconds of the day at which a time of day falls.
abbrev pub of_hhmm : ℕ × ℕ → ℕ
of_hhmm (hours, minutes) = hours * 3600 + minutes * 60

-- Where a window opens and how long it lasts, for the local day that begins at `local_day`.
pub record Window : Type 0 where
  pub utc_start : ℕ
  pub duration : ℕ

unfoldable pub window_on : ℤ → ℕ → ℕ → ℕ → Window
window_on offset local_day opens closes =
    let local_start = local_day + opens in
    let local_end =
      if leb (local_day + closes) local_start
      then local_day + closes + day_seconds
      else local_day + closes in
    record { utc_start = to_utc offset local_start; duration = local_end - local_start }

-- `utc_start.hour * 3600 + utc_start.minute * 60`
abbrev pub minute_of_day : ℕ → ℕ
minute_of_day moment = moment % day_seconds / 3600 * 3600 + moment % 3600 / 60 * 60

unfoldable pub daily_intervals : Clock → ℕ → ℕ → List Pair
daily_intervals clock opens closes =
    let window =
      window_on clock.utc_offset (midnight (to_local clock.utc_offset clock.now_utc)) opens
        closes in
    add_circular_schedule_interval [] (pos (minute_of_day window.utc_start)) window.duration
      day_seconds

-- The loop over the chosen days, from Monday to Sunday.
unfoldable pub weekly_loop : Clock → ℕ → ℕ → List Pair → List Day → List Pair
weekly_loop clock opens closes intervals [] = intervals
weekly_loop clock opens closes intervals (day ∷ days) =
    let local_week_start = week_start (to_local clock.utc_offset clock.now_utc) in
    let window =
      window_on clock.utc_offset (local_week_start + day_index day * day_seconds) opens closes in
    weekly_loop clock opens closes
      (add_circular_schedule_interval intervals (sub_ℕ window.utc_start (week_start clock.now_utc))
        window.duration week_seconds)
      days

-- `not days or set(days) == set(SCHEDULE_DAY_INDEX)`
unfoldable pub all_days_selected : List Day → Bool
all_days_selected [] = true
all_days_selected (d ∷ ds) =
    elim (filter (λ day. elim (day_in (d ∷ ds) day) [ true ↦ false | false ↦ true ])
      schedule_days) [ [] ↦ true | _ ↦ false ]

-- `max(6, min(32, _coerce_int(current_a) or 32))`
abbrev pub limit_of : ℕ → ℕ
limit_of current_a = max 6 (min 32 (if current_a == 0 then 32 else current_a))

unfoldable pub build_charging_schedule_payload : Clock → Item → Payload
build_charging_schedule_payload clock schedule =
    let opens = of_hhmm (split_hhmm schedule.start) in
    let closes = of_hhmm (split_hhmm schedule.stop) in
    let limit_a = limit_of schedule.current_a in
    if all_days_selected schedule.days
    then record {
      recurrency = daily;
      start_schedule = week_start clock.now_utc;
      periods =
          schedule_periods_from_intervals (daily_intervals clock opens closes) day_seconds limit_a;
    }
    else record {
      recurrency = weekly;
      start_schedule = week_start clock.now_utc;
      periods =
          schedule_periods_from_intervals
            (weekly_loop clock opens closes [] (selected_days schedule.days)) week_seconds limit_a;
    }
