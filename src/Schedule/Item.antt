-- ===== src/Schedule/Item.antt =====
-- One charging schedule: `_next_schedule_id`, `_normalise_schedule` and
-- `_normalise_schedule_list` of givEVC-ocppv2/app/ocpp/coordinator.py. A schedule that a client
-- sends is a `Request`; what the coordinator keeps is an `Item`.
pub mod Identity
use Prim.Native.Nat.{min, max}
use giv_evc_ocppv.Base.{
  ℕ, suc, ◌+◌, ℤ, pos, negsuc, Bool, true, false, not, ◌&&◌, Option, none, some, List, [], ◌∷◌,
  ◌++◌, map, if◌then◌else◌, leb, ◌==◌, nat_comparable, any, filter, Text, codes, strip, isdigit,
  read_from, decimal,
}
use giv_evc_ocppv.Schedule.Time.{normalise_time}

pub data Day : Type 0 where
  mon tue wed thu fri sat sun : Day

-- SCHEDULE_DAY_INDEX
abbrev pub day_index : Day → ℕ
day_index mon = 0
day_index tue = 1
day_index wed = 2
day_index thu = 3
day_index fri = 4
day_index sat = 5
day_index sun = 6

-- SCHEDULE_DAYS
abbrev pub schedule_days : List Day
schedule_days = mon ∷ tue ∷ wed ∷ thu ∷ fri ∷ sat ∷ sun ∷ []

abbrev pub day_in : List Day → Day → Bool
day_in days day = any (λ other. day_index other == day_index day) days

-- The keys that `_normalise_schedule` reads; `current_a` is what `_coerce_int` makes of it.
pub record Request : Type 0 where
  pub id : Option Text
  pub name : Option Text
  pub start : Option Text
  pub start_time : Option Text
  pub stop : Option Text
  pub end_time : Option Text
  pub days : List Day
  pub current_a : Option ℤ
  pub enabled : Bool

pub record Item : Type 0 where
  pub id : Text
  pub name : Text
  pub enabled : Bool
  pub start : Text
  pub stop : Text
  pub days : List Day
  pub current_a : ℕ

-- Python's `a or b`, where a missing and an empty text are both false.
abbrev pub or_text : Option Text → Text → Text
or_text none default = default
or_text (some []) default = default
or_text (some (c ∷ cs)) default = c ∷ cs

take : ℕ → Text → Text
take n [] = []
take ℕ.zero (c ∷ cs) = []
take (suc n) (c ∷ cs) = c ∷ take n cs

-- `max(6, min(32, current_a))`, with 32 for a missing number.
unfoldable pub clamp_current : Option ℤ → ℕ
clamp_current none = max 6 (min 32 32)
clamp_current (some (pos n)) = max 6 (min 32 n)
clamp_current (some (negsuc n)) = 6

-- The days of the week, from Monday on, that occur in a list.
unfoldable pub selected_days : List Day → List Day
selected_days days = filter (day_in days) schedule_days

unfoldable pub chosen_days : List Day → List Day
unfolding selected_days
chosen_days days = elim (selected_days days) [ [] ↦ schedule_days | d ∷ ds ↦ d ∷ ds ]

unfoldable pub normalise_schedule : Request → Text → Item
unfolding take clamp_current chosen_days
normalise_schedule schedule schedule_id = record {
  id = schedule_id;
  name =
      or_text (some (take 60 (strip (or_text schedule.name (codes "Schedule")))))
        (codes "Schedule");
  enabled = schedule.enabled;
  start = normalise_time (or_text schedule.start (or_text schedule.start_time (codes "00:00")));
  stop = normalise_time (or_text schedule.stop (or_text schedule.end_time (codes "01:00")));
  days = chosen_days schedule.days;
  current_a = clamp_current schedule.current_a;
}

-- `[int(schedule_id) for schedule_id in existing if str(schedule_id).isdigit()]`
unfoldable pub numeric_ids : List Text → List ℕ
numeric_ids [] = []
numeric_ids (key ∷ keys) =
    let rest = numeric_ids keys in if isdigit key then read_from 0 key ∷ rest else rest

unfoldable pub maximum : ℕ → List ℕ → ℕ
maximum best [] = best
maximum best (n ∷ ns) = maximum (max best n) ns

-- `now_ms` is the clock in milliseconds.
unfoldable pub next_schedule_id : List Text → ℕ → Text
unfolding numeric_ids maximum
next_schedule_id existing now_ms = elim (numeric_ids existing) [
  | [] ↦ decimal now_ms
  | n ∷ ns ↦ decimal (maximum n ns + 1)
]

-- One round of the loop, on the keys of `existing` and `active_seen`.
unfoldable pub normalise_loop : ℕ → List Text → Bool → List Request → List Item
unfolding normalise_schedule next_schedule_id
normalise_loop now_ms existing active_seen [] = []
normalise_loop now_ms existing active_seen (raw ∷ rest) =
    let schedule_id = or_text raw.id (next_schedule_id existing now_ms) in
    let item = normalise_schedule raw schedule_id in
    record item { enabled = item.enabled && not active_seen }
    ∷ normalise_loop now_ms (schedule_id ∷ existing) (if item.enabled then true else active_seen)
        rest

unfoldable pub normalise_schedule_list : ℕ → List Request → List Item
unfolding normalise_loop
normalise_schedule_list now_ms schedules = normalise_loop now_ms [] false schedules
