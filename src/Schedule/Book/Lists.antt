-- ===== src/Schedule/Book/Lists.antt =====
-- The loops over `state.charging_schedule` in givEVC-ocppv2/app/ocpp/coordinator.py.
use giv_evc_ocppv.Base.{
  Bool, false, Option, none, some, List, [], ◌∷◌, if◌then◌else◌, ◌==◌, Text, text_comparable, find,
  filter, any, not,
}
use giv_evc_ocppv.Schedule.Item.{Item}

-- The first schedule with an identifier.
unfoldable pub find_schedule : Text → List Item → Option Item
find_schedule schedule_id items = find (λ item. item.id == schedule_id) items

-- The value of an identifier in the dict that a comprehension makes: the last one.
unfoldable pub last_schedule : Text → List Item → Option Item
last_schedule schedule_id [] = none
last_schedule schedule_id (item ∷ items) = elim (last_schedule schedule_id items) [
  | none ↦ if item.id == schedule_id then some item else none
  | some later ↦ some later
]

unfoldable pub has_schedule : Text → List Item → Bool
has_schedule schedule_id items = any (λ item. item.id == schedule_id) items

unfoldable pub replace_schedule : Item → List Item → List Item
replace_schedule new [] = []
replace_schedule new (item ∷ items) =
    (if item.id == new.id then new else item) ∷ replace_schedule new items

unfoldable pub append_schedule : Item → List Item → List Item
append_schedule new [] = new ∷ []
append_schedule new (item ∷ items) = item ∷ append_schedule new items

-- The loop that fills `updated`, with the append where nothing was replaced.
unfoldable pub put_schedule : Item → List Item → List Item
unfolding replace_schedule append_schedule has_schedule
put_schedule new items =
    if has_schedule new.id items then replace_schedule new items else append_schedule new items

-- The loop that disables every other schedule.
unfoldable pub disable_others : Text → List Item → List Item
disable_others schedule_id [] = []
disable_others schedule_id (item ∷ items) =
    (if item.id == schedule_id then item else record item { enabled = false })
    ∷ disable_others schedule_id items

-- The loop of `async_set_charging_schedule_enabled`.
unfoldable pub set_enabled_in : Text → Bool → List Item → List Item
set_enabled_in schedule_id enabled [] = []
set_enabled_in schedule_id enabled (item ∷ items) =
    (if item.id == schedule_id
      then record item { enabled = enabled }
      else if enabled
      then record item { enabled = false }
      else item)
    ∷ set_enabled_in schedule_id enabled items

unfoldable pub without_schedule : Text → List Item → List Item
without_schedule schedule_id items = filter (λ item. not (item.id == schedule_id)) items

-- `_active_schedule_for_charge_point`: the first enabled schedule.
unfoldable pub active_schedule : List Item → Option Item
active_schedule items = find (λ item. item.enabled) items
