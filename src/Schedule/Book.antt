-- ===== src/Schedule/Book.antt =====
-- The schedules of one charger: `async_save_charging_schedule`,
-- `async_set_charging_schedule_enabled`, `async_delete_charging_schedule` and what they call in
-- givEVC-ocppv2/app/ocpp/coordinator.py. A call to the charger is given by its result; `meanwhile`
-- is what other tasks do to the book while the call is awaited.
mod Lists
mod Counts
pub mod Validity
pub mod Invariant
pub mod Outcomes
mod Examples
unfoldable pub use Lists.{
  active_schedule, find_schedule, last_schedule, put_schedule, disable_others, set_enabled_in,
  without_schedule,
}
use giv_evc_ocppv.Base.{
  ℕ, Bool, true, false, ◌||◌, Option, none, some, List, [], ◌∷◌, map, if◌then◌else◌, ◌==◌,
  nat_comparable, length, Text, codes, strip, text_comparable,
}
use giv_evc_ocppv.Schedule.Item.{Request, Item, normalise_schedule, next_schedule_id, or_text}

-- What `_ocpp_call` comes back with: an exception, or a reply with its `status`.
pub data CallResult : Type 0 where
  raised : CallResult
  replied : Text → CallResult

pub data Error : Type 0 where
  unknown_schedule call_failed : Error

pub data Result : Type 0 where
  ok : Option Item → Result
  err : Error → Result

-- `_async_apply_charging_schedule` and `_async_clear_charging_schedule` return, or raise:
-- `_require_ocpp_status` with the statuses that each accepts.
unfoldable pub apply_accepted : CallResult → Bool
apply_accepted raised = false
apply_accepted (replied status) = strip status == codes "Accepted"

unfoldable pub clear_accepted : CallResult → Bool
clear_accepted raised = false
clear_accepted (replied status) =
    strip status == codes "Accepted" || strip status == codes "Unknown"

-- `live` says whether the charger has an entry in `_charger_states`; `schedules` is the list that
-- `state_for_charge_point` shows; the row of the state store has a list and the flag
-- `dst_correction_pending`.
pub record Book : Type 0 where
  pub live : Bool
  pub schedules : List Item
  pub stored : List Item
  pub stored_pending : Bool

-- `_set_dst_correction_pending`: the snapshot of a live charger is made from its state.
unfoldable pub set_dst_correction_pending : Bool → Book → Book
set_dst_correction_pending pending b = record b {
  stored = if b.live then b.schedules else b.stored;
  stored_pending = pending;
}

-- `_get_dst_correction_pending`: the snapshot of a live charger has no such key.
unfoldable pub get_dst_correction_pending : Book → Bool
get_dst_correction_pending b = if b.live then false else b.stored_pending

-- `state.charging_schedule = items` and `_persist_charge_point_state`: `_state_to_dict` writes no
-- `dst_correction_pending`.
unfoldable pub persist : List Item → Book → Book
persist items b = record b { schedules = items; stored = items; stored_pending = false }

-- `state.charging_schedule` after a call: the state object of a live charger is the one that other
-- tasks change, and that of another charger was read from the store before the call. A charger is
-- taken to keep, or to lack, its entry while the call is awaited.
unfoldable pub held_schedules : Book → Book → List Item
held_schedules before after = if before.live then after.schedules else before.schedules

-- The part of `async_save_charging_schedule` after the call, on the list that its state holds.
unfoldable pub finish_save : Item → List Item → Book → Result × Book
unfolding persist
finish_save item items b =
    let updated = put_schedule item items in
    (ok (some item), persist (if item.enabled then disable_others item.id updated else updated) b)

unfoldable pub save_charging_schedule :
    Request → ℕ → CallResult → (Book → Book) → Book → Result × Book
unfolding finish_save set_dst_correction_pending held_schedules
save_charging_schedule schedule now_ms reply meanwhile b =
    let schedule_id =
      or_text schedule.id (next_schedule_id (map (λ item. item.id) b.schedules) now_ms) in
    let item = normalise_schedule schedule schedule_id in
    let previous_enabled : Bool = elim (last_schedule schedule_id b.schedules) [
      | none ↦ false
      | some previous ↦ previous.enabled
    ] in
    if item.enabled
    then (if apply_accepted reply
        then finish_save item (held_schedules b (meanwhile b))
            (set_dst_correction_pending false (meanwhile b))
        else (err call_failed, meanwhile b))
    else if previous_enabled
    then (if clear_accepted reply
        then finish_save item (held_schedules b (meanwhile b))
            (set_dst_correction_pending false (meanwhile b))
        else (err call_failed, meanwhile b))
    else finish_save item b.schedules b

-- The part of `async_set_charging_schedule_enabled` after the call.
unfoldable pub finish_set_enabled : Text → Bool → List Item → Book → Result × Book
unfolding persist
finish_set_enabled schedule_id enabled items b =
    let updated = set_enabled_in schedule_id enabled items in
    (ok (last_schedule schedule_id updated), persist updated b)

unfoldable pub set_charging_schedule_enabled :
    Text → Bool → CallResult → (Book → Book) → Book → Result × Book
unfolding finish_set_enabled set_dst_correction_pending held_schedules
set_charging_schedule_enabled schedule_id enabled reply meanwhile b =
    elim (find_schedule schedule_id b.schedules) [
      | none ↦ (err unknown_schedule, b)
      | some target ↦
          if enabled
          then (if apply_accepted reply
              then finish_set_enabled schedule_id true (held_schedules b (meanwhile b))
                  (set_dst_correction_pending false (meanwhile b))
              else (err call_failed, meanwhile b))
          else if target.enabled
          then (if clear_accepted reply
              then finish_set_enabled schedule_id false (held_schedules b (meanwhile b))
                  (set_dst_correction_pending false (meanwhile b))
              else (err call_failed, meanwhile b))
          else finish_set_enabled schedule_id false b.schedules b
    ]

-- The part of `async_delete_charging_schedule` after the call.
unfoldable pub finish_delete : Text → List Item → Book → Result × Book
unfolding persist
finish_delete schedule_id items b =
    let remaining = without_schedule schedule_id items in
    if length remaining == length items
    then (err unknown_schedule, b)
    else (ok none, persist remaining b)

unfoldable pub delete_charging_schedule : Text → CallResult → (Book → Book) → Book → Result × Book
unfolding finish_delete held_schedules
delete_charging_schedule schedule_id reply meanwhile b =
    elim (find_schedule schedule_id b.schedules) [
      | none ↦ (err unknown_schedule, b)
      | some target ↦
          if target.enabled
          then (if clear_accepted reply
              then finish_delete schedule_id (held_schedules b (meanwhile b)) (meanwhile b)
              else (err call_failed, meanwhile b))
          else finish_delete schedule_id b.schedules b
    ]
