-- ===== src/Schedule/Book/Invariant.antt =====
-- Where the operations of other tasks keep it so, the identifiers of a charger's schedules stay unique and at most one
-- schedule is enabled.
use giv_evc_ocppv.Base.{
  ℕ, Bool, true, false, Option, none, some, List, if◌then◌else◌, ◌==◌, Text, text_comparable, arith,
  length, map, nat_comparable,
}
use giv_evc_ocppv.Schedule.Item.{Request, Item, normalise_schedule, next_schedule_id, or_text}
use giv_evc_ocppv.Schedule.Book.{
  Book, CallResult, Result, save_charging_schedule, set_charging_schedule_enabled,
  delete_charging_schedule, finish_save, finish_set_enabled, finish_delete, held_schedules,
  set_dst_correction_pending, apply_accepted, clear_accepted,
}
use giv_evc_ocppv.Schedule.Book.Lists.{
  put_schedule, disable_others, without_schedule, find_schedule, last_schedule,
}
use giv_evc_ocppv.Schedule.Book.Counts.{count_id-Unique, disable_others-count}
use giv_evc_ocppv.Schedule.Book.Validity.{
  IsValid, disable_others-Unique, put_schedule-Unique, put_schedule-count, if-IsValid,
  set_enabled_in-IsValid, without_schedule-IsValid,
}

finish_save-IsValid :
    (item : Item) (items : List Item) (b : Book)
    → IsValid items
    → IsValid (finish_save item items b).1.schedules
unfolding finish_save
finish_save-IsValid item items b v =
    let updated = put_schedule item items in
    let unique = put_schedule-Unique item items v.unique in
    if-IsValid item.enabled (disable_others item.id updated) updated
      (λ e. record {
        unique = disable_others-Unique item.id updated unique;
        single =
            omega
              (arith, disable_others-count item.id updated, count_id-Unique item.id updated unique);
      })
      (λ e. record {
        unique = unique;
        single = omega (arith, put_schedule-count item items e, v.single);
      })

-- A call that returned left valid schedules behind.
abbrev LeavesValid : Result × Book → Type 0
LeavesValid (r, b) = IsValid b.schedules

choice :
    (c : Bool) (x y : Result × Book)
    → LeavesValid x
    → LeavesValid y
    → LeavesValid (if c then x else y)
choice true x y hx hy = hx
choice false x y hx hy = hy

found_choice :
    (o : Option Item) (x : Result × Book) (f : Item → Result × Book)
    → LeavesValid x
    → ((item : Item) → LeavesValid (f item))
    → LeavesValid (elim o [ none ↦ x | some item ↦ f item ])
found_choice none x f hx hf = hx
found_choice (some item) x f hx hf = hf item

finish_delete-IsValid :
    (key : Text) (items : List Item) (b : Book)
    → IsValid items
    → IsValid b.schedules
    → IsValid (finish_delete key items b).1.schedules
unfolding finish_delete
finish_delete-IsValid key items b v w =
    choice (length (without_schedule key items) == length items) _ _ w
      (without_schedule-IsValid key items v)

finish_set_enabled-IsValid :
    (key : Text) (enabled : Bool) (items : List Item) (b : Book)
    → IsValid items
    → IsValid (finish_set_enabled key enabled items b).1.schedules
unfolding finish_set_enabled
finish_set_enabled-IsValid key enabled items b v = set_enabled_in-IsValid key enabled items v

held-IsValid :
    (b after : Book)
    → IsValid b.schedules
    → IsValid after.schedules
    → IsValid (held_schedules b after)
unfolding held_schedules
held-IsValid b after v w = if-IsValid b.live after.schedules b.schedules (λ e. w) (λ e. v)

module _ (reply : CallResult) (meanwhile : Book → Book) (b : Book) (v : IsValid b.schedules)
    (w : IsValid (meanwhile b).schedules) where
  -- Where the identifiers of the schedules are unique and at most one is enabled, and what other tasks
  -- do during the call keeps it so, this is so after a save, however it ends.
  pub save_charging_schedule-IsValid :
      (schedule : Request) (now_ms : ℕ)
      → IsValid (save_charging_schedule schedule now_ms reply meanwhile b).1.schedules
  unfolding save_charging_schedule set_dst_correction_pending
  save_charging_schedule-IsValid schedule now_ms =
      let key = or_text schedule.id (next_schedule_id (map (λ item. item.id) b.schedules) now_ms) in
      let item = normalise_schedule schedule key in
      let after = set_dst_correction_pending false (meanwhile b) in
      let held = held-IsValid b (meanwhile b) v w in
      choice item.enabled _ _
        (choice (apply_accepted reply) _ _ (finish_save-IsValid item _ after held) w)
        (choice
          (elim (last_schedule key b.schedules) as (λ _. Bool) [
            | none ↦ false
            | some previous ↦ previous.enabled
          ])
          _ _ (choice (clear_accepted reply) _ _ (finish_save-IsValid item _ after held) w)
          (finish_save-IsValid item b.schedules b v))

  -- So does enabling or disabling one.
  pub set_charging_schedule_enabled-IsValid :
      (key : Text) (enabled : Bool)
      → IsValid (set_charging_schedule_enabled key enabled reply meanwhile b).1.schedules
  unfolding set_charging_schedule_enabled set_dst_correction_pending
  set_charging_schedule_enabled-IsValid key enabled =
      let after = set_dst_correction_pending false (meanwhile b) in
      let held = held-IsValid b (meanwhile b) v w in
      found_choice (find_schedule key b.schedules) _ _ v (λ target.
        choice enabled _ _
          (choice (apply_accepted reply) _ _ (finish_set_enabled-IsValid key true _ after held) w)
          (choice target.enabled _ _
            (choice (clear_accepted reply) _ _ (finish_set_enabled-IsValid key false _ after held)
              w)
            (finish_set_enabled-IsValid key false b.schedules b v)))

  -- And so does deleting one.
  pub delete_charging_schedule-IsValid :
      (key : Text) → IsValid (delete_charging_schedule key reply meanwhile b).1.schedules
  unfolding delete_charging_schedule
  delete_charging_schedule-IsValid key =
      let held = held-IsValid b (meanwhile b) v w in
      found_choice (find_schedule key b.schedules) _ _ v (λ target.
        choice target.enabled _ _
          (choice (clear_accepted reply) _ _ (finish_delete-IsValid key _ (meanwhile b) held w) w)
          (finish_delete-IsValid key b.schedules b v v))
