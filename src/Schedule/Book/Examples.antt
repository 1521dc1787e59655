-- ===== src/Schedule/Book/Examples.antt =====
-- The theorems on the schedules of a charger at concrete books.
use giv_evc_ocppv.Base.{
  ◌≡◌, ◌⊎◌, refl, pos, true, false, none, some, [], ◌∷◌, arith, codes, text_comparable, text_beq,
}
use giv_evc_ocppv.Schedule.Item.{Day, Item, Request}
use giv_evc_ocppv.Schedule.Book.{
  Book, replied, err, call_failed, save_charging_schedule, set_charging_schedule_enabled,
  delete_charging_schedule,
}
use giv_evc_ocppv.Schedule.Book.Lists.{has_schedule}
use giv_evc_ocppv.Schedule.Book.Validity.{IsValid}
use giv_evc_ocppv.Schedule.Book.Invariant.{save_charging_schedule-IsValid}
use giv_evc_ocppv.Schedule.Book.Outcomes.{error_keeps_book}

abbrev night_item : Item
night_item = record {
  id = codes "1";
  name = codes "night";
  enabled = true;
  start = codes "00:30";
  stop = codes "04:30";
  days = Day.mon ∷ [];
  current_a = 32;
}

abbrev noon_item : Item
noon_item = record {
  id = codes "2";
  name = codes "noon";
  enabled = false;
  start = codes "11:00";
  stop = codes "13:00";
  days = Day.sun ∷ [];
  current_a = 6;
}

abbrev two_items : Book
two_items = record {
  live = true;
  schedules = night_item ∷ noon_item ∷ [];
  stored = [];
  stored_pending = true;
}

two_items-IsValid : IsValid two_items.schedules
unfolding has_schedule text_beq
two_items-IsValid = record { unique = (refl, (refl, tt)); single = omega arith }

abbrev quiet : Book → Book
quiet b = b

abbrev new_request : Request
new_request = record {
  id = none;
  name = some (codes "dawn");
  start = some (codes "5:00");
  start_time = none;
  stop = none;
  end_time = some (codes "06:45");
  days = [];
  current_a = some (pos 40);
  enabled = true;
}

save_charging_schedule-IsValid_example :
    IsValid
      (save_charging_schedule new_request 5
        (replied (codes "Accepted"))
        quiet
        two_items).1.schedules
save_charging_schedule-IsValid_example =
    save_charging_schedule-IsValid (replied (codes "Accepted")) quiet two_items two_items-IsValid
      two_items-IsValid new_request 5

error_keeps_book_example :
    ((save_charging_schedule new_request 5 (replied (codes "Rejected")) quiet two_items).0
        ≡ err call_failed
      → (save_charging_schedule new_request 5 (replied (codes "Rejected")) quiet two_items).1
        ≡ two_items)
    × ((set_charging_schedule_enabled
            (codes "2")
            true
            (replied (codes "Rejected"))
            quiet
            two_items).0
          ≡ err call_failed
        → ((set_charging_schedule_enabled
              (codes "2")
              true
              (replied (codes "Rejected"))
              quiet
              two_items).1
            ≡ two_items)
          ⊎ ((set_charging_schedule_enabled
                (codes "2")
                true
                (replied (codes "Rejected"))
                quiet
                two_items).1
              ≡ two_items))
    × ((delete_charging_schedule (codes "2") (replied (codes "Rejected")) quiet two_items).0
          ≡ err call_failed
        → ((delete_charging_schedule (codes "2") (replied (codes "Rejected")) quiet two_items).1
            ≡ two_items)
          ⊎ ((delete_charging_schedule (codes "2") (replied (codes "Rejected")) quiet two_items).1
              ≡ two_items))
error_keeps_book_example =
    error_keeps_book (replied (codes "Rejected")) quiet two_items new_request 5 (codes "2") true
      call_failed

abbrev dawn_item : Item
dawn_item = record {
  id = codes "3";
  name = codes "dawn";
  enabled = true;
  start = codes "05:00";
  stop = codes "06:45";
  days = Day.mon ∷ Day.tue ∷ Day.wed ∷ Day.thu ∷ Day.fri ∷ Day.sat ∷ Day.sun ∷ [];
  current_a = 32;
}
