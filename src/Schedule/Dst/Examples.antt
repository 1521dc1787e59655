-- ===== src/Schedule/Dst/Examples.antt =====
-- The theorems on the correction of schedules at concrete chargers.
use giv_evc_ocppv.Base.{true, false, [], ◌∷◌, ◌≡◌, refl, codes}
use giv_evc_ocppv.Schedule.Item.{Day, Item}
use giv_evc_ocppv.Schedule.Book.{Book, replied, raised}
use giv_evc_ocppv.Schedule.Dst.{Site, has_active, correct_book, boot_book}
use giv_evc_ocppv.Schedule.Dst.Outcomes.{flagged_charger-never_repushed}

abbrev night_item : Item
night_item = record {
  id = codes "1";
  name = codes "night";
  enabled = true;
  start = codes "00:30";
  stop = codes "04:30";
  days = Day.mon ∷ [];
  current_a = 32;
}

abbrev night_book : Book
night_book = record {
  live = false;
  schedules = night_item ∷ [];
  stored = night_item ∷ [];
  stored_pending = false;
}

abbrev away : Site
away = record { book = night_book; online = false; reply = raised; meanwhile = λ b. b }

abbrev connected : Site
connected = record {
  book = record night_book { live = true };
  online = true;
  reply = replied (codes "Accepted");
  meanwhile = λ b. b;
}

flagged_charger-never_repushed_example :
    ((correct_book away).stored_pending ≡ true)
    × ((boot_book (correct_book away)).0 ≡ false)
    × ((boot_book (correct_book away)).1.stored_pending ≡ false)
unfolding has_active
flagged_charger-never_repushed_example = flagged_charger-never_repushed away refl
