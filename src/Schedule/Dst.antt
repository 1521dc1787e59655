-- ===== src/Schedule/Dst.antt =====
-- The correction of schedules when the local clock changes: `_async_repush_schedule`,
-- `async_dst_correction` and `async_force_repush_all_schedules` of
-- givEVC-ocppv2/app/ocpp/coordinator.py, and what `async_record_boot` does of it. The pushes to
-- different chargers run side by side; each touches the book of its own charger only.
mod Outcomes
mod Examples
use giv_evc_ocppv.Base.{
  ℕ, zero, suc, Bool, true, false, ◌&&◌, not, Option, none, some, List, [], ◌∷◌, map, if◌then◌else◌,
}
use giv_evc_ocppv.Schedule.Item.{Item}
use giv_evc_ocppv.Schedule.Book.{
  Book, CallResult, apply_accepted, set_dst_correction_pending, get_dst_correction_pending, persist,
  active_schedule,
}

-- An adopted charger: its book, whether it is connected, how the call to it ends, and what other
-- tasks do to its book during the call.
pub record Site : Type 0 where
  pub book : Book
  pub online : Bool
  pub reply : CallResult
  pub meanwhile : Book → Book

unfoldable pub has_active : Book → Bool
unfolding active_schedule
has_active b = elim (active_schedule b.schedules) [ none ↦ false | some item ↦ true ]

-- `_async_repush_schedule`: whether it succeeded, and the book.
unfoldable pub repush_schedule : CallResult → (Book → Book) → Book → Bool × Book
unfolding has_active set_dst_correction_pending
repush_schedule reply meanwhile b =
    if has_active b
    then (if apply_accepted reply
        then (true, set_dst_correction_pending false (meanwhile b))
        else (false, meanwhile b))
    else (false, set_dst_correction_pending false b)

-- What a correction does to one charger: nothing without an active schedule, the flag when it is
-- offline, a push when it is online.
unfoldable pub correct_book : Site → Book
unfolding repush_schedule
correct_book site =
    if has_active site.book
    then (if site.online
        then (repush_schedule site.reply site.meanwhile site.book).1
        else set_dst_correction_pending true site.book)
    else site.book

abbrev pub is_online_active : Site → Bool
is_online_active site = has_active site.book && site.online

abbrev pub is_offline_active : Site → Bool
is_offline_active site = has_active site.book && not site.online

abbrev pub succeeds : Site → Bool
succeeds site = is_online_active site && (repush_schedule site.reply site.meanwhile site.book).0

abbrev pub count : (Site → Bool) → List Site → ℕ
count test [] = 0
count test (site ∷ sites) = let rest = count test sites in if test site then suc rest else rest

-- `failed` counts what is online and did not succeed.
abbrev pub fails : Site → Bool
fails site = is_online_active site && not (repush_schedule site.reply site.meanwhile site.book).0

pub record Report : Type 0 where
  pub online_pushed : ℕ
  pub succeeded : ℕ
  pub failed : ℕ
  pub offline_flagged : ℕ

unfoldable pub dst_correction : List Site → Report × List Book
unfolding correct_book repush_schedule
dst_correction sites = (
  record {
    online_pushed = count is_online_active sites;
    succeeded = count succeeds sites;
    failed = count fails sites;
    offline_flagged = count is_offline_active sites;
  },
  map correct_book sites,
)

-- What `async_record_boot` does to the book of a charger that comes back, and whether it schedules
-- a push: it makes the charger live, stores its state, and then asks for the flag.
unfoldable pub boot_book : Book → Bool × Book
unfolding persist get_dst_correction_pending
boot_book b =
    let stored = persist b.schedules (record b { live = true }) in
    (get_dst_correction_pending stored, stored)
