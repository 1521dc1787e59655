-- ===== src/Schedule/Dst/Outcomes.antt =====
-- What a correction of the schedules in givEVC-ocppv2/app/ocpp/coordinator.py comes to for each
-- charger, and what is left of it when an offline charger comes back.
use giv_evc_ocppv.Base.{
  ◌+◌, true, false, List, [], ◌∷◌, ◌≡◌, refl, arith, Bool-cases, inl, inr, if◌then◌else◌,
}
use giv_evc_ocppv.Schedule.Book.{
  apply_accepted, set_dst_correction_pending, get_dst_correction_pending, persist,
}
use giv_evc_ocppv.Schedule.Dst.{
  Site, has_active, repush_schedule, correct_book, is_online_active, is_offline_active, succeeds,
  fails, count, dst_correction, boot_book,
}

count-split :
    (sites : List Site) → count is_online_active sites ≡ count succeeds sites + count fails sites
count-split [] = refl
count-split (site ∷ sites) = ground (arith, count-split sites)

count-active :
    (sites : List Site)
    → count (λ site. has_active site.book) sites
      ≡ count is_online_active sites + count is_offline_active sites
count-active [] = refl
count-active (site ∷ sites) = ground (arith, count-active sites)

-- The report of a correction adds up: what was pushed has succeeded or failed, and what was pushed
-- or flagged are the chargers with an active schedule.
pub dst_correction-adds_up :
    (sites : List Site)
    → (let report = (dst_correction sites).0 in
        (report.online_pushed ≡ report.succeeded + report.failed)
        × (count (λ site. has_active site.book) sites
            ≡ report.online_pushed + report.offline_flagged))
unfolding dst_correction
dst_correction-adds_up sites = (count-split sites, count-active sites)

-- An offline charger with an active schedule is flagged by a correction, and the flag is lost when
-- it boots, before anything is pushed.
pub flagged_charger-never_repushed :
    (site : Site)
    → is_offline_active site ≡ true
    → ((correct_book site).stored_pending ≡ true)
      × ((boot_book (correct_book site)).0 ≡ false)
      × ((boot_book (correct_book site)).1.stored_pending ≡ false)
unfolding correct_book boot_book set_dst_correction_pending get_dst_correction_pending persist
flagged_charger-never_repushed site h =
    let active : has_active site.book ≡ true = ground arith in
    let offline : site.online ≡ false = ground arith in rw (active, offline) (refl, refl, refl)

-- A push that is accepted leaves no flag; one that is not leaves what other tasks left.
pub repushed-flag :
    (site : Site)
    → is_online_active site ≡ true
    → (correct_book site).stored_pending
      ≡ (if apply_accepted site.reply then false else (site.meanwhile site.book).stored_pending)
unfolding correct_book repush_schedule set_dst_correction_pending
repushed-flag site h =
    let active : has_active site.book ≡ true = ground arith in
    let online : site.online ≡ true = ground arith in
    elim (Bool-cases (apply_accepted site.reply)) [
      | inl yes_accepted ↦ rw (active, online, yes_accepted) refl
      | inr refused ↦ rw (active, online, refused) refl
    ]
