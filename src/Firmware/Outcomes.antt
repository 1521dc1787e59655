-- ===== src/Firmware/Outcomes.antt =====
-- What the requests, cancellations and restarts of a firmware update come to in
-- givEVC-ocppv2/app/ocpp/coordinator.py.
use giv_evc_ocppv.Base.{
  Bool, none, ◌∙◌, if◌then◌else◌, ℕ, true, false, ◌&&◌, not, Option, List, [], ◌∷◌, ◌≡◌, ◌≢◌, refl,
  ap, Text, arith, All, Bool-cases, inl, inr, ◌⊎◌, nat_comparable,
}
use giv_evc_ocppv.Firmware.Names.{is_given, path_name}
use giv_evc_ocppv.Firmware.State.{
  Update, no_progress, Phase, installed, failed, cancelled, Charger, save, is_final,
  firmware_update_in_progress, idle, requested, downloading, downloaded, installing,
}
use giv_evc_ocppv.Firmware.Version.{firmware_version_key}
use giv_evc_ocppv.Firmware.Session.{
  mark_firmware_result_from_observed_version, mark_installed_version, mark_other_version,
  clear_stale_request, same_key, awaits_version, before_download, record_boot,
}
use giv_evc_ocppv.Firmware.Events.{
  Event, Surroundings, record_firmware_transfer_event, handle, event_kind, is_cancellation,
}
use giv_evc_ocppv.Firmware.Commands.{
  CallEnd, Outcome, accepted, already_in_progress, nothing_to_cancel, unknown_file, no_charger,
  no_host, Conditions, prepares, fetch_and_update, install_firmware_file, update_firmware,
  cancel_firmware_update, stop_transfer, is_cancelled, is_downloading, is_transferring,
}
use giv_evc_ocppv.Firmware.Transfer.{replay}

same_key_sound : (a b : List ℕ) → same_key a b ≡ true → a ≡ b
unfolding same_key
same_key_sound [] [] h = refl
same_key_sound [] (y ∷ ys) h = cc
same_key_sound (x ∷ xs) [] h = cc
same_key_sound (x ∷ xs) (y ∷ ys) h = ground (arith, same_key_sound xs ys)

same_key_refl : (a : List ℕ) → same_key a a ≡ true
unfolding same_key
same_key_refl [] = refl
same_key_refl (x ∷ xs) = ground (arith, same_key_refl xs)

same_key_of_eq : (a b : List ℕ) → a ≡ b → same_key a b ≡ true
same_key_of_eq a b e = rw e (same_key_refl b)

awaits-in_progress :
    (phase : Phase) → firmware_update_in_progress phase ≡ true → awaits_version phase ≡ true
unfolding firmware_update_in_progress
awaits-in_progress requested h = refl
awaits-in_progress downloading h = refl
awaits-in_progress downloaded h = refl
awaits-in_progress installing h = refl
awaits-in_progress idle h = cc
awaits-in_progress installed h = cc
awaits-in_progress failed h = cc
awaits-in_progress cancelled h = cc

-- A charger that boots with a known version during an update with a known target ends the update:
-- it is installed when the versions have the same numbers and failed when not, and that is stored.
pub record_boot-ends_update :
    (now : ℕ) (version : Option Text) (c : Charger)
    → firmware_update_in_progress c.update.phase ≡ true
    → is_given c.update.target_version ≡ true
    → is_given version ≡ true
    → (let d = record_boot now version c in
        (((firmware_version_key c.update.target_version ≡ firmware_version_key version)
            × (d.update.phase ≡ installed))
          ⊎ ((firmware_version_key c.update.target_version ≢ firmware_version_key version)
              × (d.update.phase ≡ failed)))
        × (firmware_update_in_progress d.update.phase ≡ false)
        × (d.stored.phase ≡ d.update.phase))
unfolding record_boot mark_firmware_result_from_observed_version mark_installed_version
    mark_other_version firmware_update_in_progress
record_boot-ends_update now version c running target known =
    let meant = firmware_version_key c.update.target_version in
    let found = firmware_version_key version in
    rw (awaits-in_progress c.update.phase running, target, known)
      (elim (Bool-cases (same_key meant found)) [
        | inl agree ↦ rw agree (inl (same_key_sound meant found agree, refl), refl, refl)
        | inr differ ↦ rw differ (inr ((λ e. cc (same_key_of_eq meant found e)), refl), refl, refl)
      ])

-- A charger that boots before its download is complete is free for another update, whatever it
-- says of its version.
pub record_boot-frees_request :
    (now : ℕ) (version : Option Text) (c : Charger)
    → before_download c.update.phase ≡ true
    → firmware_update_in_progress (record_boot now version c).update.phase ≡ false
unfolding record_boot mark_firmware_result_from_observed_version mark_installed_version
    mark_other_version clear_stale_request firmware_update_in_progress
record_boot-frees_request now version c early = ground arith

update_firmware-refused :
    (now : ℕ) (location : Text) (later : ℕ) (call_end : CallEnd) (meanwhile : Charger → Charger)
    (c : Charger)
    → firmware_update_in_progress c.update.phase ≡ true
    → update_firmware now location later call_end meanwhile c ≡ (already_in_progress, c)
unfolding update_firmware
update_firmware-refused now location later call_end meanwhile c running = rw running refl

-- An update but for the file that is selected and the progress that is shown.
abbrev pub course : Update → Update
course u = record u { selected_file = none; progress = no_progress }

-- A request that has not started an update, and has left the course of the one there is.
abbrev KeepsCourse : Charger → Outcome × Charger → Type 0
KeepsCourse c (outcome, d) = (outcome ≢ accepted) × (course d.update ≡ course c.update)

fetch-KeepsCourse :
    (fetched : Bool) (fetching : Charger → Charger) (begins : ℕ) (location : Text) (later : ℕ)
    (call_end : CallEnd) (meanwhile : Charger → Charger) (c : Charger)
    → firmware_update_in_progress c.update.phase ≡ true
    → course (fetching c).update ≡ course c.update
    → KeepsCourse c (fetch_and_update fetched fetching begins location later call_end meanwhile c)
unfolding fetch_and_update
fetch-KeepsCourse false fetching begins location later call_end meanwhile c running kept =
    ((λ e. cc), kept)
fetch-KeepsCourse true fetching begins location later call_end meanwhile c running kept =
    let same : (fetching c).update.phase ≡ c.update.phase = ap (λ (u : Update). u.phase) kept in
    let still : firmware_update_in_progress (fetching c).update.phase ≡ true =
      ap firmware_update_in_progress same ∙ running in
    rw (update_firmware-refused begins location later call_end meanwhile (fetching c) still)
      ((λ e. cc), kept)

guards-KeepsCourse :
    (listed connected hosted : Bool) (c : Charger) (answer : Outcome × Charger)
    → KeepsCourse c answer
    → KeepsCourse c (
        if not listed
        then (unknown_file, c)
        else if not connected
        then (no_charger, c)
        else if not hosted
        then (no_host, c)
        else answer)
guards-KeepsCourse false connected hosted c answer done = ((λ e. cc), refl)
guards-KeepsCourse true false hosted c answer done = ((λ e. cc), refl)
guards-KeepsCourse true true false c answer done = ((λ e. cc), refl)
guards-KeepsCourse true true true c answer done = done

-- A request for an installation while an update is in progress starts no other, however it ends: the
-- phase, the target, the moments and everything else of the update are as before, but for the selected
-- file and the progress that is shown, if other tasks leave the same alone while the file is downloaded.
pub install_firmware_file-refused :
    (now : ℕ) (filename : Text) (found : Conditions) (fetching : Charger → Charger) (begins : ℕ)
    (location : Text) (later : ℕ) (call_end : CallEnd) (meanwhile : Charger → Charger) (c : Charger)
    → firmware_update_in_progress c.update.phase ≡ true
    → ((d : Charger) → course (fetching d).update ≡ course d.update)
    → (let r =
          install_firmware_file now filename found fetching begins location later call_end meanwhile
            c in
        (r.0 ≢ accepted) × (course r.1.update ≡ course c.update))
unfolding install_firmware_file prepares
install_firmware_file-refused now filename found fetching begins location later call_end meanwhile c
      running quiet =
    let prepared = save (prepares now (path_name filename) c.update) in
    guards-KeepsCourse found.listed found.connected found.hosted c _ (
      fetch-KeepsCourse found.fetched fetching begins location later call_end meanwhile prepared
        running (quiet prepared))

-- Whatever comes after the end of an update but a cancellation is dropped.
replay-final :
    (events : List (Surroundings × Event)) (c : Charger)
    → is_final c.update.phase ≡ true
    → All (λ e. is_cancellation (event_kind e.1) ≡ false) events
    → replay events c ≡ c
unfolding record_firmware_transfer_event handle
replay-final [] c final others = refl
replay-final ((env, e) ∷ rest) c final others =
    rw (final, others.0) (replay-final rest c final others.1)

cancelled-ended :
    (phase : Phase)
    → is_cancelled phase ≡ true
    → (is_final phase ≡ true) × (firmware_update_in_progress phase ≡ false)
unfolding firmware_update_in_progress
cancelled-ended cancelled h = (refl, refl)
cancelled-ended idle h = cc
cancelled-ended requested h = cc
cancelled-ended downloading h = cc
cancelled-ended downloaded h = cc
cancelled-ended installing h = cc
cancelled-ended installed h = cc
cancelled-ended failed h = cc

-- A cancellation either finds nothing to cancel and changes nothing, or the update is cancelled,
-- another may be requested, and no later event of the transfer but a cancellation changes it.
pub cancel_firmware_update-sticks :
    (now : ℕ) (reason : Text) (events : List (Surroundings × Event)) (c : Charger)
    → All (λ e. is_cancellation (event_kind e.1) ≡ false) events
    → (let r = cancel_firmware_update now reason c in
        (r ≡ (nothing_to_cancel, c))
        ⊎ ((r.0 ≡ accepted)
            × (is_cancelled r.1.update.phase ≡ true)
            × (firmware_update_in_progress r.1.update.phase ≡ false)
            × (replay events r.1 ≡ r.1)))
unfolding cancel_firmware_update stop_transfer firmware_update_in_progress
cancel_firmware_update-sticks now reason events c others =
    elim (Bool-cases (is_cancelled c.update.phase)) [
      | inl done ↦
          let ended = cancelled-ended c.update.phase done in
          rw done (inr (refl, done, ended.1, replay-final events c ended.0 others))
      | inr live ↦
          rw live
            (elim (Bool-cases
              (not (is_downloading c.update.phase) && not (is_transferring c.update.progress))) [
                | inl nothing ↦ rw nothing (inl refl)
                | inr active ↦ rw active (
                    inr (
                      refl,
                      refl,
                      refl,
                      replay-final events (save (stop_transfer now reason c.update)) refl others,
                    ))
              ])
    ]
