-- ===== src/Firmware/Invariant.antt =====
-- Every operation of givEVC-ocppv2/app/ocpp/coordinator.py on the firmware update of a live charger
-- leaves a sound charger, so each charger that a run of them reaches is sound.
use giv_evc_ocppv.Base.{
  ℕ, Bool, true, false, ◌&&◌, not, Option, none, some, ◌≡◌, refl, Text, arith, Bool-cases, inl, inr,
  ◌⊎◌, if◌then◌else◌, [], ◌∷◌, strip, text_beq,
}
use giv_evc_ocppv.Firmware.Names.{Kind, is_retry, is_given}
use giv_evc_ocppv.Firmware.State.{
  Phase, Update, Charger, save, is_final, is_applying, mark_installing_after_disconnect,
  mark_download_complete,
}
use giv_evc_ocppv.Firmware.Session.{
  Reported, says_downloading, says_downloaded, says_installing, says_installed, says_failure,
  says_other, apply_reported, apply_firmware_ocpp_status, record_firmware_status, reported,
  is_result, mark_firmware_result_from_observed_version, record_boot, start_firmware_update_session,
  mark_installed_version, mark_other_version, clear_stale_request, awaits_version, before_download,
  same_key,
}
use giv_evc_ocppv.Firmware.Version.{firmware_version_key}
use giv_evc_ocppv.Firmware.Events.{
  Event, Surroundings, name_of, filename_of, event_kind, handle, record_firmware_transfer_event,
  advance, is_cancellation, is_disconnect,
}
use giv_evc_ocppv.Firmware.Commands.{
  CallEnd, replied, timed_out, broke, prepares, finish_update, cancel_firmware_update,
  stop_transfer, acknowledgement_late, request_fails, is_cancelled, is_downloading, is_transferring,
}
use giv_evc_ocppv.Firmware.Consistency.{
  IsConsistent, consistent_at, advance-IsConsistent, if-IsConsistent, consistent_at-notice,
  is_notice, consistent_at-version,
}

-- The update is consistent, and a final phase is the stored one.
pub record IsSound (c : Charger) : Type 0 where
  pub consistent : IsConsistent c.update
  pub durable : is_final c.update.phase ≡ true → c.stored.phase ≡ c.update.phase

save-IsSound : (u : Update) → IsConsistent u → IsSound (save u)
save-IsSound u h = record { consistent = h; durable = λ final. refl }

-- An update that is stored when it is final.
kept-IsSound :
    (test : Bool) (u : Update) (c : Charger)
    → IsConsistent u
    → (is_final u.phase ≡ true → test ≡ true ⊎ (c.stored.phase ≡ u.phase))
    → IsSound (if test then save u else record c { update = u })
kept-IsSound true u c h stored = save-IsSound u h
kept-IsSound false u c h stored = record {
  consistent = h;
  durable = λ final. elim (stored final) [ inl impossible ↦ cc | inr same ↦ same ];
}

closing-IsSound :
    (now : ℕ) (c : Charger)
    → is_applying c.update.phase ≡ true
    → IsSound c
    → IsSound (record c { update = mark_installing_after_disconnect now c.update })
unfolding mark_installing_after_disconnect IsConsistent consistent_at
closing-IsSound now c applying h = rw applying (record { consistent = refl; durable = λ final. cc })

handle-IsSound :
    (env : Surroundings) (name : Text) (filename : Option Text) (e : Event) (kind : Kind)
    (c : Charger)
    → IsSound c
    → IsSound (handle env name filename e kind c)
unfolding handle
handle-IsSound env name filename e kind c h =
    elim (Bool-cases (is_final c.update.phase && not (is_cancellation kind))) [
      | inl frozen ↦ rw frozen h
      | inr running ↦ rw running (elim (Bool-cases (is_applying c.update.phase && is_retry kind)) [
        | inl retry ↦ rw retry (elim (Bool-cases (is_disconnect kind)) [
          | inl closing ↦ rw closing (closing-IsSound env.now c (ground arith) h)
          | inr noted ↦ rw noted h
        ])
        | inr fresh ↦ rw fresh (
            kept-IsSound (is_final (advance env name filename e kind c.update).phase)
              (advance env name filename e kind c.update) c
              (advance-IsConsistent env name filename e kind c.update running h.consistent) inl)
      ])
    ]

-- Whatever the firmware server reports, a sound charger stays sound.
pub record_firmware_transfer_event-IsSound :
    (env : Surroundings) (e : Event) (c : Charger)
    → IsSound c
    → IsSound (record_firmware_transfer_event env e c)
unfolding record_firmware_transfer_event
record_firmware_transfer_event-IsSound env e c h =
    handle-IsSound env (name_of e) (filename_of e) e (event_kind e) c h

apply_reported-IsConsistent :
    (now : ℕ) (status : Text) (report : Reported) (u : Update)
    → IsConsistent u
    → IsConsistent (apply_reported now status report u)
unfolding apply_reported IsConsistent consistent_at mark_download_complete is_notice text_beq
apply_reported-IsConsistent now status says_downloading u h = refl
apply_reported-IsConsistent now status says_downloaded u h = refl
apply_reported-IsConsistent now status says_installing u h = refl
apply_reported-IsConsistent now status says_installed u h = refl
apply_reported-IsConsistent now status says_failure u h = refl
apply_reported-IsConsistent now status says_other u h =
    consistent_at-notice u.phase u u.selected_file (apply_reported now status says_other u).progress
      refl h

apply_reported-stored :
    (now : ℕ) (status : Text) (report : Reported) (u : Update) (stored : Phase)
    → (is_final u.phase ≡ true → stored ≡ u.phase)
    → is_final (apply_reported now status report u).phase ≡ true
    → (is_result (apply_reported now status report u).phase ≡ true)
      ⊎ (stored ≡ (apply_reported now status report u).phase)
unfolding apply_reported mark_download_complete
apply_reported-stored now status says_downloading u stored durable final = cc
apply_reported-stored now status says_downloaded u stored durable final = cc
apply_reported-stored now status says_installing u stored durable final = cc
apply_reported-stored now status says_installed u stored durable final = inl refl
apply_reported-stored now status says_failure u stored durable final = inl refl
apply_reported-stored now status says_other u stored durable final = inr (durable final)

same_update-IsSound :
    (c : Charger) → IsSound c → IsSound (if is_result c.update.phase then save c.update else c)
same_update-IsSound c h =
    kept-IsSound (is_result c.update.phase) c.update c h.consistent (λ final. inr (h.durable final))

-- Whatever the charger reports of its update, a sound charger stays sound.
pub record_firmware_status-IsSound :
    (now : ℕ) (status : Option Text) (c : Charger)
    → IsSound c
    → IsSound (record_firmware_status now status c)
unfolding record_firmware_status apply_firmware_ocpp_status IsConsistent
record_firmware_status-IsSound now none c h = same_update-IsSound c h
record_firmware_status-IsSound now (some []) c h = same_update-IsSound c h
record_firmware_status-IsSound now (some (x ∷ xs)) c h =
    let normalized = strip (x ∷ xs) in
    let u = record c.update { firmware_status = some normalized } in
    let v = apply_reported now normalized (reported normalized) u in
    kept-IsSound (is_result v.phase) v c
      (apply_reported-IsConsistent now normalized (reported normalized) u
        (consistent_at-version c.update.phase c.update _ _ h.consistent))
      (apply_reported-stored now normalized (reported normalized) u c.stored.phase h.durable)

mark_result-IsConsistent :
    (now : ℕ) (u : Update)
    → IsConsistent u
    → IsConsistent (mark_firmware_result_from_observed_version now u)
unfolding mark_firmware_result_from_observed_version IsConsistent consistent_at
    mark_installed_version mark_other_version clear_stale_request
mark_result-IsConsistent now u h =
    if-IsConsistent (awaits_version u.phase) _ _
      (if-IsConsistent (is_given u.target_version && is_given u.firmware_version) _ _
        (if-IsConsistent
          (same_key (firmware_version_key u.target_version)
            (firmware_version_key u.firmware_version))
          (mark_installed_version now u) (mark_other_version now u) refl refl)
        (if-IsConsistent (before_download u.phase) (clear_stale_request u) u refl h))
      h

-- A boot leaves a sound charger.
pub record_boot-IsSound :
    (now : ℕ) (version : Option Text) (c : Charger)
    → IsSound c
    → IsSound (record_boot now version c)
unfolding record_boot IsConsistent
record_boot-IsSound now version c h =
    let u = record c.update { firmware_version = version } in
    save-IsSound (mark_firmware_result_from_observed_version now u) (
      mark_result-IsConsistent now u (
        consistent_at-version c.update.phase c.update version c.update.firmware_status
          h.consistent))

-- Cancelling, whether it is refused or not, leaves a sound charger.
pub cancel_firmware_update-IsSound :
    (now : ℕ) (reason : Text) (c : Charger)
    → IsSound c
    → IsSound (cancel_firmware_update now reason c).1
unfolding cancel_firmware_update stop_transfer IsConsistent consistent_at
cancel_firmware_update-IsSound now reason c h = elim (Bool-cases (is_cancelled c.update.phase)) [
  | inl done ↦ rw done h
  | inr live ↦
      rw live
        (elim (Bool-cases
          (not (is_downloading c.update.phase) && not (is_transferring c.update.progress))) [
            | inl nothing ↦ rw nothing h
            | inr active ↦ rw active (save-IsSound (stop_transfer now reason c.update) refl)
          ])
]

pub start-IsSound :
    (now : ℕ) (location : Text) (u : Update)
    → IsSound (save (start_firmware_update_session now location u))
unfolding start_firmware_update_session IsConsistent consistent_at
start-IsSound now location u = save-IsSound (start_firmware_update_session now location u) refl

pub finish_update-IsSound :
    (later : ℕ) (call_end : CallEnd) (c : Charger)
    → IsSound c
    → IsSound (finish_update later call_end c).1
unfolding finish_update acknowledgement_late request_fails IsConsistent consistent_at is_notice
    text_beq
finish_update-IsSound later replied c h = save-IsSound c.update h.consistent
finish_update-IsSound later timed_out c h = save-IsSound (acknowledgement_late later c.update) (
    consistent_at-notice c.update.phase c.update c.update.selected_file
      (acknowledgement_late later c.update).progress refl h.consistent)
finish_update-IsSound later (broke reason) c h =
    save-IsSound (request_fails later reason c.update) refl

-- Preparing an installation leaves a sound charger.
pub prepares-IsSound :
    (now : ℕ) (filename : Text) (c : Charger)
    → IsSound c
    → IsSound (save (prepares now filename c.update))
unfolding prepares IsConsistent is_notice text_beq
prepares-IsSound now filename c h = save-IsSound (prepares now filename c.update) (
    consistent_at-notice c.update.phase c.update (some filename)
      (prepares now filename c.update).progress refl h.consistent)
