-- ===== src/Firmware/Consistency.antt =====
-- What the fields of a firmware update say together, and that it holds after every operation of
-- givEVC-ocppv2/app/ocpp/coordinator.py on the update of a live charger.
use giv_evc_ocppv.Base.{
  ℕ, Bool, true, false, ◌&&◌, not, Option, none, some, ◌≡◌, refl, Text, arith, Bool-cases,
  Option-cases, if◌then◌else◌, ◌||◌, inl, inr, [], ◌==◌, text_comparable, codes,
}
use giv_evc_ocppv.Firmware.Names.{
  Kind, connect, request_received, control_frame_sent, control_frame_received, chunk_sent,
  checksum_ok, checksum_missing, checksum_mismatch, file_sent, file_not_found, chunk_read_error,
  client_error, socket_timeout, disconnect, download_started, overlapping_request,
  transfer_cancelled, unlisted, or_else, or_default,
}
use giv_evc_ocppv.Firmware.State.{
  Phase, idle, requested, downloading, downloaded, installing, installed, failed, cancelled, Update,
  Progress, is_final, is_applying, mark_download_complete, mark_installing_after_disconnect,
}
use giv_evc_ocppv.Firmware.Events.{
  Event, Surroundings, advance, note_event, connection_closes, transfer_fails, transfer_stops,
  chunk_acknowledged, chunk_goes_out, metadata_sent, request_arrives, download_begins,
  is_cancellation, is_nonzero, no_error_before, all_sent,
}

abbrev pub is_some {ℓ} : {A : Type ℓ} → Option A → Bool
is_some none = false
is_some (some x) = true

-- The progress that a request writes before its update starts or when its call is late, and the one
-- of a status that is none of the known ones.
unfoldable pub is_notice : Progress → Bool
is_notice p =
    let event = or_default p.event [] in
    event == codes "preparing"
    || (event == codes "update_requested" || event == codes "firmware_status")

-- The progress is not active, but for such a notice.
abbrev pub at_rest : Progress → Bool
at_rest p = not p.active || is_notice p

-- In a final phase the progress is at rest and the update says when and why it ended; an installing
-- charger has a deadline.
unfoldable pub consistent_at : Phase → Update → Bool
unfolding is_notice
consistent_at installing u = is_some u.expected_reconnect_by
consistent_at installed u =
    at_rest u.progress && (not (is_some u.failure_reason) && is_some u.completed_at)
consistent_at failed u = at_rest u.progress && is_some u.failure_reason
consistent_at cancelled u =
    at_rest u.progress && (is_some u.failure_reason && is_some u.completed_at)
consistent_at _ u = true

unfoldable pub IsConsistent : Update → Type 0
unfolding consistent_at
IsConsistent u = consistent_at u.phase u ≡ true

-- Progress of any kind is consistent with a phase that is not final.
pub consistent_at-progress :
    (phase : Phase) (u : Update) (p : Progress)
    → is_final phase ≡ false
    → consistent_at phase u ≡ true
    → consistent_at phase (record u { progress = p }) ≡ true
unfolding consistent_at
consistent_at-progress idle u p running h = refl
consistent_at-progress requested u p running h = refl
consistent_at-progress downloading u p running h = refl
consistent_at-progress downloaded u p running h = refl
consistent_at-progress installing u p running h = h
consistent_at-progress installed u p running h = cc
consistent_at-progress failed u p running h = cc
consistent_at-progress cancelled u p running h = cc

-- A notice is consistent with every phase, whichever file is selected.
pub consistent_at-notice :
    (phase : Phase) (u : Update) (file : Option Text) (p : Progress)
    → is_notice p ≡ true
    → consistent_at phase u ≡ true
    → consistent_at phase (record u { selected_file = file; progress = p }) ≡ true
unfolding consistent_at
consistent_at-notice idle u file p same h = refl
consistent_at-notice requested u file p same h = refl
consistent_at-notice downloading u file p same h = refl
consistent_at-notice downloaded u file p same h = refl
consistent_at-notice installing u file p same h = h
consistent_at-notice installed u file p same h = ground arith
consistent_at-notice failed u file p same h = ground arith
consistent_at-notice cancelled u file p same h = ground arith

-- Neither the version nor the reported status matters.
pub consistent_at-version :
    (phase : Phase) (u : Update) (version status : Option Text)
    → consistent_at phase u ≡ true
    → consistent_at phase (record u { firmware_version = version; firmware_status = status }) ≡ true
unfolding consistent_at
consistent_at-version idle u version status h = h
consistent_at-version requested u version status h = h
consistent_at-version downloading u version status h = h
consistent_at-version downloaded u version status h = h
consistent_at-version installing u version status h = h
consistent_at-version installed u version status h = h
consistent_at-version failed u version status h = h
consistent_at-version cancelled u version status h = h

progress-IsConsistent :
    (u : Update) (p : Progress)
    → (is_final u.phase && true) ≡ false
    → IsConsistent u
    → IsConsistent (record u { progress = p })
unfolding IsConsistent
progress-IsConsistent u p running h = consistent_at-progress u.phase u p (ground arith) h

pub if-IsConsistent :
    (test : Bool) (u v : Update)
    → IsConsistent u
    → IsConsistent v
    → IsConsistent (if test then u else v)
if-IsConsistent true u v hu hv = hu
if-IsConsistent false u v hu hv = hv

mark_download_complete-IsConsistent :
    (now : ℕ) (filename : Option Text) (u : Update)
    → IsConsistent (mark_download_complete now filename u)
unfolding IsConsistent consistent_at mark_download_complete
mark_download_complete-IsConsistent now filename u = refl

pub mark_installing-IsConsistent :
    (now : ℕ) (u : Update) → IsConsistent u → IsConsistent (mark_installing_after_disconnect now u)
unfolding IsConsistent consistent_at mark_installing_after_disconnect
mark_installing-IsConsistent now u h = elim (Bool-cases (is_applying u.phase)) [
  | inl yes_applying ↦ simp yes_applying
  | inr not_applying ↦ simp not_applying h
]

transfer_fails-IsConsistent :
    (now : ℕ) (name : Text) (filename : Option Text) (e : Event) (u : Update)
    → IsConsistent (transfer_fails now name filename e u)
unfolding IsConsistent consistent_at transfer_fails
transfer_fails-IsConsistent now name filename e u = refl

note_event-IsConsistent :
    (now : ℕ) (name : Text) (filename : Option Text) (u : Update)
    → (is_final u.phase && true) ≡ false
    → IsConsistent u
    → IsConsistent (note_event now name filename u)
unfolding note_event
note_event-IsConsistent now name filename u running h = progress-IsConsistent u _ running h

connection_closes-IsConsistent :
    (now : ℕ) (name : Text) (filename : Option Text) (u : Update)
    → (is_final u.phase && true) ≡ false
    → IsConsistent u
    → IsConsistent (connection_closes now name filename u)
unfolding connection_closes
connection_closes-IsConsistent now name filename u running h =
    if-IsConsistent (is_applying u.phase || all_sent u.progress) _ _
      (mark_installing-IsConsistent now _ (
        if-IsConsistent (is_applying u.phase) _ _ h
          (mark_download_complete-IsConsistent now (or_else filename u.progress.filename) u)))
      (note_event-IsConsistent now name filename u running h)

acknowledged-IsConsistent :
    (env : Surroundings) (name : Text) (e : Event) (u : Update)
    → (is_final u.phase && true) ≡ false
    → IsConsistent u
    → IsConsistent (chunk_acknowledged env name e u)
unfolding chunk_acknowledged
acknowledged-IsConsistent env name e u running h = elim (Option-cases e.payload.frame_packsn) [
  | inl absent ↦ rw absent h
  | inr (packsn, present) ↦ rw present (progress-IsConsistent u _ running h)
]

pub advance-IsConsistent :
    (env : Surroundings) (name : Text) (filename : Option Text) (e : Event) (kind : Kind)
    (u : Update)
    → (is_final u.phase && not (is_cancellation kind)) ≡ false
    → IsConsistent u
    → IsConsistent (advance env name filename e kind u)
unfolding advance IsConsistent consistent_at download_begins request_arrives metadata_sent
    chunk_goes_out transfer_stops
advance-IsConsistent env name filename e download_started u running h =
    progress-IsConsistent u _ running h
advance-IsConsistent env name filename e request_received u running h =
    progress-IsConsistent u _ running h
advance-IsConsistent env name filename e control_frame_sent u running h =
    if-IsConsistent (is_nonzero e.payload.frame_packnum || is_nonzero e.payload.frame_filesize) _ _
      (progress-IsConsistent u _ running h) h
advance-IsConsistent env name filename e control_frame_received u running h =
    acknowledged-IsConsistent env name e u running h
advance-IsConsistent env name filename e chunk_sent u running h =
    progress-IsConsistent u _ running h
advance-IsConsistent env name filename e transfer_cancelled u running h = refl
advance-IsConsistent env name filename e checksum_ok u running h =
    mark_download_complete-IsConsistent env.now (or_else filename u.progress.filename) u
advance-IsConsistent env name filename e checksum_missing u running h =
    mark_download_complete-IsConsistent env.now (or_else filename u.progress.filename) u
advance-IsConsistent env name filename e file_sent u running h =
    if-IsConsistent (no_error_before u.progress) _ _
      (mark_download_complete-IsConsistent env.now (or_else filename u.progress.filename) u) h
advance-IsConsistent env name filename e disconnect u running h =
    connection_closes-IsConsistent env.now name filename u running h
advance-IsConsistent env name filename e file_not_found u running h =
    transfer_fails-IsConsistent env.now name filename e u
advance-IsConsistent env name filename e checksum_mismatch u running h =
    transfer_fails-IsConsistent env.now name filename e u
advance-IsConsistent env name filename e chunk_read_error u running h =
    transfer_fails-IsConsistent env.now name filename e u
advance-IsConsistent env name filename e client_error u running h =
    transfer_fails-IsConsistent env.now name filename e u
advance-IsConsistent env name filename e socket_timeout u running h =
    transfer_fails-IsConsistent env.now name filename e u
advance-IsConsistent env name filename e connect u running h =
    note_event-IsConsistent env.now name filename u running h
advance-IsConsistent env name filename e overlapping_request u running h =
    note_event-IsConsistent env.now name filename u running h
advance-IsConsistent env name filename e unlisted u running h =
    note_event-IsConsistent env.now name filename u running h
