-- ===== src/Firmware/Examples.antt =====
-- Runs of the firmware update, and the theorems on it at concrete chargers.
use giv_evc_ocppv.Base.{
  ℕ, ◌+◌, ◌*◌, ◌/◌, pos, negsuc, true, false, none, some, [], ◌∷◌, ◌≡◌, ◌≢◌, ◌⊎◌, inr, refl, ap,
  List, ◌++◌, codes, String, text_beq, strip,
}
use giv_evc_ocppv.Firmware.Names.{
  chunk_sent, disconnect, download_started, checksum_missing, file_sent, control_frame_sent,
  kind_of, path_name, title, spaced,
}
use giv_evc_ocppv.Firmware.State.{
  Phase, Update, Charger, no_progress, save, firmware_update_in_progress,
}
use giv_evc_ocppv.Firmware.Version.{
  derive_firmware_version_from_filename, firmware_version_key, compare_firmware_versions,
  firmware_action_for_version,
}
use giv_evc_ocppv.Firmware.Version.Order.{Precedes, SameNumbers, firmware_action-by_numbers}
use giv_evc_ocppv.Firmware.Session.{start_firmware_update_session, record_boot}
use giv_evc_ocppv.Firmware.Events.{
  Event, Surroundings, record_firmware_transfer_event, is_cancellation,
}
use giv_evc_ocppv.Firmware.Routing.{Registry}
use giv_evc_ocppv.Firmware.Commands.{
  accepted, nothing_to_cancel, replied, timed_out, Conditions, install_firmware_file,
  cancel_firmware_update, is_cancelled, stop_transfer,
}
use giv_evc_ocppv.Firmware.Consistency.{IsConsistent, consistent_at}
use giv_evc_ocppv.Firmware.Invariant.{IsSound}
use giv_evc_ocppv.Firmware.Runs.{start, after, begin, transfer_event, boot, reachable-IsSound}
use giv_evc_ocppv.Firmware.Transfer.{replay, ends_update, Kept, replay-applying-Kept}
use giv_evc_ocppv.Firmware.Completion.{Completed, in_transfer, total_bytes, transfer_completes}
use giv_evc_ocppv.Firmware.Outcomes.{
  record_boot-ends_update, course, install_firmware_file-refused, cancel_firmware_update-sticks,
}

a_path : path_name (codes "ftp://host/fw/./EVC_1_2_3.bin/") ≡ codes "EVC_1_2_3.bin"
unfolding path_name text_beq
a_path = refl

a_title : title (spaced (codes "overlapping_request2b")) ≡ codes "Overlapping Request2B"
unfolding title spaced
a_title = refl

a_version :
    derive_firmware_version_from_filename (some (codes "fw/GivEVC_AC_01_3.10.2.bin"))
    ≡ some (codes "AC_01_3.10.2")
unfolding derive_firmware_version_from_filename path_name text_beq
a_version = refl

a_key : firmware_version_key (some (codes " AC_01_v3.10.2")) ≡ 3 ∷ 10 ∷ 2 ∷ []
unfolding firmware_version_key strip
a_key = refl

a_comparison : compare_firmware_versions (some (codes "3.9")) (some (codes "3.10.2")) ≡ negsuc 0
unfolding compare_firmware_versions strip
a_comparison = refl

abbrev idle_update : Update
idle_update = record {
  phase = Phase.idle;
  firmware_version = some (codes "AC_01_3.9.0");
  firmware_status = none;
  selected_file = some (codes "EVC_AC_01_3.10.2.bin");
  target_file = none;
  target_version = none;
  previous_version = none;
  started_at = none;
  download_completed_at = none;
  install_started_at = none;
  expected_reconnect_by = none;
  completed_at = none;
  failure_reason = none;
  progress = no_progress;
}

abbrev idle_charger : Charger
idle_charger = save idle_update

abbrev in_phase : Phase → Charger
in_phase phase =
    save (record idle_update { phase = phase; target_version = some (codes "AC_01_3.10.2") })

abbrev event_named : String → Event
event_named name = record {
  event_name = some (codes name);
  event_filename = some (codes "EVC_AC_01_3.10.2.bin");
  requested_filename = none;
  event_remote = none;
  event_trace = none;
  event_error = none;
  chunk_count = 0;
  filesize = 0;
  event_chunk_size = 0;
  packsn = negsuc 0;
  bytes = 0;
  payload = record { frame_packnum = none; frame_filesize = none; frame_packsn = none };
}

abbrev at_moment : ℕ → Surroundings
at_moment now = record { now = now; percent_of = λ sent total. (2000 * sent + total) / (2 * total) }

abbrev download_of_two : Event
download_of_two = record (event_named "download_started") { chunk_count = 2; filesize = 5000 }

abbrev chunk_numbered : ℕ → ℕ → Event
chunk_numbered packsn bytes = record (event_named "chunk_sent") {
  packsn = pos packsn;
  bytes = bytes;
}

abbrev two_chunks : List (Surroundings × Event)
two_chunks = (at_moment 11, chunk_numbered 0 4096) ∷ (at_moment 12, chunk_numbered 1 904) ∷ []

chunk_sent_kind : kind_of (codes "chunk_sent") ≡ chunk_sent
unfolding kind_of text_beq
chunk_sent_kind = refl

disconnect_kind : kind_of (codes "disconnect") ≡ disconnect
unfolding kind_of text_beq
disconnect_kind = refl

download_kind : kind_of (codes "download_started") ≡ download_started
unfolding kind_of text_beq
download_kind = refl

checksum_kind : kind_of (codes "checksum_missing") ≡ checksum_missing
unfolding kind_of text_beq
checksum_kind = refl

sent_kind : kind_of (codes "file_sent") ≡ file_sent
unfolding kind_of text_beq
sent_kind = refl

frame_kind : kind_of (codes "control_frame_sent") ≡ control_frame_sent
unfolding kind_of text_beq
frame_kind = refl

abbrev two_sent : List (Surroundings × Event)
two_sent = (at_moment 10, event_named "control_frame_sent") ∷ two_chunks

two_sent_bytes : total_bytes two_sent ≡ 5000
unfolding total_bytes kind_of text_beq
two_sent_bytes = refl

transfer_completes_example : Completed 13 12 (total_bytes two_sent) (in_phase Phase.requested) (
    replay
      ((at_moment 10, download_of_two) ∷ two_sent
        ++ (at_moment 12, event_named "checksum_missing")
          ∷ (at_moment 12, event_named "file_sent")
          ∷ (at_moment 13, event_named "disconnect")
          ∷ [])
      (in_phase Phase.requested))
transfer_completes_example =
    transfer_completes (at_moment 10) (at_moment 12) (at_moment 12) (at_moment 13) download_of_two
      (event_named "checksum_missing") (event_named "file_sent") (event_named "disconnect") two_sent
      (in_phase Phase.requested) refl download_kind
      (
        ap in_transfer frame_kind,
        (ap in_transfer chunk_sent_kind, (ap in_transfer chunk_sent_kind, tt)),
      )
      (inr checksum_kind) sent_kind disconnect_kind

abbrev repeated : List (Surroundings × Event)
repeated =
    (at_moment 30, download_of_two)
    ∷ (at_moment 31, chunk_numbered 0 4096)
    ∷ (at_moment 32, event_named "disconnect")
    ∷ []

replay-applying-Kept_example :
    Kept (in_phase Phase.downloaded) (replay repeated (in_phase Phase.downloaded))
replay-applying-Kept_example = replay-applying-Kept repeated (in_phase Phase.downloaded) refl (
  ap ends_update download_kind,
  (ap ends_update chunk_sent_kind, (ap ends_update disconnect_kind, tt)),
)

idle-IsSound : IsSound idle_charger
unfolding IsConsistent consistent_at
idle-IsSound = record { consistent = refl; durable = λ final. refl }

abbrev begun : Charger
begun = save (start_firmware_update_session 5 (codes "ftp://host/EVC_AC_01_3.10.2.bin") idle_update)

reachable-IsSound_example : IsSound (
    record_boot 700
      (some (codes "AC_01_3.10.2"))
      (record_firmware_transfer_event (at_moment 10) download_of_two begun))
unfolding firmware_update_in_progress
reachable-IsSound_example = reachable-IsSound {first = idle_charger} idle-IsSound (
    after
      (after (after start (begin 5 (codes "ftp://host/EVC_AC_01_3.10.2.bin") refl))
        (transfer_event (at_moment 10) download_of_two))
      (boot 700 (some (codes "AC_01_3.10.2"))))

abbrev quiet : Charger → Charger
quiet c = c

abbrev stopped : Charger → Charger
stopped c = save (stop_transfer 15 (codes "Cancelled by user") c.update)

abbrev all_there : Conditions
all_there = record { listed = true; connected = true; hosted = true; fetched = true }

-- A request whose call is late, when the update has been cancelled: the notice stays on a final phase.
abbrev late_request : Charger
late_request =
    (install_firmware_file 5 (codes "EVC.bin") all_there quiet 6 (codes "ftp://host/EVC.bin") 25
      timed_out stopped idle_charger).1

late_notice :
    (late_request.update.phase ≡ Phase.cancelled) × (late_request.update.progress.active ≡ true)
unfolding install_firmware_file firmware_update_in_progress start_firmware_update_session
    stop_transfer path_name text_beq
late_notice = (refl, refl)

install_firmware_file-refused_example :
    (let r =
        install_firmware_file 5
          (codes "EVC.bin")
          all_there
          quiet
          6
          (codes "ftp://host/EVC.bin")
          7
          replied
          quiet
          (in_phase Phase.downloading) in
      (r.0 ≢ accepted) × (course r.1.update ≡ course (in_phase Phase.downloading).update))
unfolding firmware_update_in_progress
install_firmware_file-refused_example =
    install_firmware_file-refused 5 (codes "EVC.bin") all_there quiet 6 (codes "ftp://host/EVC.bin")
      7 replied quiet (in_phase Phase.downloading) refl (λ d. refl)

cancel_firmware_update-sticks_example :
    (let r = cancel_firmware_update 40 (codes "Cancelled by user") (in_phase Phase.downloading) in
      (r ≡ (nothing_to_cancel, in_phase Phase.downloading))
      ⊎ ((r.0 ≡ accepted)
          × (is_cancelled r.1.update.phase ≡ true)
          × (firmware_update_in_progress r.1.update.phase ≡ false)
          × (replay repeated r.1 ≡ r.1)))
cancel_firmware_update-sticks_example =
    cancel_firmware_update-sticks 40 (codes "Cancelled by user") repeated
      (in_phase Phase.downloading)
      (
        ap is_cancellation download_kind,
        (ap is_cancellation chunk_sent_kind, (ap is_cancellation disconnect_kind, tt)),
      )

firmware_action-by_numbers_example :
    (let target = firmware_version_key (some (codes "AC_01_3.10.2")) in
      let current = firmware_version_key (some (codes "AC_01_3.9")) in
      let action =
        firmware_action_for_version (some (codes "AC_01_3.10.2")) (some (codes "AC_01_3.9")) in
      (Precedes current target × (action ≡ codes "Upgrade"))
      ⊎ (Precedes target current × (action ≡ codes "Downgrade"))
      ⊎ (SameNumbers target current × (action ≡ codes "Reinstall")))
unfolding firmware_version_key strip
firmware_action-by_numbers_example =
    firmware_action-by_numbers (some (codes "AC_01_3.10.2")) (some (codes "AC_01_3.9")) (λ e. cc)
      (λ e. cc)

abbrev registry : Registry
registry = record {
  chargers =
      record {
        live_id = codes "EVC1";
        live_target = some (codes "EVC_AC_01_3.10.2.bin");
        live_selected = none;
        live_trace = none;
        live_remote = none;
        live_local = none;
      }
      ∷ [];
  connected = [];
  active = none;
  primary = some (codes "EVC0");
}

record_boot-ends_update_example :
    (let d = record_boot 700 (some (codes "AC_01_3.10.1")) (in_phase Phase.installing) in
      (((firmware_version_key (some (codes "AC_01_3.10.2"))
            ≡ firmware_version_key (some (codes "AC_01_3.10.1")))
          × (d.update.phase ≡ Phase.installed))
        ⊎ ((firmware_version_key (some (codes "AC_01_3.10.2"))
              ≢ firmware_version_key (some (codes "AC_01_3.10.1")))
            × (d.update.phase ≡ Phase.failed)))
      × (firmware_update_in_progress d.update.phase ≡ false)
      × (d.stored.phase ≡ d.update.phase))
unfolding firmware_update_in_progress
record_boot-ends_update_example =
    record_boot-ends_update 700 (some (codes "AC_01_3.10.1")) (in_phase Phase.installing) refl refl
      refl
