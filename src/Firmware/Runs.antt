-- ===== src/Firmware/Runs.antt =====
-- Sequences of the operations on a firmware update in
-- givEVC-ocppv2/app/ocpp/coordinator.py, as tasks interleave them: a request is three steps, the
-- preparation of the file, the start of the update and what follows its call.
use giv_evc_ocppv.Base.{ℕ, false, Option, ◌≡◌, Text}
use giv_evc_ocppv.Firmware.State.{Charger, save, firmware_update_in_progress}
use giv_evc_ocppv.Firmware.Session.{
  record_firmware_status, record_boot, start_firmware_update_session,
}
use giv_evc_ocppv.Firmware.Events.{Event, Surroundings, record_firmware_transfer_event}
use giv_evc_ocppv.Firmware.Commands.{CallEnd, prepares, finish_update, cancel_firmware_update}
use giv_evc_ocppv.Firmware.Invariant.{
  IsSound, record_firmware_transfer_event-IsSound, record_firmware_status-IsSound,
  record_boot-IsSound, cancel_firmware_update-IsSound, start-IsSound, finish_update-IsSound,
  prepares-IsSound,
}

-- A request prepares its update, begins it once the file is there and no update is in progress, and
-- finishes it when its call ends, however late.
pub data Step : Charger → Charger → Type 0 where
  transfer_event :
      (env : Surroundings) (e : Event) {c : Charger}
      → Step c (record_firmware_transfer_event env e c)
  status_report :
      (now : ℕ) (status : Option Text) {c : Charger} → Step c (record_firmware_status now status c)
  boot : (now : ℕ) (version : Option Text) {c : Charger} → Step c (record_boot now version c)
  cancel : (now : ℕ) (reason : Text) {c : Charger} → Step c (cancel_firmware_update now reason c).1
  prepare :
      (now : ℕ) (filename : Text) {c : Charger} → Step c (save (prepares now filename c.update))
  begin :
      (now : ℕ) (location : Text) {c : Charger}
      → firmware_update_in_progress c.update.phase ≡ false
      → Step c (save (start_firmware_update_session now location c.update))
  finish :
      (later : ℕ) (call_end : CallEnd) {c : Charger} → Step c (finish_update later call_end c).1

pub data Reaches (first : Charger) : Charger → Type 0 where
  start : Reaches first first
  after : {c d : Charger} → Reaches first c → Step c d → Reaches first d

Step-IsSound : {c d : Charger} → Step c d → IsSound c → IsSound d
Step-IsSound (transfer_event env e) h = record_firmware_transfer_event-IsSound env e _ h
Step-IsSound (status_report now status) h = record_firmware_status-IsSound now status _ h
Step-IsSound (boot now version) h = record_boot-IsSound now version _ h
Step-IsSound (cancel now reason) h = cancel_firmware_update-IsSound now reason _ h
Step-IsSound (prepare now filename) h = prepares-IsSound now filename _ h
Step-IsSound (begin now location free) h = start-IsSound now location _
Step-IsSound (finish later call_end) h = finish_update-IsSound later call_end _ h

-- Every charger that a sound one reaches by any sequence of events of the firmware server, status
-- reports, boots, cancellations and the three parts of requests is sound: a final phase is the stored
-- one and has no active progress but that of a request that is being prepared, of one whose call came
-- back late, or of an unknown status; a failed or cancelled one names its reason, an installed one has
-- none; a cancelled or installed one says when it ended; and an installing charger has a deadline.
pub reachable-IsSound : {first c : Charger} → IsSound first → Reaches first c → IsSound c
reachable-IsSound h start = h
reachable-IsSound h (after run step) = Step-IsSound step (reachable-IsSound h run)
