-- ===== src/Firmware/Commands.antt =====
-- `async_install_firmware_file`, `async_update_firmware` and `cancel_firmware_update` of
-- givEVC-ocppv2/app/ocpp/coordinator.py, on a live charger. The call to the charger is given by
-- how it ends; `meanwhile` is what other tasks do to the charger while the call is awaited.
use giv_evc_ocppv.Base.{
  ℕ, Bool, true, false, none, some, not, ◌&&◌, if◌then◌else◌, Text, codes, List, [], ◌∷◌, ◌==◌,
  text_comparable, any,
}
use giv_evc_ocppv.Firmware.Names.{or_else, or_default, path_name}
use giv_evc_ocppv.Firmware.State.{
  Phase, downloading, failed, cancelled, Update, Progress, Charger, save, no_progress,
  firmware_update_in_progress,
}
use giv_evc_ocppv.Firmware.Session.{start_firmware_update_session}

-- How the call `UpdateFirmware` ends: an exception counts as
-- a timeout when its text says "timed out".
pub data CallEnd : Type 0 where
  replied timed_out : CallEnd
  broke : Text → CallEnd

pub data Outcome : Type 0 where
  accepted already_in_progress nothing_to_cancel : Outcome
  unknown_file no_charger no_host no_download : Outcome
  call_failed : Text → Outcome

unfoldable pub acknowledgement_late : ℕ → Update → Update
acknowledgement_late now u = record u {
  progress = record u.progress {
    active = true;
    event = some (codes "update_requested");
    status = some (codes "Command sent — waiting for charger to begin download");
    updated_at = some now;
  };
}

unfoldable pub request_fails : ℕ → Text → Update → Update
request_fails now reason u = record u {
  phase = failed;
  failure_reason = some reason;
  progress = record u.progress {
    active = false;
    event = some (codes "update_request_failed");
    error = some reason;
    status = some (codes "Update request failed");
    updated_at = some now;
  };
}

-- What follows the call, `later` being the clock then.
unfoldable pub finish_update : ℕ → CallEnd → Charger → Outcome × Charger
unfolding acknowledgement_late request_fails
finish_update later replied c = (accepted, save c.update)
finish_update later timed_out c = (accepted, save (acknowledgement_late later c.update))
finish_update later (broke reason) c =
    (call_failed reason, save (request_fails later reason c.update))

unfoldable pub update_firmware :
    ℕ → Text → ℕ → CallEnd → (Charger → Charger) → Charger → Outcome × Charger
unfolding finish_update start_firmware_update_session firmware_update_in_progress
update_firmware now location later call_end meanwhile c =
    if firmware_update_in_progress c.update.phase
    then (already_in_progress, c)
    else finish_update later call_end
        (meanwhile (save (start_firmware_update_session now location c.update)))

-- What an installation finds: whether the manifest lists the file, whether a session is open, whether
-- the host of the firmware server is known, and whether the file is in the cache in the end.
pub record Conditions : Type 0 where
  pub listed : Bool
  pub connected : Bool
  pub hosted : Bool
  pub fetched : Bool

unfoldable pub prepares : ℕ → Text → Update → Update
prepares now filename u = record u {
  selected_file = some filename;
  progress = record no_progress {
    active = true;
    event = some (codes "preparing");
    filename = some filename;
    percent = some 0;
    status = some (codes "Preparing firmware file");
    updated_at = some now;
  };
}

-- The part of `async_install_firmware_file` after its guards: `fetching` is what other tasks do while
-- the file is downloaded.
unfoldable pub fetch_and_update :
    Bool
    → (Charger → Charger)
    → ℕ
    → Text
    → ℕ
    → CallEnd
    → (Charger → Charger)
    → Charger
    → Outcome × Charger
unfolding update_firmware
fetch_and_update false fetching begin location later call_end meanwhile c =
    (no_download, fetching c)
fetch_and_update true fetching begin location later call_end meanwhile c =
    update_firmware begin location later call_end meanwhile (fetching c)

-- `async_install_firmware_file`, once the manifest is refreshed; `location` is the address that it
-- makes of the host and the quoted name.
unfoldable pub install_firmware_file :
    ℕ
    → Text
    → Conditions
    → (Charger → Charger)
    → ℕ
    → Text
    → ℕ
    → CallEnd
    → (Charger → Charger)
    → Charger
    → Outcome × Charger
unfolding prepares fetch_and_update path_name
install_firmware_file now filename found fetching begin location later call_end meanwhile c =
    if not found.listed
    then (unknown_file, c)
    else if not found.connected
    then (no_charger, c)
    else if not found.hosted
    then (no_host, c)
    else fetch_and_update found.fetched fetching begin location later call_end meanwhile
        (save (prepares now (path_name filename) c.update))

-- `transferable_events`
abbrev transferable_events : List Text
transferable_events =
    codes "download_started"
    ∷ codes "request_received"
    ∷ codes "control_frame_sent"
    ∷ codes "control_frame_received"
    ∷ codes "chunk_sent"
    ∷ codes "ocpp_downloading"
    ∷ []

unfoldable pub is_transferring : Progress → Bool
is_transferring progress = any (λ event. or_default progress.event [] == event) transferable_events

abbrev pub is_cancelled : Phase → Bool
is_cancelled cancelled = true
is_cancelled _ = false

abbrev pub is_downloading : Phase → Bool
is_downloading downloading = true
is_downloading _ = false

unfoldable pub stop_transfer : ℕ → Text → Update → Update
stop_transfer now reason u = record u {
  phase = cancelled;
  completed_at = some now;
  expected_reconnect_by = none;
  failure_reason = some reason;
  progress = record u.progress {
    active = false;
    event = some (codes "transfer_cancelled");
    filename = or_else u.progress.filename u.target_file;
    error = some reason;
    status = some (codes "Firmware transfer cancelled");
    updated_at = some now;
  };
}

unfoldable pub cancel_firmware_update : ℕ → Text → Charger → Outcome × Charger
unfolding is_transferring stop_transfer
cancel_firmware_update now reason c =
    if is_cancelled c.update.phase
    then (accepted, c)
    else if not (is_downloading c.update.phase) && not (is_transferring c.update.progress)
    then (nothing_to_cancel, c)
    else (accepted, save (stop_transfer now reason c.update))
