-- ===== src/Firmware/Session.antt =====
-- The start of a firmware update and what the charger itself says of it, in
-- givEVC-ocppv2/app/ocpp/coordinator.py: `_start_firmware_update_session`,
-- `_mark_firmware_result_from_observed_version` and `_apply_firmware_ocpp_status`.
use giv_evc_ocppv.Base.{
  ℕ, ◌+◌, Bool, true, false, ◌&&◌, ◌||◌, Option, none, some, List, [], ◌∷◌, ◌++◌, if◌then◌else◌,
  ◌==◌, nat_comparable, Text, codes, text_comparable, strip,
}
use giv_evc_ocppv.Firmware.Names.{or_else, is_given, path_name}
use giv_evc_ocppv.Firmware.State.{
  Phase, idle, requested, downloading, installing, installed, failed, cancelled, Update, Charger,
  save, no_progress, moment_or, installing_timeout, mark_download_complete,
}
use giv_evc_ocppv.Firmware.Version.{derive_firmware_version_from_filename, firmware_version_key}

-- `Path(location).name or None`
abbrev name_or_none : Text → Option Text
name_or_none [] = none
name_or_none (c ∷ cs) = some (c ∷ cs)

unfoldable pub start_firmware_update_session : ℕ → Text → Update → Update
start_firmware_update_session now location u =
    let target = or_else u.selected_file (name_or_none (path_name location)) in
    record u {
      firmware_status = none;
      phase = requested;
      target_file = target;
      target_version = derive_firmware_version_from_filename target;
      previous_version = u.firmware_version;
      started_at = some now;
      download_completed_at = none;
      install_started_at = none;
      expected_reconnect_by = none;
      completed_at = none;
      failure_reason = none;
      progress = record no_progress {
        active = true;
        event = some (codes "update_requested");
        filename = target;
        percent = some 0;
        status = some (codes "Waiting for charger download request");
        updated_at = some now;
      };
    }

-- Python's `==` on tuples of numbers.
unfoldable pub same_key : List ℕ → List ℕ → Bool
same_key [] [] = true
same_key [] (b ∷ bs) = false
same_key (a ∷ rest) [] = false
same_key (a ∷ rest) (b ∷ bs) = a == b && same_key rest bs

-- `"" if text is None else text`, where the code has tested that there is one.
abbrev pub shown : Option Text → Text
shown none = []
shown (some text) = text

unfoldable pub mark_installed_version : ℕ → Update → Update
mark_installed_version now u = record u {
  phase = installed;
  completed_at = some now;
  failure_reason = none;
  expected_reconnect_by = none;
  progress = record u.progress {
    active = false;
    event = some (codes "installed");
    filename = or_else u.progress.filename u.target_file;
    percent = some 1000;
    status = some (codes "Firmware installed: " ++ shown u.firmware_version);
    updated_at = some now;
  };
}

unfoldable pub mark_other_version : ℕ → Update → Update
mark_other_version now u =
    let reason =
      codes "Charger restarted on "
      ++ shown u.firmware_version
      ++ codes ", expected "
      ++ shown u.target_version in
    record u {
      phase = failed;
      completed_at = some now;
      failure_reason = some reason;
      expected_reconnect_by = none;
      progress = record u.progress {
        active = false;
        event = some (codes "version_mismatch");
        filename = or_else u.progress.filename u.target_file;
        percent = some 1000;
        error = some reason;
        status = some (codes "Firmware update did not apply");
        updated_at = some now;
      };
    }

unfoldable pub clear_stale_request : Update → Update
clear_stale_request u = record u {
  phase = failed;
  failure_reason = some (codes "Update request did not complete before charger rebooted");
  progress = record u.progress {
    active = false;
    event = some (codes "stale_cleared");
    status = some (codes "Update state cleared on reconnect");
  };
}

-- `in {"Requested", "Downloading", "Downloaded", "Installing", "Installed"}`
abbrev pub awaits_version : Phase → Bool
awaits_version idle = false
awaits_version failed = false
awaits_version cancelled = false
awaits_version _ = true

-- `in {"Requested", "Downloading"}`
abbrev pub before_download : Phase → Bool
before_download requested = true
before_download downloading = true
before_download _ = false

unfoldable pub mark_firmware_result_from_observed_version : ℕ → Update → Update
unfolding mark_installed_version mark_other_version clear_stale_request same_key
mark_firmware_result_from_observed_version now u =
    if awaits_version u.phase
    then (if is_given u.target_version && is_given u.firmware_version
        then (if same_key (firmware_version_key u.target_version)
              (firmware_version_key u.firmware_version)
            then mark_installed_version now u
            else mark_other_version now u)
        else if before_download u.phase
        then clear_stale_request u
        else u)
    else u

-- The part of `async_record_boot` that is about firmware: the version that the charger runs now.
unfoldable pub record_boot : ℕ → Option Text → Charger → Charger
unfolding mark_firmware_result_from_observed_version
record_boot now version c = save (
    mark_firmware_result_from_observed_version now (record c.update { firmware_version = version }))

-- What a `FirmwareStatusNotification` says.
pub data Reported : Type 0 where
  says_downloading says_downloaded says_installing says_installed says_failure says_other : Reported

unfoldable pub reported : Text → Reported
reported status =
    if status == codes "Downloading"
    then says_downloading
    else if status == codes "Downloaded"
    then says_downloaded
    else if status == codes "Installing" || status == codes "InstallScheduled"
    then says_installing
    else if status == codes "Installed"
    then says_installed
    else if status == codes "DownloadFailed"
        || (status == codes "InstallationFailed"
            || (status == codes "InvalidSignature" || status == codes "SignatureVerifiedFailed"))
    then says_failure
    else says_other

-- The branches of `_apply_firmware_ocpp_status`, after `firmware_status` is set.
unfoldable pub apply_reported : ℕ → Text → Reported → Update → Update
apply_reported now status says_downloading u = record u {
  phase = downloading;
  progress = record u.progress {
    active = true;
    event = some (codes "ocpp_downloading");
    filename = or_else u.progress.filename u.target_file;
    status = some (codes "Charger is downloading firmware");
    updated_at = some now;
  };
}
apply_reported now status says_downloaded u =
    mark_download_complete now (or_else u.progress.filename u.target_file) u
apply_reported now status says_installing u = record u {
  phase = installing;
  install_started_at = moment_or u.install_started_at now;
  expected_reconnect_by = some (now + installing_timeout);
  progress = record u.progress {
    active = true;
    event = some (codes "ocpp_installing");
    filename = or_else u.progress.filename u.target_file;
    percent = some 1000;
    status = some (codes "Charger is applying firmware and restarting");
    updated_at = some now;
  };
}
apply_reported now status says_installed u = record u {
  phase = installed;
  completed_at = some now;
  failure_reason = none;
  expected_reconnect_by = none;
  progress = record u.progress {
    active = false;
    event = some (codes "installed");
    filename = or_else u.progress.filename u.target_file;
    percent = some 1000;
    status = some (codes "Firmware installed");
    updated_at = some now;
  };
}
apply_reported now status says_failure u = record u {
  phase = failed;
  completed_at = some now;
  failure_reason = some status;
  expected_reconnect_by = none;
  progress = record u.progress {
    active = false;
    event = some (codes "firmware_status_failed");
    filename = or_else u.progress.filename u.target_file;
    percent = some 1000;
    error = some status;
    status = some (codes "Firmware update failed");
    updated_at = some now;
  };
}
apply_reported now status says_other u = record u {
  progress = record u.progress {
    event = some (codes "firmware_status");
    filename = or_else u.progress.filename u.target_file;
    status = some (codes "Charger status: " ++ status);
    updated_at = some now;
  };
}

unfoldable pub apply_firmware_ocpp_status : ℕ → Option Text → Update → Update
unfolding apply_reported
apply_firmware_ocpp_status now none u = u
apply_firmware_ocpp_status now (some []) u = u
apply_firmware_ocpp_status now (some (c ∷ cs)) u =
    let normalized = strip (c ∷ cs) in
    apply_reported now normalized (reported normalized)
      (record u { firmware_status = some normalized })

-- `in {"Installed", "Failed"}`
abbrev pub is_result : Phase → Bool
is_result installed = true
is_result failed = true
is_result _ = false

-- `async_record_firmware_status`
unfoldable pub record_firmware_status : ℕ → Option Text → Charger → Charger
unfolding apply_firmware_ocpp_status
record_firmware_status now status c =
    let u = apply_firmware_ocpp_status now status c.update in
    if is_result u.phase then save u else record c { update = u }
