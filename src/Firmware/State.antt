-- ===== src/Firmware/State.antt =====
-- The fields of `ChargerState` (givEVC-ocppv2/app/ocpp/state.py) that a firmware update uses, with
-- the changes of them that the functions of givEVC-ocppv2/app/ocpp/coordinator.py share.
use giv_evc_ocppv.Base.{
  ℕ, ◌+◌, Bool, true, false, Option, none, some, [], if◌then◌else◌, Text, codes,
}
use giv_evc_ocppv.Firmware.Names.{or_else, or_default, path_name}

-- `firmware_update_state`; `idle` is None.
pub data Phase : Type 0 where
  idle requested downloading downloaded installing installed failed cancelled : Phase

-- `firmware_transfer_progress`. None and the empty dict are the record with nothing in it; a
-- missing number is read as 0 wherever the code reads it, a missing `active` as false. `percent`
-- counts tenths, and `updated_at` is the moment whose ISO text the code stores.
pub record Progress : Type 0 where
  pub active : Bool
  pub event : Option Text
  pub filename : Option Text
  pub remote : Option Text
  pub trace : Option Text
  pub bytes_total : ℕ
  pub bytes_sent : ℕ
  pub chunk_size : ℕ
  pub chunks_total : ℕ
  pub chunks_sent : ℕ
  pub percent : Option ℕ
  pub error : Option Text
  pub status : Option Text
  pub updated_at : Option ℕ

abbrev pub no_progress : Progress
no_progress = record {
  active = false;
  event = none;
  filename = none;
  remote = none;
  trace = none;
  bytes_total = 0;
  bytes_sent = 0;
  chunk_size = 0;
  chunks_total = 0;
  chunks_sent = 0;
  percent = none;
  error = none;
  status = none;
  updated_at = none;
}

-- Moments are seconds since 0001-01-01T00:00:00 UTC.
pub record Update : Type 0 where
  pub phase : Phase
  pub firmware_version : Option Text
  pub firmware_status : Option Text
  pub selected_file : Option Text
  pub target_file : Option Text
  pub target_version : Option Text
  pub previous_version : Option Text
  pub started_at : Option ℕ
  pub download_completed_at : Option ℕ
  pub install_started_at : Option ℕ
  pub expected_reconnect_by : Option ℕ
  pub completed_at : Option ℕ
  pub failure_reason : Option Text
  pub progress : Progress

-- A charger that has an entry in `_charger_states`, with its row in the state store.
pub record Charger : Type 0 where
  pub update : Update
  pub stored : Update

-- `_save_charger_snapshot`: everything but the progress of the transfer.
abbrev pub snapshot : Update → Update
snapshot u = record u { progress = no_progress }

-- `_persist_charge_point_state`
abbrev pub save : Update → Charger
save u = record { update = u; stored = snapshot u }

-- `in {"Requested", "Downloading", "Downloaded", "Installing"}`
unfoldable pub firmware_update_in_progress : Phase → Bool
firmware_update_in_progress requested = true
firmware_update_in_progress downloading = true
firmware_update_in_progress downloaded = true
firmware_update_in_progress installing = true
firmware_update_in_progress _ = false

-- `in {"Cancelled", "Installed", "Failed"}`
abbrev pub is_final : Phase → Bool
is_final cancelled = true
is_final installed = true
is_final failed = true
is_final _ = false

-- `in {"Downloaded", "Installing"}`
abbrev pub is_applying : Phase → Bool
is_applying downloaded = true
is_applying installing = true
is_applying _ = false

-- `old or new`
abbrev pub moment_or : Option ℕ → ℕ → Option ℕ
moment_or none new = some new
moment_or (some old) new = some old

-- `FIRMWARE_INSTALLING_TIMEOUT`
abbrev pub installing_timeout : ℕ
installing_timeout = 600

unfoldable pub mark_download_complete : ℕ → Option Text → Update → Update
mark_download_complete now filename u = record u {
  phase = downloaded;
  download_completed_at = moment_or u.download_completed_at now;
  progress = record u.progress {
    active = true;
    event = some (codes "applying");
    filename = some (path_name (or_default (or_else filename u.progress.filename) []));
    percent = some 1000;
    status = some (codes "Transfer complete - charger is applying firmware and will restart");
    updated_at = some now;
  };
}

unfoldable pub mark_installing_after_disconnect : ℕ → Update → Update
mark_installing_after_disconnect now u =
    if is_applying u.phase
    then record u {
      phase = installing;
      install_started_at = moment_or u.install_started_at now;
      expected_reconnect_by = some (now + installing_timeout);
      progress = record u.progress {
        active = true;
        event = some (codes "restarting");
        filename = or_else u.progress.filename u.target_file;
        percent = some 1000;
        status = some (codes "Charger is restarting to apply firmware");
        updated_at = some now;
      };
    }
    else u
