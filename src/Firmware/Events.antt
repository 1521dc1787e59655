-- ===== src/Firmware/Events.antt =====
-- `record_firmware_transfer_event` of givEVC-ocppv2/app/ocpp/coordinator.py, for the charger that
-- the event is about: what the firmware server reports of a transfer.
use Prim.Native.Nat.{max}
use giv_evc_ocppv.Base.{
  ℕ, suc, ◌+◌, ℤ, pos, negsuc, Bool, true, false, ◌&&◌, ◌||◌, not, Option, none, some, [],
  if◌then◌else◌, ltb, leb, ◌==◌, nat_comparable, Text, codes, text_comparable,
}
use giv_evc_ocppv.Firmware.Names.{
  Kind, connect, request_received, control_frame_sent, control_frame_received, chunk_sent,
  checksum_ok, checksum_missing, checksum_mismatch, file_sent, file_not_found, chunk_read_error,
  client_error, socket_timeout, disconnect, download_started, overlapping_request,
  transfer_cancelled, unlisted, kind_of, is_retry, is_terminal_error, or_else, or_default,
  path_name, spaced, title,
}
use giv_evc_ocppv.Firmware.State.{
  failed, cancelled, Update, Progress, Charger, no_progress, save, is_applying, is_final,
  mark_download_complete, mark_installing_after_disconnect,
}

-- The payload of a control frame. A `packsn` that is no number is read as -1.
pub record Frame : Type 0 where
  pub frame_packnum : Option ℕ
  pub frame_filesize : Option ℕ
  pub frame_packsn : Option ℤ

-- An event, with the keys that the handler reads; a missing number counts as 0 where the code says
-- so, and the payload that is no dict as one with nothing in it.
pub record Event : Type 0 where
  pub event_name : Option Text
  pub event_filename : Option Text
  pub requested_filename : Option Text
  pub event_remote : Option Text
  pub event_trace : Option Text
  pub event_error : Option Text
  pub chunk_count : ℕ
  pub filesize : ℕ
  pub event_chunk_size : ℕ
  pub packsn : ℤ
  pub bytes : ℕ
  pub payload : Frame

-- The clock, and `round((sent / total) * 100, 1)` in tenths: the rounding of floating-point numbers
-- is Python's.
pub record Surroundings : Type 0 where
  pub now : ℕ
  pub percent_of : ℕ → ℕ → ℕ

-- `max(chunks_sent, packsn + 1)`
unfoldable pub chunks_after : ℕ → ℤ → ℕ
chunks_after chunks_sent (pos packsn) = max chunks_sent (suc packsn)
chunks_after chunks_sent (negsuc n) = chunks_sent

abbrev number_or : Option ℕ → ℕ → ℕ
number_or none default = default
number_or (some n) default = n

-- A number that counts as true.
abbrev pub is_nonzero : Option ℕ → Bool
is_nonzero none = false
is_nonzero (some n) = ltb 0 n

unfoldable pub download_begins : ℕ → Text → Option Text → Event → Update → Update
download_begins now name filename e u = record u {
  progress = record no_progress {
    active = true;
    event = some name;
    filename = or_else (some (path_name (or_default filename []))) filename;
    remote = e.event_remote;
    trace = e.event_trace;
    bytes_total = e.filesize;
    bytes_sent = 0;
    chunk_size = e.event_chunk_size;
    chunks_total = e.chunk_count;
    chunks_sent = 0;
    percent = some 0;
    status = some (codes "Transfer started");
    updated_at = some now;
  };
}

unfoldable pub request_arrives : ℕ → Text → Option Text → Event → Update → Update
request_arrives now name filename e u = record u {
  progress = record u.progress {
    active = true;
    event = some name;
    filename = some (path_name (or_default (or_else filename u.progress.filename) []));
    remote = or_else e.event_remote u.progress.remote;
    trace = or_else e.event_trace u.progress.trace;
    status = some (codes "Firmware request received");
    updated_at = some now;
  };
}

unfoldable pub metadata_sent : ℕ → Text → Event → Update → Update
metadata_sent now name e u =
    if is_nonzero e.payload.frame_packnum || is_nonzero e.payload.frame_filesize
    then record u {
      progress = record u.progress {
        active = true;
        event = some name;
        remote = or_else e.event_remote u.progress.remote;
        trace = or_else e.event_trace u.progress.trace;
        bytes_total = number_or e.payload.frame_filesize u.progress.bytes_total;
        chunks_total = number_or e.payload.frame_packnum u.progress.chunks_total;
        status = some (codes "Transfer metadata sent");
        updated_at = some now;
      };
    }
    else u

unfoldable pub chunk_acknowledged : Surroundings → Text → Event → Update → Update
unfolding chunks_after
chunk_acknowledged env name e u = elim e.payload.frame_packsn [
  | none ↦ u
  | some packsn ↦
      let sent = chunks_after u.progress.chunks_sent packsn in
      record u {
        progress = record u.progress {
          active = true;
          event = some name;
          remote = or_else e.event_remote u.progress.remote;
          trace = or_else e.event_trace u.progress.trace;
          chunks_sent = sent;
          percent =
              if ltb 0 u.progress.chunks_total
              then some (env.percent_of sent u.progress.chunks_total)
              else u.progress.percent;
          status = some (codes "Transferring firmware");
          updated_at = some env.now;
        };
      }
]

unfoldable pub chunk_goes_out : Surroundings → Text → Event → Update → Update
unfolding chunks_after
chunk_goes_out env name e u =
    let sent = chunks_after u.progress.chunks_sent e.packsn in
    record u {
      progress = record u.progress {
        active = true;
        event = some name;
        remote = or_else e.event_remote u.progress.remote;
        trace = or_else e.event_trace u.progress.trace;
        chunks_sent = sent;
        bytes_sent = u.progress.bytes_sent + e.bytes;
        percent =
            if ltb 0 u.progress.chunks_total
            then some (env.percent_of sent u.progress.chunks_total)
            else none;
        status = some (codes "Transferring firmware");
        updated_at = some env.now;
      };
    }

-- The last event was none of the errors, and the transfer has not failed.
abbrev pub no_error_before : Progress → Bool
no_error_before progress =
    not (is_terminal_error (kind_of (or_default progress.event [])))
    && not (or_default progress.status [] == codes "Transfer failed")

abbrev percent_complete : Option ℕ → Bool
percent_complete none = false
percent_complete (some percent) = leb 1000 percent

-- Every chunk has gone out, as far as the progress tells.
abbrev pub all_sent : Progress → Bool
all_sent progress =
    (ltb 0 progress.chunks_total && leb progress.chunks_total progress.chunks_sent)
    || percent_complete progress.percent

unfoldable pub transfer_fails : ℕ → Text → Option Text → Event → Update → Update
transfer_fails now name filename e u =
    let error = or_else e.event_error (some (spaced name)) in
    record u {
      phase = failed;
      completed_at = some now;
      failure_reason = some (or_default error name);
      progress = record u.progress {
        active = false;
        event = some name;
        filename = or_else filename u.progress.filename;
        error = error;
        status = some (codes "Transfer failed");
        updated_at = some now;
      };
    }

unfoldable pub transfer_stops : ℕ → Text → Option Text → Update → Update
transfer_stops now name filename u = record u {
  phase = cancelled;
  completed_at = some now;
  expected_reconnect_by = none;
  failure_reason = some (codes "Cancelled by user");
  progress = record u.progress {
    active = false;
    event = some name;
    filename = or_else filename u.progress.filename;
    error = some (codes "Cancelled by user");
    status = some (codes "Firmware transfer cancelled");
    updated_at = some now;
  };
}

unfoldable pub note_event : ℕ → Text → Option Text → Update → Update
note_event now name filename u = record u {
  progress = record u.progress {
    event = some name;
    filename = or_else filename u.progress.filename;
    status = some (title (spaced name));
    updated_at = some now;
  };
}

unfoldable pub connection_closes : ℕ → Text → Option Text → Update → Update
connection_closes now name filename u =
    if is_applying u.phase || all_sent u.progress
    then mark_installing_after_disconnect now (
        if is_applying u.phase
        then u
        else mark_download_complete now (or_else filename u.progress.filename) u)
    else note_event now name filename u

-- The chain of branches on the event's name.
unfoldable pub advance : Surroundings → Text → Option Text → Event → Kind → Update → Update
unfolding download_begins request_arrives metadata_sent chunk_acknowledged chunk_goes_out
    transfer_fails transfer_stops note_event connection_closes
advance env name filename e download_started u = download_begins env.now name filename e u
advance env name filename e request_received u = request_arrives env.now name filename e u
advance env name filename e control_frame_sent u = metadata_sent env.now name e u
advance env name filename e control_frame_received u = chunk_acknowledged env name e u
advance env name filename e chunk_sent u = chunk_goes_out env name e u
advance env name filename e checksum_ok u =
    mark_download_complete env.now (or_else filename u.progress.filename) u
advance env name filename e file_sent u =
    if no_error_before u.progress
    then mark_download_complete env.now (or_else filename u.progress.filename) u
    else u
advance env name filename e disconnect u = connection_closes env.now name filename u
advance env name filename e checksum_missing u =
    mark_download_complete env.now (or_else filename u.progress.filename) u
advance env name filename e file_not_found u = transfer_fails env.now name filename e u
advance env name filename e checksum_mismatch u = transfer_fails env.now name filename e u
advance env name filename e chunk_read_error u = transfer_fails env.now name filename e u
advance env name filename e client_error u = transfer_fails env.now name filename e u
advance env name filename e socket_timeout u = transfer_fails env.now name filename e u
advance env name filename e transfer_cancelled u = transfer_stops env.now name filename u
advance env name filename e connect u = note_event env.now name filename u
advance env name filename e overlapping_request u = note_event env.now name filename u
advance env name filename e unlisted u = note_event env.now name filename u

abbrev pub is_cancellation : Kind → Bool
is_cancellation transfer_cancelled = true
is_cancellation _ = false

abbrev pub is_disconnect : Kind → Bool
is_disconnect disconnect = true
is_disconnect _ = false

-- The handler, for an event whose kind is known.
unfoldable pub handle : Surroundings → Text → Option Text → Event → Kind → Charger → Charger
unfolding advance
handle env name filename e kind c =
    if is_final c.update.phase && not (is_cancellation kind)
    then c
    else if is_applying c.update.phase && is_retry kind
    then (if is_disconnect kind
        then record c { update = mark_installing_after_disconnect env.now c.update }
        else c)
    else (let u = advance env name filename e kind c.update in
        if is_final u.phase then save u else record c { update = u })

-- `str(event_type or "unknown")`, the kind of event that it names, and the file that it is about.
abbrev pub name_of : Event → Text
name_of e = or_default e.event_name (codes "unknown")

abbrev pub event_kind : Event → Kind
event_kind e = kind_of (name_of e)

abbrev pub filename_of : Event → Option Text
filename_of e = or_else e.event_filename e.requested_filename

unfoldable pub record_firmware_transfer_event : Surroundings → Event → Charger → Charger
unfolding handle
record_firmware_transfer_event env e c = handle env (name_of e) (filename_of e) e (event_kind e) c
