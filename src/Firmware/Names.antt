-- ===== src/Firmware/Names.antt =====
-- The names that the firmware code of givEVC-ocppv2/app/ocpp/coordinator.py takes apart: the events
-- of `record_firmware_transfer_event`, the last part of a path, and text with a default.
use mathlib.Core.List.{reverse}
use giv_evc_ocppv.Base.{
  not, ℕ, ◌+◌, ◌-◌, Bool, true, false, ◌&&◌, ◌||◌, Option, none, some, List, [], ◌∷◌, if◌then◌else◌,
  leb, ◌==◌, nat_comparable, Text, codes, text_comparable,
}

-- The events that the handler names, and every other one.
pub data Kind : Type 0 where
  connect request_received control_frame_sent control_frame_received chunk_sent : Kind
  checksum_ok checksum_missing checksum_mismatch file_sent file_not_found : Kind
  chunk_read_error client_error socket_timeout : Kind
  disconnect download_started overlapping_request transfer_cancelled unlisted : Kind

abbrev known_kinds : List (Text × Kind)
known_kinds =
    (codes "connect", connect)
    ∷ (codes "request_received", request_received)
    ∷ (codes "control_frame_sent", control_frame_sent)
    ∷ (codes "control_frame_received", control_frame_received)
    ∷ (codes "chunk_sent", chunk_sent)
    ∷ (codes "checksum_ok", checksum_ok)
    ∷ (codes "checksum_missing", checksum_missing)
    ∷ (codes "checksum_mismatch", checksum_mismatch)
    ∷ (codes "file_sent", file_sent)
    ∷ (codes "file_not_found", file_not_found)
    ∷ (codes "chunk_read_error", chunk_read_error)
    ∷ (codes "client_error", client_error)
    ∷ (codes "socket_timeout", socket_timeout)
    ∷ (codes "disconnect", disconnect)
    ∷ (codes "download_started", download_started)
    ∷ (codes "overlapping_request", overlapping_request)
    ∷ (codes "transfer_cancelled", transfer_cancelled)
    ∷ []

kind_in : Text → List (Text × Kind) → Kind
kind_in name [] = unlisted
kind_in name ((known, kind) ∷ rest) = if name == known then kind else kind_in name rest

unfoldable pub kind_of : Text → Kind
unfolding kind_in
kind_of name = kind_in name known_kinds

-- `_retry_transfer_events`
abbrev pub is_retry : Kind → Bool
is_retry connect = true
is_retry request_received = true
is_retry control_frame_sent = true
is_retry control_frame_received = true
is_retry chunk_sent = true
is_retry checksum_missing = true
is_retry checksum_ok = true
is_retry file_sent = true
is_retry disconnect = true
is_retry download_started = true
is_retry overlapping_request = true
is_retry socket_timeout = true
is_retry _ = false

-- `terminal_errors`
abbrev pub is_terminal_error : Kind → Bool
is_terminal_error file_not_found = true
is_terminal_error checksum_mismatch = true
is_terminal_error chunk_read_error = true
is_terminal_error client_error = true
is_terminal_error socket_timeout = true
is_terminal_error _ = false

-- A text that counts as true: present and not empty.
abbrev pub is_given : Option Text → Bool
is_given none = false
is_given (some []) = false
is_given (some (c ∷ cs)) = true

-- `first or second`
abbrev pub or_else : Option Text → Option Text → Option Text
or_else first second = if is_given first then first else second

-- `first or default`, with a text as the default.
abbrev pub or_default : Option Text → Text → Text
or_default none default = default
or_default (some []) default = default
or_default (some (c ∷ cs)) default = c ∷ cs

-- A part of a path, kept reversed while it is read: an empty part and `.` are no parts.
last_part : Text → Text → Text
last_part [] found = found
last_part (c ∷ cs) found = if (c ∷ cs) == codes "." then found else reverse (c ∷ cs)

name_loop : Text → Text → Text → Text
unfolding last_part
name_loop current found [] = last_part current found
name_loop current found (c ∷ cs) =
    let at_slash = name_loop [] (last_part current found) cs in
    let inside = name_loop (c ∷ current) found cs in if c == 47 then at_slash else inside

-- `Path(path).name` on a POSIX system.
unfoldable pub path_name : Text → Text
unfolding name_loop
path_name path = name_loop [] [] path

-- `.replace("_", " ")`
unfoldable pub spaced : Text → Text
spaced [] = []
spaced (c ∷ cs) = (if c == 95 then 32 else c) ∷ spaced cs

abbrev is_lower : ℕ → Bool
is_lower c = leb 97 c && leb c 122

abbrev is_upper : ℕ → Bool
is_upper c = leb 65 c && leb c 90

title_loop : Bool → Text → Text
title_loop inside [] = []
title_loop inside (c ∷ cs) =
    (if inside && is_upper c then c + 32 else if is_lower c && not inside then c - 32 else c)
    ∷ title_loop (is_lower c || is_upper c) cs

-- `.title()`
unfoldable pub title : Text → Text
unfolding title_loop
title text = title_loop false text
