-- ===== src/Firmware/Routing.antt =====
-- `_charge_point_id_for_firmware_event` of givEVC-ocppv2/app/ocpp/coordinator.py: the charger that an
-- event of the firmware server is about.
use mathlib.Core.List.{reverse}
use giv_evc_ocppv.Base.{
  Bool, true, ◌&&◌, ◌||◌, Option, none, some, List, [], ◌∷◌, ◌≡◌, refl, inl, inr, if◌then◌else◌,
  Text, strip, ◌==◌, nat_comparable, text_comparable, any, find, Bool-cases, arith,
}
use giv_evc_ocppv.Firmware.Names.{or_else, or_default, is_given, path_name}
use giv_evc_ocppv.Firmware.Events.{Event, filename_of}

-- What the function reads of an entry of `_charger_states`.
pub record Live : Type 0 where
  pub live_id : Text
  pub live_target : Option Text
  pub live_selected : Option Text
  pub live_trace : Option Text
  pub live_remote : Option Text
  pub live_local : Option Text

-- What it reads of an entry of `_connected_charge_points`.
pub record Connected : Type 0 where
  pub connected_id : Option Text
  pub connected_remote : Option Text
  pub connected_local : Option Text

pub record Registry : Type 0 where
  pub chargers : List Live
  pub connected : List Connected
  pub active : Option Text
  pub primary : Option Text

abbrev name_is : Text → Option Text → Bool
name_is name file = is_given file && name == path_name (or_default file [])

-- The charger is updating, or has selected, the file, or shows the trace.
unfoldable pub is_about : Text → Option Text → Live → Bool
is_about name trace live =
    (is_given (some name) && (name_is name live.live_target || name_is name live.live_selected))
    || (is_given trace && or_default trace [] == or_default live.live_trace [])

-- `text.rsplit(":", 1)[0]` on the reversed text, or none where there is no colon.
abbrev before_colon : Text → Option Text
before_colon [] = none
before_colon (c ∷ cs) = if c == 58 then some cs else before_colon cs

abbrev host_from : Option Text → Text → Text
host_from none remote = remote
host_from (some reversed) remote = reverse reversed

unfoldable pub remote_host : Option Text → Text
remote_host remote =
    let text = strip (or_default remote []) in host_from (before_colon (reverse text)) text

abbrev at_host : Text → Option Text → Option Text → Bool
at_host host remote local = host == or_default remote [] || host == or_default local []

abbrev stripped_or_none : Text → Option Text
stripped_or_none [] = none
stripped_or_none (c ∷ cs) = some (c ∷ cs)

abbrev fallback : Registry → Option Text
fallback r = or_else r.active r.primary

live_at_host : Text → Registry → Option Live → Option Text
live_at_host host r none = fallback r
live_at_host host r (some live) = some live.live_id

connected_at_host : Text → Registry → Option Connected → Option Text
unfolding live_at_host
connected_at_host host r none =
    live_at_host host r (find (λ l. at_host host l.live_remote l.live_local) r.chargers)
connected_at_host host r (some item) = stripped_or_none (strip (or_default item.connected_id []))

by_host : Text → Registry → Option Text
unfolding connected_at_host
by_host [] r = fallback r
by_host (c ∷ cs) r =
    connected_at_host (c ∷ cs) r
      (find (λ item. at_host (c ∷ cs) item.connected_remote item.connected_local) r.connected)

by_charger : Option Live → Event → Registry → Option Text
unfolding by_host remote_host
by_charger (some live) e r = some live.live_id
by_charger none e r = by_host (remote_host e.event_remote) r

unfoldable pub charge_point_id_for_firmware_event : Event → Registry → Option Text
unfolding by_charger is_about
charge_point_id_for_firmware_event e r =
    by_charger
      (find (is_about (path_name (or_default (filename_of e) [])) e.event_trace) r.chargers) e r

pub data Listed {ℓ} {A : Type ℓ} (x : A) : List A → Type ℓ where
  listed_first : {xs : List A} → Listed x (x ∷ xs)
  listed_later : {y : A} {xs : List A} → Listed x xs → Listed x (y ∷ xs)

find-Listed {ℓ} :
    {A : Type ℓ} (p : A → Bool) (xs : List A)
    → any p xs ≡ true
    → (x : A) × (find p xs ≡ some x) × (p x ≡ true) × Listed x xs
find-Listed p [] h = cc
find-Listed p (x ∷ xs) h = elim (Bool-cases (p x)) [
  | inl passes ↦ (x, rw passes refl, passes, listed_first)
  | inr passed ↦
      let later = find-Listed p xs (ground (arith, h, passed)) in
      (later.0, rw passed later.1, later.2, listed_later later.3)
]

-- An event that names a file that some charger updates to or has selected, or a trace that some
-- charger shows, is given to a charger of the registry of which that is true.
pub charge_point_id_for_firmware_event-about :
    (e : Event) (r : Registry)
    → any (is_about (path_name (or_default (filename_of e) [])) e.event_trace) r.chargers ≡ true
    → (live : Live) × (charge_point_id_for_firmware_event e r ≡ some live.live_id)
      × (is_about (path_name (or_default (filename_of e) [])) e.event_trace live ≡ true)
      × Listed live r.chargers
unfolding charge_point_id_for_firmware_event by_charger
charge_point_id_for_firmware_event-about e r h =
    let found =
      find-Listed (is_about (path_name (or_default (filename_of e) [])) e.event_trace) r.chargers
        h in
    (found.0, rw found.1 refl, found.2, found.3)
