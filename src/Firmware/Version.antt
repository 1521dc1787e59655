-- ===== src/Firmware/Version.antt =====
-- Firmware versions in givEVC-ocppv2/app/ocpp/coordinator.py: the version in a file's name, its
-- numbers, and the order of versions by which the portal offers an upgrade or a downgrade.
pub mod Order
use Prim.Native.Nat.{max}
use mathlib.Core.List.{reverse}
use giv_evc_ocppv.Base.{
  ℕ, suc, zero, ◌+◌, ◌-◌, ◌*◌, ℤ, pos, negsuc, sub_ℕ, Bool, true, false, ◌&&◌, ◌||◌, Option, none,
  some, List, [], ◌∷◌, ◌++◌, if◌then◌else◌, ltb, ◌==◌, nat_comparable, length, Text, codes, strip,
  is_digit,
}
use giv_evc_ocppv.Firmware.Names.{path_name}

split_loop : ℕ → Text → Text → List Text
split_loop separator current [] = reverse current ∷ []
split_loop separator current (c ∷ cs) =
    let after = split_loop separator [] cs in
    let inside = split_loop separator (c ∷ current) cs in
    if c == separator then reverse current ∷ after else inside

-- `.split(separator)`, for a separator of one character.
unfoldable pub split : ℕ → Text → List Text
unfolding split_loop
split separator text = split_loop separator [] text

-- `parts[-1]`
abbrev pub last_of : List Text → Text
last_of [] = []
last_of (part ∷ []) = part
last_of (part ∷ next ∷ parts) = last_of (next ∷ parts)

-- `parts[-3:]`, latest first.
abbrev last_three : List Text → List Text
last_three (a ∷ b ∷ c ∷ rest) = a ∷ b ∷ c ∷ []
last_three parts = parts

-- `"_".join(parts)`
abbrev joined : List Text → Text
joined [] = []
joined (part ∷ []) = part
joined (part ∷ next ∷ parts) = part ++ 95 ∷ joined (next ∷ parts)

-- What stands before the last dot, where some text stands on both sides of it.
before_dot : Text → Text → Text
before_dot name [] = name
before_dot name (c ∷ []) = name
before_dot name (c ∷ d ∷ ds) =
    let further = before_dot name (d ∷ ds) in
    if d == 46 then elim ds [ [] ↦ name | e ∷ es ↦ reverse (e ∷ es) ] else further

-- `Path(filename).stem`: the name without its suffix.
unfoldable pub path_stem : Text → Text
unfolding before_dot
path_stem filename =
    let name = path_name filename in
    elim (reverse name) [
      | [] ↦ name
      | c ∷ cs ↦ (if c == 46 then name else before_dot name (c ∷ cs))
    ]

unfoldable pub derive_firmware_version_from_filename : Option Text → Option Text
unfolding split path_stem
derive_firmware_version_from_filename none = none
derive_firmware_version_from_filename (some []) = none
derive_firmware_version_from_filename (some (c ∷ cs)) =
    let parts = split 95 (path_stem (c ∷ cs)) in
    if ltb (length parts) 3 then none else some (joined (reverse (last_three (reverse parts))))

-- `int(part)` for every run of digits that `re.findall` finds, read from left to right.
runs_loop : Option ℕ → Text → List ℕ
runs_loop none [] = []
runs_loop (some number) [] = number ∷ []
runs_loop none (c ∷ cs) =
    let inside = runs_loop (some (c - 48)) cs in
    let outside = runs_loop none cs in if is_digit c then inside else outside
runs_loop (some number) (c ∷ cs) =
    let inside = runs_loop (some (number * 10 + (c - 48))) cs in
    let outside = runs_loop none cs in if is_digit c then inside else number ∷ outside

unfoldable pub firmware_version_key : Option Text → List ℕ
unfolding runs_loop split
firmware_version_key none = []
firmware_version_key (some value) = runs_loop none (last_of (split 95 (strip value)))

-- Python's `<` on tuples.
unfoldable pub tuple_lt : List ℕ → List ℕ → Bool
tuple_lt [] [] = false
tuple_lt [] (b ∷ bs) = true
tuple_lt (a ∷ rest) [] = false
tuple_lt (a ∷ rest) (b ∷ bs) = ltb a b || (a == b && tuple_lt rest bs)

-- `(0,) * n`
abbrev pub zeros : ℕ → List ℕ
zeros zero = []
zeros (suc n) = 0 ∷ zeros n

-- `key + (0,) * (width - len(key))`
abbrev pub padded : ℕ → List ℕ → List ℕ
padded width key = key ++ zeros (width - length key)

abbrev pub as_int : Bool → ℕ
as_int true = 1
as_int false = 0

-- The comparison of two keys that have numbers.
unfoldable pub compare_keys : List ℕ → List ℕ → ℤ
unfolding tuple_lt
compare_keys target current =
    let width = max (length target) (length current) in
    sub_ℕ (as_int (tuple_lt (padded width current) (padded width target)))
      (as_int (tuple_lt (padded width target) (padded width current)))

-- 0 where one version has no numbers.
unfoldable pub compare_known_keys : List ℕ → List ℕ → ℤ
unfolding compare_keys
compare_known_keys [] current = pos 0
compare_known_keys (t ∷ ts) [] = pos 0
compare_known_keys (t ∷ ts) (c ∷ cs) = compare_keys (t ∷ ts) (c ∷ cs)

unfoldable pub compare_firmware_versions : Option Text → Option Text → ℤ
unfolding firmware_version_key compare_known_keys
compare_firmware_versions target current =
    compare_known_keys (firmware_version_key target) (firmware_version_key current)

abbrev pub action_of : ℤ → Text
action_of (pos zero) = codes "Reinstall"
action_of (pos (suc n)) = codes "Upgrade"
action_of (negsuc n) = codes "Downgrade"

-- `firmware_action_for_version`, from the version that the charger runs.
unfoldable pub firmware_action_for_version : Option Text → Option Text → Text
unfolding compare_firmware_versions
firmware_action_for_version target_version firmware_version =
    action_of (compare_firmware_versions target_version firmware_version)
