-- ===== src/Schedule/Time.antt =====
-- Times of day: `_normalise_time` and `_split_hhmm` of givEVC-ocppv2/app/ocpp/coordinator.py, on
-- ASCII text.
use Prim.Native.Nat.{min, max}
use giv_evc_ocppv.Base.{
  ℕ, ◌+◌, ◌/◌, ◌%◌, ◌<◌, ◌≡◌, true, false, ◌&&◌, Option, none, some, [], ◌∷◌, ◌++◌, arith,
  if◌then◌else◌, ◌==◌, nat_comparable, Text, is_digit, strip, read_from, is_space, Option-cases,
  inl, inr,
}

-- `re.fullmatch(r"(\d{1,2}):(\d{2})", s)`, with the two groups as numbers.
unfoldable pub match_time : Text → Option (ℕ × ℕ)
unfolding read_from
match_time (h ∷ colon ∷ m ∷ n ∷ []) =
    if is_digit h && colon == b':' && is_digit m && is_digit n
    then some (read_from 0 (h ∷ []), read_from 0 (m ∷ n ∷ []))
    else none
match_time (g ∷ h ∷ colon ∷ m ∷ n ∷ []) =
    if is_digit g && is_digit h && colon == b':' && is_digit m && is_digit n
    then some (read_from 0 (g ∷ h ∷ []), read_from 0 (m ∷ n ∷ []))
    else none
match_time _ = none

-- `f"{n:02d}"` for a number below 100.
abbrev pub two_digits : ℕ → Text
two_digits n = (48 + n / 10) ∷ (48 + n % 10) ∷ []

abbrev pub format_time : ℕ → ℕ → Text
format_time hours minutes = two_digits hours ++ b':' ∷ two_digits minutes

unfoldable pub normalise_time : Text → Text
unfolding match_time strip
normalise_time value = elim (match_time (strip value)) [
  | none ↦ format_time 0 0
  | some (hours, minutes) ↦ format_time (max 0 (min 23 hours)) (max 0 (min 59 minutes))
]

-- `s.split(":", 1)`: what stands before the first colon, and what stands after it.
unfoldable pub split_colon : Text → Text × Text
split_colon [] = ([], [])
split_colon (c ∷ cs) =
    let (left, right) = split_colon cs in if c == b':' then ([], cs) else (c ∷ left, right)

unfoldable pub split_hhmm : Text → ℕ × ℕ
unfolding normalise_time split_colon read_from
split_hhmm value =
    let (hours, minutes) = split_colon (normalise_time value) in
    (read_from 0 hours, read_from 0 minutes)

-- The four characters that `format_time` writes are digits: neither blanks nor colons.
record IsDigit (c : ℕ) : Type 0 where
  digit : is_digit c ≡ true
  no_space : is_space c ≡ false
  no_colon : (c == b':') ≡ false

IsDigit-code : (k : ℕ) → k < 10 → IsDigit (48 + k)
IsDigit-code k h = record { digit = ground arith; no_space = ground arith; no_colon = ground arith }

read-two_digits : (n : ℕ) → n < 100 → read_from 0 (two_digits n) ≡ n
unfolding read_from
read-two_digits n h = omega arith

module _ (h m : ℕ) (hh : h < 100) (hm : m < 100) where
  tens_h : IsDigit (48 + h / 10)
  tens_h = IsDigit-code (h / 10) (omega arith)

  ones_h : IsDigit (48 + h % 10)
  ones_h = IsDigit-code (h % 10) (omega arith)

  tens_m : IsDigit (48 + m / 10)
  tens_m = IsDigit-code (m / 10) (omega arith)

  ones_m : IsDigit (48 + m % 10)
  ones_m = IsDigit-code (m % 10) (omega arith)

  split-format : split_colon (format_time h m) ≡ (two_digits h, two_digits m)
  unfolding split_colon
  split-format = simp (tens_h.no_colon, ones_h.no_colon)

  match-format : match_time (format_time h m) ≡ some (h, m)
  unfolding match_time
  match-format =
      simp (tens_h.digit, ones_h.digit, tens_m.digit, ones_m.digit)
        (rw (read-two_digits h hh, read-two_digits m hm))

  strip-format : strip (format_time h m) ≡ format_time h m
  unfolding strip
  strip-format = simp (tens_h.no_space, ones_m.no_space)

-- The hours and minutes that a text means: those of the pattern, capped at 23 and 59, and
-- midnight for a text that does not match.
abbrev pub meant : Option (ℕ × ℕ) → ℕ × ℕ
meant none = (0, 0)
meant (some (hours, minutes)) = (min 23 hours, min 59 minutes)

max_zero : (n : ℕ) → max 0 n ≡ n
max_zero n = omega arith

normalise-format :
    (value : Text)
    → normalise_time value
      ≡ (let (hours, minutes) = meant (match_time (strip value)) in format_time hours minutes)
unfolding normalise_time
normalise-format value = elim (Option-cases (match_time (strip value))) [
  | inl e ↦ rw (e, normalise_time)
  | inr (t, e) ↦ rw (e, normalise_time, max_zero (min 23 t.0), max_zero (min 59 t.1))
]

meant_bounds :
    (o : Option (ℕ × ℕ)) → (let (hours, minutes) = meant o in (hours < 24) × (minutes < 60))
meant_bounds none = (omega arith, omega arith)
meant_bounds (some (hours, minutes)) = (omega arith, omega arith)

-- The start or end of a schedule is read as the hours and minutes of its pattern, capped at 23
-- and 59, and as midnight where the text, with blanks removed, does not match the pattern.
pub split_hhmm-eq-meant : (value : Text) → split_hhmm value ≡ meant (match_time (strip value))
unfolding split_hhmm
split_hhmm-eq-meant value =
    let t = meant (match_time (strip value)) in
    let (hh, hm) = meant_bounds (match_time (strip value)) in
    let th : t.0 < 100 = omega (arith, hh) in
    let tm : t.1 < 100 = omega (arith, hm) in
    rw (
      normalise-format value,
      split-format t.0 t.1 th tm,
      read-two_digits t.0 th,
      read-two_digits t.1 tm,
    )

pub split_hhmm_bounds : (value : Text) → ((split_hhmm value).0 < 24) × ((split_hhmm value).1 < 60)
split_hhmm_bounds value = rw (split_hhmm-eq-meant value) (meant_bounds (match_time (strip value)))

-- A normalised time is normalised already: writing it and reading it back changes nothing.
pub normalise_time_idem :
    (value : Text) → normalise_time (normalise_time value) ≡ normalise_time value
normalise_time_idem value =
    let t = meant (match_time (strip value)) in
    let (hh, hm) = meant_bounds (match_time (strip value)) in
    let th : t.0 < 100 = omega (arith, hh) in
    let tm : t.1 < 100 = omega (arith, hm) in
    rw
      (
        normalise-format value,
        normalise-format (format_time t.0 t.1),
        strip-format t.0 t.1 th tm,
        match-format t.0 t.1 th tm,
      )
      (let mh : min 23 t.0 ≡ t.0 = omega arith in
        let mm : min 59 t.1 ≡ t.1 = omega arith in rw (mh, mm))
