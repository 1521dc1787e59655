-- ===== src/Base/Strings.antt =====
-- Text that the program takes apart, as its ASCII codes, with the parts of Python's `str` and
-- `int` that the program uses on it.
use Prim.Native.Char.{code}
use Prim.Native.Nat.{ℕ, zero, suc, ◌+◌, ◌-◌, ◌*◌, ◌/◌, ◌%◌, ◌<◌}
use Prim.Native.String.{String}
use mathlib.Core.Path.{◌≡◌, refl, ap, ◌∙◌}
use mathlib.Core.Logic.{◌↔◌, inl, inr}
use mathlib.Core.Bool.{Bool, true, false, ◌&&◌, ◌||◌}
use mathlib.Core.List.{List, [], ◌∷◌, reverse}
use native.Mathlib.Omega.{arith}
use giv_evc_ocppv.Base.Tests.{Bool-cases, leb, if◌then◌else◌}
use giv_evc_ocppv.Base.Equality.{Comparable, ◌==◌, nat_comparable}

abbrev pub Text : Type 0
Text = List ℕ

abbrev pub codes : String → Text
codes String.[] = []
codes (String.◌∷◌ c s) = code c ∷ codes s

abbrev pub is_digit : ℕ → Bool
is_digit c = leb 48 c && leb c 57

-- The characters that `str.strip` removes.
abbrev pub is_space : ℕ → Bool
is_space c = (leb 9 c && leb c 13) || (leb 28 c && leb c 32)

unfoldable pub lstrip : Text → Text
lstrip [] = []
lstrip (c ∷ cs) = let rest = lstrip cs in if is_space c then rest else c ∷ cs

-- `str.strip()`
unfoldable pub strip : Text → Text
unfolding lstrip
strip s = reverse (lstrip (reverse (lstrip s)))

-- `int(s)` for a text of digits, read on from a number.
unfoldable pub read_from : ℕ → Text → ℕ
read_from n [] = n
read_from n (c ∷ cs) = read_from (n * 10 + (c - 48)) cs

abbrev pub all_digits : Text → Bool
all_digits [] = true
all_digits (c ∷ cs) = is_digit c && all_digits cs

-- `str.isdigit()`: some character, and digits only.
abbrev pub isdigit : Text → Bool
isdigit [] = false
isdigit (c ∷ cs) = all_digits (c ∷ cs)

decimal_loop : ℕ → ℕ → Text → Text
decimal_loop zero n acc = acc
decimal_loop (suc fuel) n acc =
    let written = (48 + n % 10) ∷ acc in
    let rest = decimal_loop fuel (n / 10) written in if n / 10 == 0 then written else rest

-- `str(n)`: with n + 1 rounds the loop always ends by its test.
unfoldable pub decimal : ℕ → Text
unfolding decimal_loop
decimal n = decimal_loop (suc n) n []

read-decimal_loop :
    (fuel n : ℕ) (acc : Text) → n < fuel → read_from 0 (decimal_loop fuel n acc) ≡ read_from n acc
unfolding decimal_loop read_from
read-decimal_loop zero n acc h = elim h [ ]
read-decimal_loop (suc fuel) n acc h =
    let this_digit : n / 10 * 10 + ((48 + n % 10) - 48) ≡ n = omega arith in
    elim (Bool-cases (n / 10 == 0)) [
      | inl last ↦ rw last (ap (λ k. read_from k acc) (ground arith))
      | inr more ↦ rw more (
          read-decimal_loop fuel (n / 10) ((48 + n % 10) ∷ acc) (ground arith)
          ∙ ap (λ k. read_from k acc) this_digit)
    ]

-- `int(str(n)) == n`
pub read-decimal : (n : ℕ) → read_from 0 (decimal n) ≡ n
unfolding decimal read_from
read-decimal n = read-decimal_loop (suc n) n [] (omega arith)

isdigit-decimal_loop :
    (fuel n : ℕ) (acc : Text)
    → all_digits acc ≡ true
    → isdigit (decimal_loop (suc fuel) n acc) ≡ true
unfolding decimal_loop
isdigit-decimal_loop zero n acc h = ground arith
isdigit-decimal_loop (suc fuel) n acc h =
    ground (arith, isdigit-decimal_loop fuel (n / 10) ((48 + n % 10) ∷ acc))

pub isdigit-decimal : (n : ℕ) → isdigit (decimal n) ≡ true
unfolding decimal
isdigit-decimal n = isdigit-decimal_loop n n [] refl

unfoldable pub text_beq : Text → Text → Bool
text_beq [] [] = true
text_beq [] (d ∷ ds) = false
text_beq (c ∷ cs) [] = false
text_beq (c ∷ cs) (d ∷ ds) = c == d && text_beq cs ds

pub text_beq_refl : (s : Text) → text_beq s s ≡ true
unfolding text_beq
text_beq_refl [] = refl
text_beq_refl (c ∷ cs) = ground (arith, text_beq_refl cs)

pub text_beq_sound : (s t : Text) → text_beq s t ≡ true → s ≡ t
unfolding text_beq
text_beq_sound [] [] h = refl
text_beq_sound [] (d ∷ ds) h = cc
text_beq_sound (c ∷ cs) [] h = cc
text_beq_sound (c ∷ cs) (d ∷ ds) h = ground (arith, text_beq_sound cs ds)

pub text_beq_iff : (s t : Text) → (text_beq s t ≡ true) ↔ (s ≡ t)
text_beq_iff s t = (text_beq_sound s t, λ e. rw e (text_beq_refl t))

-- `==` on text.
instance abbrev pub text_comparable : Comparable Text
text_comparable = record { compare = text_beq; reflexive = text_beq_refl; sound = text_beq_sound }
