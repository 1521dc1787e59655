-- ===== src/Accounts/Email.antt =====
-- `_normalise_email` of givEVC-ocppv2/app/auth_store.py.
use giv_evc_ocppv.Base.{
  ℕ, ◌+◌, Bool, true, false, ◌&&◌, ◌||◌, not, Option, none, some, List, [], ◌∷◌, map, if◌then◌else◌,
  leb, ◌==◌, nat_comparable, length, any, Text, strip, is_space,
}

abbrev pub lower_code : ℕ → ℕ
lower_code c = if leb 65 c && leb c 90 then c + 32 else c

-- `.lower()` on ASCII.
abbrev pub lower : Text → Text
lower text = map lower_code text

-- `.partition("@")`: what stands before the first at sign and after it.
unfoldable pub local_part : Text → Text
local_part [] = []
local_part (c ∷ cs) = let rest = local_part cs in if c == 64 then [] else c ∷ rest

unfoldable pub domain_part : Text → Text
domain_part [] = []
domain_part (c ∷ cs) = let rest = domain_part cs in if c == 64 then cs else rest

-- `[^@\s]+\.[^@\s]{2,}` after some character, on a text with neither at sign nor white space.
dot_inside : Text → Bool
dot_inside [] = false
dot_inside (c ∷ cs) = (c == 46 && leb 2 (length cs)) || dot_inside cs

abbrev is_domain : Text → Bool
is_domain [] = false
is_domain (c ∷ cs) = dot_inside cs

abbrev pub is_nonempty {ℓ} : {A : Type ℓ} → List A → Bool
is_nonempty [] = false
is_nonempty (x ∷ xs) = true

-- `_EMAIL_RE.match` and the bounds on the lengths.
unfoldable pub is_email : Text → Bool
unfolding local_part domain_part dot_inside
is_email text =
    not (any is_space text)
    && (is_nonempty (local_part text)
        && (not (any (λ c. c == 64) (domain_part text))
            && (is_domain (domain_part text)
                && (leb (length text) 254 && leb (length (local_part text)) 64))))

unfoldable pub normalise_email : Text → Option Text
unfolding is_email strip
normalise_email value = let text = lower (strip value) in if is_email text then some text else none
