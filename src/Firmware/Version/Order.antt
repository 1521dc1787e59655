-- ===== src/Firmware/Version/Order.antt =====
-- The order of firmware versions in givEVC-ocppv2/app/ocpp/coordinator.py against the order of their
-- numbers, where a missing number is 0.
use Prim.Native.Nat.{max}
use giv_evc_ocppv.Base.{
  ℕ, zero, suc, ◌-◌, ◌<◌, ℤ, pos, negsuc, true, false, Option, List, [], ◌∷◌, ◌++◌, ◌≡◌, refl, ◌≢◌,
  ◌⊎◌, inl, inr, ◌∙◌, sym, Text, codes, arith, Bool-cases, length, length-append, ltb,
}
use giv_evc_ocppv.Firmware.Version.{
  tuple_lt, zeros, padded, compare_keys, compare_known_keys, action_of, compare_firmware_versions,
  firmware_version_key, firmware_action_for_version,
}

-- The number at a place, 0 where the key has none.
abbrev pub component : ℕ → List ℕ → ℕ
component i [] = 0
component zero (x ∷ xs) = x
component (suc i) (x ∷ xs) = component i xs

-- Two keys agree on every place before the first where they differ, and the first has the smaller
-- number there.
pub record Precedes (a b : List ℕ) : Type 0 where
  pub place : ℕ
  pub agree : (j : ℕ) → j < place → component j a ≡ component j b
  pub smaller : component place a < component place b

pub SameNumbers : List ℕ → List ℕ → Type 0
SameNumbers a b = (i : ℕ) → component i a ≡ component i b

agree_below :
    (x y place : ℕ) (xs ys : List ℕ)
    → x ≡ y
    → ((j : ℕ) → j < place → component j xs ≡ component j ys)
    → (j : ℕ) → j < suc place
    → component j (x ∷ xs) ≡ component j (y ∷ ys)
agree_below x y place xs ys heads agree zero below = heads
agree_below x y place xs ys heads agree (suc j) below = agree j (omega arith)

tuple_lt-Precedes : (a b : List ℕ) → length a ≡ length b → tuple_lt a b ≡ true → Precedes a b
unfolding tuple_lt
tuple_lt-Precedes [] [] same h = cc
tuple_lt-Precedes [] (y ∷ ys) same h = absurd (omega arith)
tuple_lt-Precedes (x ∷ xs) [] same h = absurd (omega arith)
tuple_lt-Precedes (x ∷ xs) (y ∷ ys) same h = elim (Bool-cases (ltb x y)) [
  | inl less ↦ record { place = 0; agree = λ j below. absurd (omega arith); smaller = ground arith }
  | inr equal ↦
      let rest = tuple_lt-Precedes xs ys (omega arith) (ground arith) in
      let heads : x ≡ y = ground arith in
      record {
        place = suc rest.place;
        agree = agree_below x y rest.place xs ys heads rest.agree;
        smaller = rest.smaller;
      }
]

tuple_lt-asym : (a b : List ℕ) → tuple_lt a b ≡ true → tuple_lt b a ≡ false
unfolding tuple_lt
tuple_lt-asym [] [] h = refl
tuple_lt-asym [] (y ∷ ys) h = refl
tuple_lt-asym (x ∷ xs) [] h = cc
tuple_lt-asym (x ∷ xs) (y ∷ ys) h = ground (arith, tuple_lt-asym xs ys)

tuple_lt-SameNumbers :
    (a b : List ℕ)
    → length a ≡ length b
    → tuple_lt a b ≡ false
    → tuple_lt b a ≡ false
    → SameNumbers a b
unfolding tuple_lt SameNumbers
tuple_lt-SameNumbers [] [] same h k i = refl
tuple_lt-SameNumbers [] (y ∷ ys) same h k i = absurd (omega arith)
tuple_lt-SameNumbers (x ∷ xs) [] same h k i = absurd (omega arith)
tuple_lt-SameNumbers (x ∷ xs) (y ∷ ys) same h k zero = ground arith
tuple_lt-SameNumbers (x ∷ xs) (y ∷ ys) same h k (suc i) =
    tuple_lt-SameNumbers xs ys (omega arith) (ground arith) (ground arith) i

component-zeros : (i n : ℕ) → component i (zeros n) ≡ 0
component-zeros i zero = refl
component-zeros zero (suc n) = refl
component-zeros (suc i) (suc n) = component-zeros i n

component-padded : (i n : ℕ) (key : List ℕ) → component i (key ++ zeros n) ≡ component i key
component-padded i n [] = component-zeros i n
component-padded zero n (x ∷ xs) = refl
component-padded (suc i) n (x ∷ xs) = component-padded i n xs

length-zeros : (n : ℕ) → length (zeros n) ≡ n
length-zeros zero = refl
length-zeros (suc n) = omega (arith, length-zeros n)

Precedes-padded :
    (width : ℕ) (a b : List ℕ) → Precedes (padded width a) (padded width b) → Precedes a b
Precedes-padded width a b h = record {
  place = h.place;
  agree = λ j below.
      sym (component-padded j (width - length a) a)
      ∙ h.agree j below
      ∙ component-padded j (width - length b) b;
  smaller = omega (
    arith,
    h.smaller,
    component-padded h.place (width - length a) a,
    component-padded h.place (width - length b) b,
  );
}

same_length :
    (a b : List ℕ)
    → length (padded (max (length a) (length b)) a) ≡ length (padded (max (length a) (length b)) b)
same_length a b =
    let wide = max (length a) (length b) in
    omega (
      arith,
      length-append a (zeros (wide - length a)),
      length-zeros (wide - length a),
      length-append b (zeros (wide - length b)),
      length-zeros (wide - length b),
    )

SameNumbers-padded :
    (width : ℕ) (a b : List ℕ) → SameNumbers (padded width a) (padded width b) → SameNumbers a b
unfolding SameNumbers
SameNumbers-padded width a b h i =
    sym (component-padded i (width - length a) a) ∙ h i ∙ component-padded i (width - length b) b

-- What a comparison of two keys can come to.
pub data Compared (target current : List ℕ) : ℤ → Type 0 where
  earlier : Precedes target current → Compared target current (negsuc 0)
  same : SameNumbers target current → Compared target current (pos 0)
  later : Precedes current target → Compared target current (pos 1)

compare_keys-Compared :
    (target current : List ℕ) → Compared target current (compare_keys target current)
unfolding compare_keys
compare_keys-Compared target current =
    let width = max (length target) (length current) in
    elim (Bool-cases (tuple_lt (padded width target) (padded width current))) [
      | inl less ↦
          rw (less, tuple_lt-asym (padded width target) (padded width current) less)
            (earlier (
              Precedes-padded width target current (
                tuple_lt-Precedes (padded width target) (padded width current)
                  (same_length target current) less)))
      | inr not_less ↦ elim (Bool-cases (tuple_lt (padded width current) (padded width target))) [
        | inl more ↦
            rw (not_less, more)
              (later (
                Precedes-padded width current target (
                  tuple_lt-Precedes (padded width current) (padded width target)
                    (sym (same_length target current)) more)))
        | inr not_more ↦
            rw (not_less, not_more)
              (same (
                SameNumbers-padded width target current (
                  tuple_lt-SameNumbers (padded width target) (padded width current)
                    (same_length target current) not_less not_more)))
      ]
    ]

compare_known_keys-Compared :
    (target current : List ℕ)
    → target ≢ []
    → current ≢ []
    → Compared target current (compare_known_keys target current)
unfolding compare_known_keys
compare_known_keys-Compared [] current some_target some_current = absurd (some_target refl)
compare_known_keys-Compared (t ∷ ts) [] some_target some_current = absurd (some_current refl)
compare_known_keys-Compared (t ∷ ts) (c ∷ cs) some_target some_current =
    compare_keys-Compared (t ∷ ts) (c ∷ cs)

action-Compared :
    (target current : List ℕ) (result : ℤ)
    → Compared target current result
    → (Precedes current target × (action_of result ≡ codes "Upgrade"))
      ⊎ (Precedes target current × (action_of result ≡ codes "Downgrade"))
      ⊎ (SameNumbers target current × (action_of result ≡ codes "Reinstall"))
action-Compared target current _ (earlier h) = inr (inl (h, refl))
action-Compared target current _ (same h) = inr (inr (h, refl))
action-Compared target current _ (later h) = inl (h, refl)

-- The portal offers an upgrade when the numbers of the target come after those of the version that
-- runs, a downgrade when they come before, and a reinstallation when they are the same, for two
-- versions that have numbers and with a missing number read as 0.
pub firmware_action-by_numbers :
    (target_version firmware_version : Option Text)
    → firmware_version_key target_version ≢ []
    → firmware_version_key firmware_version ≢ []
    → (let target = firmware_version_key target_version in
        let current = firmware_version_key firmware_version in
        let action = firmware_action_for_version target_version firmware_version in
        (Precedes current target × (action ≡ codes "Upgrade"))
        ⊎ (Precedes target current × (action ≡ codes "Downgrade"))
        ⊎ (SameNumbers target current × (action ≡ codes "Reinstall")))
unfolding firmware_action_for_version compare_firmware_versions
firmware_action-by_numbers target_version firmware_version some_target some_current =
    let target = firmware_version_key target_version in
    let current = firmware_version_key firmware_version in
    action-Compared target current (compare_known_keys target current)
      (compare_known_keys-Compared target current some_target some_current)
