-- ===== src/Schedule/Profile.antt =====
-- The periods of a charging profile as the limit in force at each second of the cycle.
use mathlib.Core.List.{append_assoc, append-nil}
use giv_evc_ocppv.Base.{
  ℕ, zero, suc, ◌≤◌, ◌<◌, ◌≡◌, refl, true, false, List, [], ◌∷◌, ◌++◌, arith, if◌then◌else◌, ltb,
  leb, leb→le, lt→ltb, nat_comparable, Bool-cases, inl, inr, ◌∙◌, sym,
}
use giv_evc_ocppv.Schedule.Periods.{Pair, insert_pair, sorted, period_loop, leading_period}
use giv_evc_ocppv.Schedule.Coverage.{covered, Separated}

-- The limit at second t, when `level` is in force at the start of the list: the latest period
-- that has begun decides.
abbrev pub limit_at : ℕ → List Pair → ℕ → ℕ
limit_at level [] t = level
limit_at level ((start, limit) ∷ rest) t = limit_at (if leb start t then limit else level) rest t

-- The starts ascend strictly, from n on.
abbrev pub Strict : ℕ → List Pair → Type 0
Strict n [] = Unit
Strict n ((start, _) ∷ rest) = (n ≤ start) × Strict (suc start) rest

insert_pair-Strict :
    (n : ℕ) (x : Pair) (xs : List Pair) → Strict (suc x.0) xs → insert_pair x xs ≡ x ∷ xs
unfolding insert_pair
insert_pair-Strict n x [] h = refl
insert_pair-Strict n x (y ∷ ys) h = ground arith

-- Strictly ascending periods are sorted already.
pub sorted-Strict : (n : ℕ) (xs : List Pair) → Strict n xs → sorted xs ≡ xs
unfolding sorted
sorted-Strict n [] h = refl
sorted-Strict n (x ∷ xs) h = rw (sorted-Strict (suc x.0) xs h.1) (insert_pair-Strict n x xs h.1)

-- The periods of windows that do not touch.
abbrev pub periods_of : ℕ → ℕ → List Pair → List Pair
periods_of cycle limit [] = []
periods_of cycle limit ((start, stop) ∷ rest) =
    let later = periods_of cycle limit rest in
    (start, limit) ∷ (if ltb stop cycle then (stop, 0) ∷ later else later)

period_loop-periods_of :
    (cycle limit n : ℕ) (p : Pair) (ps xs : List Pair)
    → Separated cycle (suc n) xs
    → period_loop cycle limit (p ∷ ps) xs ≡ (p ∷ ps) ++ periods_of cycle limit xs
unfolding period_loop
period_loop-periods_of cycle limit n p ps [] h = sym (append-nil _)
period_loop-periods_of cycle limit n p ps ((start, stop) ∷ rest) h =
    let opens : ltb 0 start ≡ true = lt→ltb 0 start (omega arith) in
    elim (Bool-cases (ltb stop cycle)) [
      | inl e ↦
          rw (opens, e)
            (period_loop-periods_of cycle limit stop p
                ((ps ++ (start, limit) ∷ []) ++ (stop, 0) ∷ []) rest h.3
              ∙ simp append_assoc)
      | inr e ↦
          rw (opens, e)
            (period_loop-periods_of cycle limit stop p (ps ++ (start, limit) ∷ []) rest h.3
              ∙ simp append_assoc)
    ]

pub leading_period_now : (stop : ℕ) (rest : List Pair) → leading_period ((0, stop) ∷ rest) ≡ []
unfolding leading_period
leading_period_now stop rest = refl

pub leading_period_later :
    (start stop : ℕ) (rest : List Pair) → leading_period ((suc start, stop) ∷ rest) ≡ (0, 0) ∷ []
unfolding leading_period
leading_period_later start stop rest = rw (lt→ltb 0 (suc start) (omega arith))

-- The whole loop, from the leading period on.
pub period_loop_start :
    (cycle limit : ℕ) (xs : List Pair)
    → Separated cycle 0 xs
    → period_loop cycle limit (leading_period xs) xs
      ≡ leading_period xs ++ periods_of cycle limit xs
unfolding period_loop
period_loop_start cycle limit [] h = sym (append-nil _)
period_loop_start cycle limit ((suc start, stop) ∷ rest) h =
    rw (leading_period_later start stop rest) (
      period_loop-periods_of cycle limit 0 (0, 0) [] ((suc start, stop) ∷ rest)
        (omega arith, h.1, h.2, h.3))
period_loop_start cycle limit ((zero, stop) ∷ rest) h = elim (Bool-cases (ltb stop cycle)) [
  | inl e ↦
      rw (leading_period_now stop rest, e)
        (period_loop-periods_of cycle limit stop (0, limit) ((stop, 0) ∷ []) rest h.3)
  | inr e ↦
      rw (leading_period_now stop rest, e)
        (period_loop-periods_of cycle limit stop (0, limit) [] rest h.3)
]

pub Strict-weaken : (m n : ℕ) (ps : List Pair) → m ≤ n → Strict n ps → Strict m ps
Strict-weaken m n [] h a = tt
Strict-weaken m n (p ∷ ps) h a = (omega arith, a.1)

pub periods_of-Strict :
    (cycle limit n : ℕ) (xs : List Pair)
    → Separated cycle n xs
    → Strict n (periods_of cycle limit xs)
periods_of-Strict cycle limit n [] h = tt
periods_of-Strict cycle limit n ((start, stop) ∷ rest) h =
    let ascends = periods_of-Strict cycle limit (suc stop) rest h.3 in
    elim (Bool-cases (ltb stop cycle)) [
      | inl e ↦ rw e (h.0, (omega arith, ascends))
      | inr e ↦ rw e (
        h.0,
        Strict-weaken (suc start) (suc stop) (periods_of cycle limit rest) (omega arith) ascends,
      )
    ]

-- Periods that all begin later leave the level as it is.
limit_at-Strict :
    (level n t : ℕ) (ps : List Pair) → t < n → Strict n ps → limit_at level ps t ≡ level
limit_at-Strict level n t [] lt h = refl
limit_at-Strict level n t ((start, limit) ∷ ps) lt h = elim (Bool-cases (leb start t)) [
  | inl e ↦ absurd (omega (arith, leb→le start t e))
  | inr e ↦ rw e (limit_at-Strict level (suc start) t ps (omega arith) h.1)
]

covered-Separated :
    (cycle n t : ℕ) (xs : List Pair) → t < n → Separated cycle n xs → covered xs t ≡ false
covered-Separated cycle n t [] lt h = refl
covered-Separated cycle n t ((start, stop) ∷ rest) lt h =
    ground (arith, covered-Separated cycle (suc stop) t rest)

pub limit_at-periods_of :
    (cycle limit n t : ℕ) (xs : List Pair)
    → t < cycle
    → Separated cycle n xs
    → limit_at 0 (periods_of cycle limit xs) t ≡ (if covered xs t then limit else 0)
limit_at-periods_of cycle limit n t [] lt h = refl
limit_at-periods_of cycle limit n t ((start, stop) ∷ rest) lt h =
    let later = periods_of cycle limit rest in
    let ascends : Strict (suc stop) later = periods_of-Strict cycle limit (suc stop) rest h.3 in
    let ih : limit_at 0 later t ≡ (if covered rest t then limit else 0) =
      limit_at-periods_of cycle limit (suc stop) t rest lt h.3 in
    elim (Bool-cases (ltb stop cycle)) [
      | inl e ↦ rw e (
          ground (
            arith,
            ih,
            limit_at-Strict limit (suc stop) t later,
            limit_at-Strict 0 (suc stop) t later,
            covered-Separated cycle (suc stop) t rest,
          ))
      | inr e ↦ rw e (
          ground (
            arith,
            ih,
            leb→le cycle stop,
            limit_at-Strict limit (suc stop) t later,
            limit_at-Strict 0 (suc stop) t later,
            covered-Separated cycle (suc stop) t rest,
          ))
    ]
