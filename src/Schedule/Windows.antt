-- ===== src/Schedule/Windows.antt =====
-- A schedule's windows against the charging profile that is sent for them.
use mathlib.Core.List.{reverse, reverse-append, append_assoc}
use giv_evc_ocppv.Base.{
  ℕ, zero, suc, ◌<◌, ◌≡◌, ◌≢◌, refl, true, false, List, [], ◌∷◌, ◌++◌, arith, if◌then◌else◌, ltb,
  leb, ◌==◌, nat_comparable, Bool-cases, inl, inr, ◌∙◌, ap,
}
use giv_evc_ocppv.Schedule.Periods.{Pair, sorted, period_loop, leading_period, dedupe_loop, or_zero}
use giv_evc_ocppv.Schedule.Coverage.{covered, Separated}
use giv_evc_ocppv.Schedule.Profile.{
  limit_at, Strict, periods_of, periods_of-Strict, period_loop_start, sorted-Strict,
  limit_at-periods_of, Strict-weaken, leading_period_now, leading_period_later,
}

-- The deduplicating loop without its accumulator.
abbrev dedupe_from : Pair → List Pair → List Pair
dedupe_from current [] = current ∷ []
dedupe_from (last, level) ((start, limit) ∷ rest) =
    let replaced = dedupe_from (start, limit) rest in
    let skipped = dedupe_from (last, level) rest in
    if last == start then replaced else if level == limit then skipped else (last, level) ∷ replaced

dedupe_loop-dedupe_from :
    (last level : ℕ) (deduped ps : List Pair)
    → dedupe_loop ((last, level) ∷ deduped) ps ≡ reverse deduped ++ dedupe_from (last, level) ps
unfolding dedupe_loop
dedupe_loop-dedupe_from last level deduped [] = reverse-append ((last, level) ∷ []) deduped
dedupe_loop-dedupe_from last level deduped ((start, limit) ∷ rest) =
    elim (Bool-cases (last == start)) [
      | inl same ↦ rw same (dedupe_loop-dedupe_from start limit deduped rest)
      | inr later ↦ elim (Bool-cases (level == limit)) [
        | inl equal ↦ rw (later, equal) (dedupe_loop-dedupe_from last level deduped rest)
        | inr differ ↦
            rw (later, differ)
              (dedupe_loop-dedupe_from start limit ((last, level) ∷ deduped) rest
                ∙ rw (reverse-append ((last, level) ∷ []) deduped) (simp append_assoc))
      ]
    ]

dedupe_loop_start : (p : Pair) (ps : List Pair) → dedupe_loop [] (p ∷ ps) ≡ dedupe_from p ps
unfolding dedupe_loop
dedupe_loop_start (start, limit) ps = dedupe_loop-dedupe_from start limit [] ps

later_start : (last start : ℕ) → last < start → (last == start) ≡ false
later_start last start h = ground arith

-- A later period at the level in force changes nothing.
same_level :
    (before last level start limit t : ℕ)
    → last < start
    → (level == limit) ≡ true
    → (if leb start t then limit else (if leb last t then level else before))
      ≡ (if leb last t then level else before)
same_level before last level start limit t h e = ground arith

limit_at-dedupe_from :
    (before last level t : ℕ) (ps : List Pair)
    → Strict (suc last) ps
    → limit_at before (dedupe_from (last, level) ps) t ≡ limit_at before ((last, level) ∷ ps) t
limit_at-dedupe_from before last level t [] h = refl
limit_at-dedupe_from before last level t ((start, limit) ∷ rest) h =
    rw (later_start last start h.0) (elim (Bool-cases (level == limit)) [
      | inl equal ↦
          rw (equal, same_level before last level start limit t h.0 equal)
            (limit_at-dedupe_from before last level t rest
              (Strict-weaken (suc last) (suc start) rest (omega arith) h.1))
      | inr differ ↦
          rw differ
            (limit_at-dedupe_from (if leb last t then level else before) start limit t rest h.1)
    ])

-- Periods that begin later and change the level.
abbrev Steps : ℕ → ℕ → List Pair → Type 0
Steps last level [] = Unit
Steps last level ((start, limit) ∷ rest) = (last < start) × (level ≢ limit) × Steps start limit rest

-- What a charger asks of a profile: it begins at second 0, the starts ascend strictly, and every
-- period changes the limit.
abbrev pub IsProfile : List Pair → Type 0
IsProfile [] = ⊥
IsProfile ((start, limit) ∷ rest) = (start ≡ 0) × Steps start limit rest

differ_levels : (level limit : ℕ) → (level == limit) ≡ false → level ≢ limit
differ_levels level limit e = ground arith

dedupe_from-Steps :
    (last level : ℕ) (ps : List Pair)
    → Strict (suc last) ps
    → (rest : List Pair) × (dedupe_from (last, level) ps ≡ (last, level) ∷ rest)
      × Steps last level rest
dedupe_from-Steps last level [] h = ([], refl, tt)
dedupe_from-Steps last level ((start, limit) ∷ ps) h =
    rw (later_start last start h.0) (elim (Bool-cases (level == limit)) [
      | inl equal ↦ rw equal (
          dedupe_from-Steps last level ps
            (Strict-weaken (suc last) (suc start) ps (omega arith) h.1))
      | inr differ ↦
          let (rest, e, steps) = dedupe_from-Steps start limit ps h.1 in
          rw differ (
            (start, limit) ∷ rest,
            ap (λ x. (last, level) ∷ x) e,
            (h.0, differ_levels level limit differ, steps),
          )
    ])

-- The periods before deduplication begin at second 0 and ascend strictly.
raw_periods :
    (cycle limit : ℕ) (w : Pair) (rest : List Pair)
    → Separated cycle 0 (w ∷ rest)
    → (level : ℕ) × (ps : List Pair) × (leading_period (w ∷ rest)
          ++ periods_of cycle limit (w ∷ rest)
        ≡ (0, level) ∷ ps)
      × Strict 1 ps
      × ((t : ℕ)
          → limit_at 0 ((0, level) ∷ ps) t ≡ limit_at 0 (periods_of cycle limit (w ∷ rest)) t)
raw_periods cycle limit (zero, stop) rest h = (
  limit,
  if ltb stop cycle then (stop, 0) ∷ periods_of cycle limit rest else periods_of cycle limit rest,
  rw (leading_period_now stop rest),
  (periods_of-Strict cycle limit 0 ((zero, stop) ∷ rest) h).1,
  λ t. refl,
)
raw_periods cycle limit (suc start, stop) rest h = (
  0,
  periods_of cycle limit ((suc start, stop) ∷ rest),
  rw (leading_period_later start stop rest),
  Strict-weaken 1 (suc start) (periods_of cycle limit ((suc start, stop) ∷ rest)) (omega arith) (
      periods_of-Strict cycle limit (suc start) ((suc start, stop) ∷ rest)
        (omega arith, h.1, h.2, h.3)),
  λ t. ground arith,
)

-- The profile for windows that do not touch, as the last four statements of the source make it.
unfoldable pub profile_of : ℕ → ℕ → List Pair → List Pair
profile_of cycle limit merged =
    or_zero (dedupe_loop [] (sorted (period_loop cycle limit (leading_period merged) merged)))

pub profile_of_lem :
    (cycle limit : ℕ) (merged : List Pair)
    → Separated cycle 0 merged
    → IsProfile (profile_of cycle limit merged)
      × ((t : ℕ)
          → t < cycle
          → limit_at 0 (profile_of cycle limit merged) t ≡ (if covered merged t then limit else 0))
unfolding profile_of period_loop leading_period dedupe_loop sorted
profile_of_lem cycle limit [] h = ((refl, tt), λ t lt. ground arith)
profile_of_lem cycle limit (w ∷ rest) h =
    let (level, ps, e, strict, same) = raw_periods cycle limit w rest h in
    let (tail, d, steps) = dedupe_from-Steps 0 level ps strict in
    rw
      (
        period_loop_start cycle limit (w ∷ rest) h,
        e,
        sorted-Strict 0 ((0, level) ∷ ps) (omega arith, strict),
        dedupe_loop_start (0, level) ps,
      )
      (rw d (
        (refl, steps),
        λ t lt.
            (rw d at (limit_at-dedupe_from 0 0 level t ps strict))
            ∙ same t
            ∙ limit_at-periods_of cycle limit 0 t (w ∷ rest) lt h,
      ))
