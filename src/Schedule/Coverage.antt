-- ===== src/Schedule/Coverage.antt =====
-- The windows of a schedule as a set of seconds: what sorting and merging them keeps.
use Prim.Native.Nat.{max}
use mathlib.Core.List.{reverse, reverse-append, append_assoc}
use giv_evc_ocppv.Base.{
  ℕ, suc, ◌≤◌, ◌<◌, ◌≡◌, refl, Bool, false, ◌&&◌, ◌||◌, List, [], ◌∷◌, ◌++◌, arith, if◌then◌else◌,
  ltb, leb, ltb→lt, All, Bool-cases, inl, inr, ◌∙◌,
}
use giv_evc_ocppv.Schedule.Periods.{Pair, pair_le, insert_pair, sorted, merge_loop}

-- Whether some window is open at second t.
abbrev pub covered : List Pair → ℕ → Bool
covered [] t = false
covered ((start, stop) ∷ rest) t = (leb start t && ltb t stop) || covered rest t

covered-insert_pair :
    (x : Pair) (xs : List Pair) (t : ℕ) → covered (insert_pair x xs) t ≡ covered (x ∷ xs) t
unfolding insert_pair
covered-insert_pair x [] t = refl
covered-insert_pair x (y ∷ ys) t = elim (Bool-cases (pair_le x y)) [
  | inl e ↦ rw e
  | inr e ↦ rw e (ground (arith, covered-insert_pair x ys t))
]

pub covered-sorted : (xs : List Pair) (t : ℕ) → covered (sorted xs) t ≡ covered xs t
unfolding sorted
covered-sorted [] t = refl
covered-sorted (x ∷ xs) t = ground (arith, covered-insert_pair x (sorted xs) t, covered-sorted xs t)

-- Starts in ascending order, from n on.
abbrev pub Ascending : ℕ → List Pair → Type 0
Ascending n [] = Unit
Ascending n ((start, _) ∷ rest) = (n ≤ start) × Ascending start rest

insert_pair-Ascending :
    (n : ℕ) (x : Pair) (xs : List Pair) → n ≤ x.0 → Ascending n xs → Ascending n (insert_pair x xs)
unfolding insert_pair
insert_pair-Ascending n x [] h a = (h, tt)
insert_pair-Ascending n x (y ∷ ys) h a = ground (arith, insert_pair-Ascending y.0 x ys)

pub sorted-Ascending : (xs : List Pair) → Ascending 0 (sorted xs)
unfolding sorted
sorted-Ascending [] = tt
sorted-Ascending (x ∷ xs) =
    insert_pair-Ascending 0 x (sorted xs) (omega arith) (sorted-Ascending xs)

insert_pair-All {ℓ} :
    (P : Pair → Type ℓ) (x : Pair) (xs : List Pair) → P x → All P xs → All P (insert_pair x xs)
unfolding insert_pair
insert_pair-All P x [] h a = (h, tt)
insert_pair-All P x (y ∷ ys) h a = elim (Bool-cases (pair_le x y)) [
  | inl e ↦ rw e (h, a)
  | inr e ↦ rw e (a.0, insert_pair-All P x ys h a.1)
]

pub sorted-All {ℓ} : (P : Pair → Type ℓ) (xs : List Pair) → All P xs → All P (sorted xs)
unfolding sorted
sorted-All P [] a = tt
sorted-All P (x ∷ xs) a = insert_pair-All P x (sorted xs) a.0 (sorted-All P xs a.1)

-- A window that is not empty and ends within the cycle.
abbrev pub Fits : ℕ → Pair → Type 0
Fits cycle (start, stop) = (start < stop) × (stop ≤ cycle)

-- The merging loop without its accumulator.
abbrev pub merge_from : Pair → List Pair → List Pair
merge_from current [] = current ∷ []
merge_from (first, last) ((start, stop) ∷ rest) =
    let apart = merge_from (start, stop) rest in
    let joined = merge_from (first, max last stop) rest in
    if ltb last start then (first, last) ∷ apart else joined

merge_loop-merge_from :
    (first last : ℕ) (merged xs : List Pair)
    → merge_loop ((first, last) ∷ merged) xs ≡ reverse merged ++ merge_from (first, last) xs
unfolding merge_loop
merge_loop-merge_from first last merged [] = reverse-append ((first, last) ∷ []) merged
merge_loop-merge_from first last merged ((start, stop) ∷ rest) =
    elim (Bool-cases (ltb last start)) [
      | inl e ↦ rw e (
          merge_loop-merge_from start stop ((first, last) ∷ merged) rest
          ∙ rw (reverse-append ((first, last) ∷ []) merged) (simp append_assoc))
      | inr e ↦ rw e (merge_loop-merge_from first (max last stop) merged rest)
    ]

pub merge_loop_start : (x : Pair) (xs : List Pair) → merge_loop [] (x ∷ xs) ≡ merge_from x xs
unfolding merge_loop
merge_loop_start (start, stop) xs = merge_loop-merge_from start stop [] xs

pub covered-merge_from :
    (first last : ℕ) (xs : List Pair) (t : ℕ)
    → Ascending first xs
    → covered (merge_from (first, last) xs) t ≡ covered ((first, last) ∷ xs) t
covered-merge_from first last [] t a = refl
covered-merge_from first last ((start, stop) ∷ rest) t a = ground (
  arith,
  covered-merge_from start stop rest t a.1,
  covered-merge_from first (max last stop) rest t,
)

-- Windows that neither overlap nor touch, from n on, within the cycle.
abbrev pub Separated : ℕ → ℕ → List Pair → Type 0
Separated cycle n [] = Unit
Separated cycle n ((start, stop) ∷ rest) =
    (n ≤ start) × (start < stop) × (stop ≤ cycle) × Separated cycle (suc stop) rest

Ascending-weaken : (m n : ℕ) (xs : List Pair) → m ≤ n → Ascending n xs → Ascending m xs
Ascending-weaken m n [] h a = tt
Ascending-weaken m n (x ∷ xs) h a = (omega arith, a.1)

pub merge_from-Separated :
    (cycle n first last : ℕ) (xs : List Pair)
    → n ≤ first
    → Fits cycle (first, last)
    → Ascending first xs
    → All (Fits cycle) xs
    → Separated cycle n (merge_from (first, last) xs)
merge_from-Separated cycle n first last [] h f a fs = (h, f.0, f.1, tt)
merge_from-Separated cycle n first last ((start, stop) ∷ rest) h f a fs =
    elim (Bool-cases (ltb last start)) [
      | inl e ↦ rw e (
        h,
        f.0,
        f.1,
        merge_from-Separated cycle (suc last) start stop rest (ltb→lt _ _ e) fs.0 a.1 fs.1,
      )
      | inr e ↦ rw e (
          merge_from-Separated cycle n first (max last stop) rest h
            (omega arith, omega (arith, fs.0.1)) (Ascending-weaken first start rest a.0 a.1) fs.1)
    ]
