-- ===== src/Schedule/Book/Validity.antt =====
-- Valid lists of schedules, and the loops that keep them valid.
use mathlib.Core.Bool.{false≢true}
use giv_evc_ocppv.Base.{
  ◌≤◌, ◌≡◌, refl, ◌∙◌, Bool, true, false, List, [], ◌∷◌, if◌then◌else◌, ◌==◌, Text, text_comparable,
  beq_ne, text_beq_iff, arith, Bool-cases, inl, inr, sym, nat_comparable,
}
use giv_evc_ocppv.Schedule.Item.{Item}
use giv_evc_ocppv.Schedule.Book.Lists.{
  has_schedule, replace_schedule, append_schedule, put_schedule, disable_others, set_enabled_in,
  without_schedule,
}
use giv_evc_ocppv.Schedule.Book.Counts.{
  count_enabled, Unique, count_id-Unique, set_enabled_in-count, without_schedule-count,
  replace_schedule-count, append_schedule-count, has-disable_others, has-set_enabled_in,
  has-replace_schedule, has-append_schedule, has-without_schedule,
}

pub disable_others-Unique :
    (key : Text) (items : List Item) → Unique items → Unique (disable_others key items)
unfolding disable_others
disable_others-Unique key [] u = tt
disable_others-Unique key (item ∷ items) u = elim (Bool-cases (item.id == key)) [
  | inl e ↦ rw e (has-disable_others item.id key items ∙ u.0, disable_others-Unique key items u.1)
  | inr e ↦ rw e (has-disable_others item.id key items ∙ u.0, disable_others-Unique key items u.1)
]

set_enabled_in-Unique :
    (key : Text) (enabled : Bool) (items : List Item)
    → Unique items
    → Unique (set_enabled_in key enabled items)
unfolding set_enabled_in
set_enabled_in-Unique key enabled [] u = tt
set_enabled_in-Unique key true (item ∷ items) u = elim (Bool-cases (item.id == key)) [
  | inl e ↦
      rw e
        (has-set_enabled_in item.id key true items ∙ u.0, set_enabled_in-Unique key true items u.1)
  | inr e ↦
      rw e
        (has-set_enabled_in item.id key true items ∙ u.0, set_enabled_in-Unique key true items u.1)
]
set_enabled_in-Unique key false (item ∷ items) u = elim (Bool-cases (item.id == key)) [
  | inl e ↦
      rw e (
        has-set_enabled_in item.id key false items ∙ u.0,
        set_enabled_in-Unique key false items u.1,
      )
  | inr e ↦
      rw e (
        has-set_enabled_in item.id key false items ∙ u.0,
        set_enabled_in-Unique key false items u.1,
      )
]

without_schedule-Unique :
    (key : Text) (items : List Item) → Unique items → Unique (without_schedule key items)
unfolding without_schedule
without_schedule-Unique key [] u = tt
without_schedule-Unique key (item ∷ items) u = elim (Bool-cases (item.id == key)) [
  | inl e ↦ rw e (without_schedule-Unique key items u.1)
  | inr e ↦ rw e (has-without_schedule item.id key items u.0, without_schedule-Unique key items u.1)
]

replace_schedule-Unique :
    (new : Item) (items : List Item) → Unique items → Unique (replace_schedule new items)
unfolding replace_schedule
replace_schedule-Unique new [] u = tt
replace_schedule-Unique new (item ∷ items) u = elim (Bool-cases (item.id == new.id)) [
  | inl e ↦ rw e (
    rw ((text_beq_iff item.id new.id).0 e) at (has-replace_schedule item.id new items ∙ u.0),
    replace_schedule-Unique new items u.1,
  )
  | inr e ↦
      rw e (has-replace_schedule item.id new items ∙ u.0, replace_schedule-Unique new items u.1)
]

append_schedule-Unique :
    (new : Item) (items : List Item)
    → has_schedule new.id items ≡ false
    → Unique items
    → Unique (append_schedule new items)
unfolding append_schedule has_schedule
append_schedule-Unique new [] h u = (refl, tt)
append_schedule-Unique new (item ∷ items) h u =
    let here : (item.id == new.id) ≡ false = ground arith in
    let later : has_schedule new.id items ≡ false = ground arith in
    let other : (new.id == item.id) ≡ false =
      beq_ne new.id item.id
        (λ p. false≢true (sym here ∙ (text_beq_iff item.id new.id).1 (sym p))) in
    (
      has-append_schedule item.id new items ∙ rw (u.0, other),
      append_schedule-Unique new items later u.1,
    )

pub put_schedule-Unique :
    (new : Item) (items : List Item) → Unique items → Unique (put_schedule new items)
unfolding put_schedule
put_schedule-Unique new items u = elim (Bool-cases (has_schedule new.id items)) [
  | inl e ↦ rw e (replace_schedule-Unique new items u)
  | inr e ↦ rw e (append_schedule-Unique new items e u)
]

pub put_schedule-count :
    (new : Item) (items : List Item)
    → new.enabled ≡ false
    → count_enabled (put_schedule new items) ≤ count_enabled items
unfolding put_schedule
put_schedule-count new items h =
    ground (arith, replace_schedule-count new items h, append_schedule-count new items)

-- The identifiers are unique, and at most one schedule is enabled.
pub record IsValid (items : List Item) : Type 0 where
  pub unique : Unique items
  pub single : count_enabled items ≤ 1

pub if-IsValid :
    (c : Bool) (xs ys : List Item)
    → (c ≡ true → IsValid xs)
    → (c ≡ false → IsValid ys)
    → IsValid (if c then xs else ys)
if-IsValid true xs ys hx hy = hx refl
if-IsValid false xs ys hx hy = hy refl

pub set_enabled_in-IsValid :
    (key : Text) (enabled : Bool) (items : List Item)
    → IsValid items
    → IsValid (set_enabled_in key enabled items)
set_enabled_in-IsValid key true items v = record {
  unique = set_enabled_in-Unique key true items v.unique;
  single = omega (arith, set_enabled_in-count key items, count_id-Unique key items v.unique);
}
set_enabled_in-IsValid key false items v = record {
  unique = set_enabled_in-Unique key false items v.unique;
  single = omega (arith, set_enabled_in-count key items, v.single);
}

pub without_schedule-IsValid :
    (key : Text) (items : List Item) → IsValid items → IsValid (without_schedule key items)
without_schedule-IsValid key items v = record {
  unique = without_schedule-Unique key items v.unique;
  single = omega (arith, without_schedule-count key items, v.single);
}
