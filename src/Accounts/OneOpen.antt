-- ===== src/Accounts/OneOpen.antt =====
-- The open codes of a user in givEVC-ocppv2/app/auth_store.py.
use giv_evc_ocppv.Base.{
  ℕ, ◌+◌, false, ◌&&◌, List, [], ◌∷◌, ◌++◌, ◌≡◌, refl, if◌then◌else◌, ◌==◌, text_comparable, length,
  filter, Text, beq_self, text_beq_sound, arith, Bool-cases, inl, inr,
}
use giv_evc_ocppv.Accounts.Tables.{OneTimeCode, update_where}
use giv_evc_ocppv.Accounts.Codes.{is_open, consume_open, issue}
use giv_evc_ocppv.Accounts.Rows.{beq_apart, beq_flip}

unfoldable pub count_open : Text → List OneTimeCode → ℕ
count_open id rows = length (filter (λ r. r.code_user == id && is_open r) rows)

count_open-consume_open :
    (id : Text) (now : ℕ) (rows : List OneTimeCode) → count_open id (consume_open id now rows) ≡ 0
unfolding count_open consume_open update_where
count_open-consume_open id now [] = refl
count_open-consume_open id now (r ∷ rows) = ground (arith, count_open-consume_open id now rows)

count_open-consume_open_apart :
    (id key : Text) (now : ℕ) (rows : List OneTimeCode)
    → (key == id) ≡ false
    → count_open key (consume_open id now rows) ≡ count_open key rows
unfolding count_open consume_open update_where
count_open-consume_open_apart id key now [] differ = refl
count_open-consume_open_apart id key now (r ∷ rows) differ =
    let rest = count_open-consume_open_apart id key now rows differ in
    elim (Bool-cases (r.code_user == id)) [
      | inr other ↦ rw other (ground (arith, rest))
      | inl same ↦
          let away = beq_apart r.code_user id key (beq_flip key id differ) same in
          ground (arith, rest, away)
    ]

count_open-append :
    (id : Text) (rows more : List OneTimeCode)
    → count_open id (rows ++ more) ≡ count_open id rows + count_open id more
unfolding count_open
count_open-append id [] more = omega arith
count_open-append id (r ∷ rows) more = ground (arith, count_open-append id rows more)

-- After a code is issued its user has that one open code, and the others have the ones they had.
pub issue-count_open :
    (row_id id key hash : Text) (now seconds : ℕ) (rows : List OneTimeCode)
    → count_open key (issue row_id id hash now seconds rows)
      ≡ (if key == id then 1 else count_open key rows)
unfolding issue count_open
issue-count_open row_id id key hash now seconds rows =
    rw (count_open-append key (consume_open id now rows) _) (elim (Bool-cases (key == id)) [
      | inl same ↦
          rw (text_beq_sound key id same, count_open-consume_open id now rows) (rw (beq_self id))
      | inr differ ↦
          rw (count_open-consume_open_apart id key now rows differ)
            (rw (differ, beq_flip key id differ) (omega arith))
    ])
