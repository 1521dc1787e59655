-- ===== src/Ocpp/Frames.antt =====
-- The log of a charger's frames, `record_ocpp_frame` of givEVC-ocppv2/app/ocpp/coordinator.py: how it
-- grows and what it forgets.
use giv_evc_ocppv.Base.{
  ℕ, zero, suc, ◌+◌, ◌-◌, ◌≤◌, List, [], ◌∷◌, ◌++◌, ◌≡◌, refl, ◌∙◌, sym, ap, arith, length,
  if◌then◌else◌, ltb, length-append, Bool-cases, inl, inr,
}

-- `MAX_STORED_OCPP_FRAMES`
abbrev pub max_stored_frames : ℕ
max_stored_frames = 500

module _ {A : Type 0} where
  drop : ℕ → List A → List A
  drop zero xs = xs
  drop (suc n) [] = []
  drop (suc n) (x ∷ xs) = drop n xs

  -- `[-n:]` for a positive n.
  unfoldable pub latest_part : ℕ → List A → List A
  unfolding drop
  latest_part n xs = drop (length xs - n) xs

  unfoldable record_up_to : ℕ → A → List A → List A
  unfolding latest_part
  record_up_to limit entry history =
      let all = history ++ entry ∷ [] in
      if ltb limit (length all) then latest_part limit all else all

  unfoldable pub record_ocpp_frame : A → List A → List A
  unfolding record_up_to
  record_ocpp_frame entry history = record_up_to max_stored_frames entry history

  -- The frames in their order.
  unfoldable pub record_frames : List A → List A → List A
  unfolding record_ocpp_frame
  record_frames [] history = history
  record_frames (entry ∷ entries) history = record_frames entries (record_ocpp_frame entry history)

  drop_all_but : (xs : List A) (n : ℕ) → n ≡ 0 → drop n xs ≡ xs
  unfolding drop
  drop_all_but xs n none = rw none refl

  drop-append : (n : ℕ) (xs ys : List A) → n ≤ length xs → drop n xs ++ ys ≡ drop n (xs ++ ys)
  unfolding drop
  drop-append zero xs ys h = refl
  drop-append (suc n) [] ys h = absurd (omega arith)
  drop-append (suc n) (x ∷ xs) ys h = drop-append n xs ys (omega arith)

  drop-none : (n : ℕ) → drop n [] ≡ []
  unfolding drop
  drop-none zero = refl
  drop-none (suc n) = refl

  drop-drop : (i j : ℕ) (xs : List A) → drop i (drop j xs) ≡ drop (j + i) xs
  unfolding drop
  drop-drop i zero xs = ap (λ n. drop n xs) (omega arith)
  drop-drop i (suc j) [] = drop-none i ∙ sym (drop-none (suc j + i))
  drop-drop i (suc j) (x ∷ xs) =
      let shifted : suc (j + i) ≡ suc j + i = omega arith in
      drop-drop i j xs ∙ ap (λ n. drop n (x ∷ xs)) shifted

  length-drop : (n : ℕ) (xs : List A) → length (drop n xs) ≡ length xs - n
  unfolding drop
  length-drop zero xs = omega arith
  length-drop (suc n) [] = omega arith
  length-drop (suc n) (x ∷ xs) = omega (arith, length-drop n xs)

  length-latest_part : (n : ℕ) (xs : List A) → length (latest_part n xs) ≤ n
  unfolding latest_part
  length-latest_part n xs = omega (arith, length-drop (length xs - n) xs)

  latest_part-short : (n : ℕ) (xs : List A) → length xs ≤ n → latest_part n xs ≡ xs
  unfolding latest_part
  latest_part-short n xs short = drop_all_but xs (length xs - n) (omega arith)

  -- What follows the latest entries has the same latest entries as what follows all.
  latest_part-append :
      (n : ℕ) (xs ys : List A) → latest_part n (latest_part n xs ++ ys) ≡ latest_part n (xs ++ ys)
  unfolding latest_part
  latest_part-append n xs ys =
      let k = length xs - n in
      let whole = xs ++ ys in
      let joined : drop k xs ++ ys ≡ drop k whole = drop-append k xs ys (omega arith) in
      let size : length whole ≡ length xs + length ys = length-append xs ys in
      let rest : k + (length (drop k whole) - n) ≡ length whole - n =
        omega (arith, length-drop k whole, size) in
      ap (λ zs. drop (length zs - n) zs) joined
      ∙ drop-drop (length (drop k whole) - n) k whole
      ∙ ap (λ i. drop i whole) rest

  record_up_to-latest_part :
      (limit : ℕ) (entry : A) (history : List A)
      → record_up_to limit entry history ≡ latest_part limit (history ++ entry ∷ [])
  unfolding record_up_to
  record_up_to-latest_part limit entry history =
      let all = history ++ entry ∷ [] in
      elim (Bool-cases (ltb limit (length all))) [
        | inl long ↦ rw long refl
        | inr short ↦ rw short (sym (latest_part-short limit all (ground arith)))
      ]

  append_assoc : (xs ys zs : List A) → (xs ++ ys) ++ zs ≡ xs ++ (ys ++ zs)
  append_assoc [] ys zs = refl
  append_assoc (x ∷ xs) ys zs = ap (λ l. x ∷ l) (append_assoc xs ys zs)

  append_none : (xs : List A) → xs ++ [] ≡ xs
  append_none [] = refl
  append_none (x ∷ xs) = ap (λ l. x ∷ l) (append_none xs)

  record_frames-latest_part :
      (entries history : List A)
      → length history ≤ max_stored_frames
      → record_frames entries history ≡ latest_part max_stored_frames (history ++ entries)
  unfolding record_frames record_ocpp_frame
  record_frames-latest_part [] history fits =
      sym (latest_part-short max_stored_frames history fits)
      ∙ ap (latest_part max_stored_frames) (sym (append_none history))
  record_frames-latest_part (entry ∷ entries) history fits =
      let longer = history ++ entry ∷ [] in
      let one = record_up_to-latest_part max_stored_frames entry history in
      ap (record_frames entries) one
      ∙ record_frames-latest_part entries (latest_part max_stored_frames longer)
          (length-latest_part max_stored_frames longer)
      ∙ latest_part-append max_stored_frames longer entries
      ∙ ap (latest_part max_stored_frames) (append_assoc history (entry ∷ []) entries)

  -- A log of at most 500 frames has, after any frames have been recorded, at most 500, and they are the
  -- latest of those that it had and the new ones together, in their order; none is lost before there are
  -- more.
  pub record_frames-latest :
      (entries history : List A)
      → length history ≤ max_stored_frames
      → (record_frames entries history ≡ latest_part max_stored_frames (history ++ entries))
        × (length (record_frames entries history) ≤ max_stored_frames)
        × (length (history ++ entries) ≤ max_stored_frames
            → record_frames entries history ≡ history ++ entries)
  record_frames-latest entries history fits =
      let latest = record_frames-latest_part entries history fits in
      (
        latest,
        omega (arith, ap length latest, length-latest_part max_stored_frames (history ++ entries)),
        λ few. latest ∙ latest_part-short max_stored_frames (history ++ entries) few,
      )
