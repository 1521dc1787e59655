-- ===== src/Schedule/Item/Identity.antt =====
-- The identifier that a new schedule is given.
use Prim.Native.Nat.{max}
use mathlib.Core.Bool.{false≢true}
use giv_evc_ocppv.Base.{
  ℕ, ◌+◌, ◌≤◌, ◌≡◌, refl, Bool, true, false, List, [], ◌∷◌, arith, ◌==◌, inl, inr, any, Text,
  text_comparable, beq_ne, ◌≢◌, ap, sym, ◌∙◌, isdigit, read_from, decimal, read-decimal,
  isdigit-decimal, Bool-cases, All,
}
use giv_evc_ocppv.Schedule.Item.{numeric_ids, maximum, next_schedule_id}

-- `schedule_id in existing`
abbrev pub known : List Text → Text → Bool
known existing key = any (λ other. other == key) existing

le-maximum : (best : ℕ) (ns : List ℕ) → (best ≤ maximum best ns) × All (λ n. n ≤ maximum best ns) ns
unfolding maximum
le-maximum best [] = (omega arith, tt)
le-maximum best (n ∷ ns) =
    let (h, rest) = le-maximum (max best n) ns in (omega (arith, h), (omega (arith, h), rest))

All-map : (P Q : ℕ → Type 0) (ns : List ℕ) → ((n : ℕ) → P n → Q n) → All P ns → All Q ns
All-map P Q [] f a = tt
All-map P Q (n ∷ ns) f a = (f n a.0, All-map P Q ns f a.1)

-- A numeric text whose number is none of the numeric identifiers is not among them.
numeric-known :
    (key : Text) (existing : List Text)
    → isdigit key ≡ true
    → All (λ n. n ≢ read_from 0 key) (numeric_ids existing)
    → known existing key ≡ false
unfolding numeric_ids
numeric-known key [] d a = refl
numeric-known key (other ∷ existing) d a = elim (Bool-cases (isdigit other)) [
  | inl e ↦
      let (ne, rest) = rw e at a in
      rw (beq_ne other key (λ p. ne (ap (read_from 0) p))) (numeric-known key existing d rest)
  | inr e ↦
      rw (beq_ne other key (λ p. false≢true (sym e ∙ ap isdigit p ∙ d)))
        (numeric-known key existing d (rw e at a))
]

chosen : ℕ → List ℕ → Text
chosen now_ms ns = elim ns [ [] ↦ decimal now_ms | n ∷ ns ↦ decimal (maximum n ns + 1) ]

chosen_fresh :
    (existing : List Text) (now_ms : ℕ) (ns : List ℕ)
    → numeric_ids existing ≡ ns
    → known existing (chosen now_ms ns) ≡ false
unfolding chosen
chosen_fresh existing now_ms [] e =
    numeric-known (decimal now_ms) existing (isdigit-decimal now_ms) (rw e tt)
chosen_fresh existing now_ms (n ∷ ns) e =
    let top = maximum n ns in
    let (first, others) = le-maximum n ns in
    numeric-known (decimal (top + 1)) existing (isdigit-decimal (top + 1)) (
      rw e (
        omega (arith, first, read-decimal (top + 1)),
        All-map (λ m. m ≤ top) (λ m. m ≢ read_from 0 (decimal (top + 1))) ns
            (λ m h. omega (arith, read-decimal (top + 1))) others,
      ))

-- The identifier that a schedule without one is given is not used by any schedule yet.
pub next_schedule_id_fresh :
    (existing : List Text) (now_ms : ℕ) → known existing (next_schedule_id existing now_ms) ≡ false
unfolding next_schedule_id chosen
next_schedule_id_fresh existing now_ms = chosen_fresh existing now_ms (numeric_ids existing) refl
