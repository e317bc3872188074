-- ===== src/Decimal/Shape.antt =====
-- The shape of the text of a number: digits, at least one.
use httpserver_demo.Prelude.{
  ℕ, zero, suc, ◌+◌, ◌/◌, ◌%◌, ◌==◌, ◌≤◌, ◌≡◌, ◌≢◌, [], ◌∷◌, arith, Bytes, All, Bool-cases, inl,
  inr, ◌<◌, ◌⊎◌, refl, sym, subst, ◌∙◌,
}
use httpserver_demo.Decimal.{write_digits, nat_to_string}

abbrev pub IsDigit : ℕ → Type 0
IsDigit c = (b'0' ≤ c) × (c ≤ b'9')

-- What one round does.
pub write_digits-round :
    (fuel n : ℕ) (tail : Bytes)
    → ((n ≡ 0) × (write_digits (suc fuel) n tail ≡ tail))
      ⊎ ((0 < n)
          × (write_digits (suc fuel) n tail ≡ write_digits fuel (n / 10) ((n % 10 + b'0') ∷ tail)))
unfolding write_digits
write_digits-round fuel zero tail = inl (refl, refl)
write_digits-round fuel (suc n) tail = inr (omega arith, ground arith)

write_digits-IsDigit :
    (fuel n : ℕ) (tail : Bytes) → All IsDigit tail → All IsDigit (write_digits fuel n tail)
unfolding write_digits
write_digits-IsDigit zero n tail h = h
write_digits-IsDigit (suc fuel) n tail h = elim (write_digits-round fuel n tail) [
  | inl (z, e) ↦ subst (All IsDigit) (sym e) h
  | inr (p, e) ↦
      subst (All IsDigit) (sym e)
        (write_digits-IsDigit fuel (n / 10) _ ((omega arith, omega arith), h))
]

write_digits-ne-nil : (fuel n c : ℕ) (tail : Bytes) → write_digits fuel n (c ∷ tail) ≢ []
unfolding write_digits
write_digits-ne-nil zero n c tail = λ e. cc
write_digits-ne-nil (suc fuel) n c tail = elim (write_digits-round fuel n (c ∷ tail)) [
  | inl (z, e) ↦ λ k. cc
  | inr (p, e) ↦ λ k. write_digits-ne-nil fuel (n / 10) _ (c ∷ tail) (sym e ∙ k)
]

pub nat_to_string-IsDigit : (n : ℕ) → All IsDigit (nat_to_string n)
unfolding nat_to_string
nat_to_string-IsDigit n = elim (Bool-cases (n == 0)) [
  | inl e ↦ rw e (omega arith)
  | inr e ↦ rw e (write_digits-IsDigit n n [] tt)
]

positive-ne-nil : (n : ℕ) → write_digits (suc n) (suc n) [] ≢ []
positive-ne-nil n = elim (write_digits-round n (suc n) []) [
  | inl (z, e) ↦ absurd (omega arith)
  | inr (p, e) ↦ λ k. write_digits-ne-nil n (suc n / 10) _ [] (sym e ∙ k)
]

pub nat_to_string-ne-nil : (n : ℕ) → nat_to_string n ≢ []
unfolding nat_to_string
nat_to_string-ne-nil zero = λ e. cc
nat_to_string-ne-nil (suc n) = ground (arith, positive-ne-nil n)
