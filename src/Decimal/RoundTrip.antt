-- ===== src/Decimal/RoundTrip.antt =====
-- What `strtoll` reads from the output of `to_string`.
use httpserver_demo.Prelude.{
  ℕ, zero, suc, Bool-cases, inl, inr, ◌==◌, ◌≤◌, ◌<◌, ◌*◌, ◌+◌, ◌/◌, ◌%◌, ◌≡◌, ◌≢◌, refl, ap, sym,
  ◌∙◌, [], ◌∷◌, arith, Bytes, ℤ, pos, negsuc, IsInt64, All,
}
use httpserver_demo.Decimal.{
  write_digits, nat_to_string, to_string, read_digits, skip_space, clamp_pos, signed, strtoll,
}
use httpserver_demo.Decimal.Shape.{
  write_digits-round, IsDigit, nat_to_string-IsDigit, nat_to_string-ne-nil,
}

-- Enough rounds write the digits that are read as `n`.
read_digits-write_digits :
    (fuel n : ℕ) (tail : Bytes)
    → n ≤ fuel
    → read_digits (write_digits fuel n tail) 0 ≡ read_digits tail n
unfolding read_digits write_digits
read_digits-write_digits zero n tail h = ap (read_digits tail) (omega arith)
read_digits-write_digits (suc fuel) n tail h = elim (write_digits-round fuel n tail) [
  | inl (z, e) ↦ ap (λ t. read_digits t 0) e ∙ ap (read_digits tail) (sym z)
  | inr (p, e) ↦
      ap (λ t. read_digits t 0) e
      ∙ read_digits-write_digits fuel (n / 10) ((n % 10 + b'0') ∷ tail) (omega arith)
      ∙ one_more (n % 10) (n / 10) n tail (omega arith) (omega arith)
]
  where
    one_more :
        (d q m : ℕ) (rest : Bytes)
        → d < 10
        → q * 10 + d ≡ m
        → read_digits ((d + b'0') ∷ rest) q ≡ read_digits rest m
    one_more d q m rest small whole = ground arith

read_digits-nat_to_string : (n : ℕ) → read_digits (nat_to_string n) 0 ≡ n
unfolding nat_to_string read_digits
read_digits-nat_to_string n = elim (Bool-cases (n == 0)) [
  | inl e ↦ rw e (ground arith)
  | inr e ↦ rw e (read_digits-write_digits n n [] (omega arith))
]

signed_of_digits :
    (s : Bytes) → All IsDigit s → s ≢ [] → signed (skip_space s) ≡ clamp_pos (read_digits s 0)
unfolding signed skip_space
signed_of_digits [] h p = absurd (p refl)
signed_of_digits (c ∷ s) h p = ground arith

-- Every value of `int64_t` is read back from its decimal text.
pub strtoll-to_string : (v : ℤ) → IsInt64 v → strtoll (to_string v) ≡ v
unfolding strtoll to_string
strtoll-to_string (pos n) h = ground (
  arith,
  signed_of_digits (nat_to_string n) (nat_to_string-IsDigit n) (nat_to_string-ne-nil n),
  read_digits-nat_to_string n,
)
strtoll-to_string (negsuc n) h = ground (arith, read_digits-nat_to_string (suc n))

pub nat_to_string_injective : (m n : ℕ) → nat_to_string m ≡ nat_to_string n → m ≡ n
nat_to_string_injective m n e =
    sym (read_digits-nat_to_string m) ∙ ap (λ s. read_digits s 0) e ∙ read_digits-nat_to_string n
