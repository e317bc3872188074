-- ===== src/Decimal/Ints.antt =====
-- The range of `std::stoi`.
use httpserver_demo.Prelude.{
  true, ◌<◌, ◌^◌, arith, Bytes, ℤ, pos, negsuc, Bool-cases, ◌≡◌, refl, inl, inr,
}
use httpserver_demo.Decimal.{Stoi, parsed, stoi, strtoll, in_int, starts_number, skip_space}

-- The values of `int`.
abbrev pub IsInt : ℤ → Type 0
IsInt (pos n) = n < 2 ^ 31
IsInt (negsuc n) = n < 2 ^ 31

-- What `std::stoi` makes of a text.
abbrev pub IsIntOf : Bytes → Stoi → Type 0
IsIntOf s (parsed v) = IsInt v × (v ≡ strtoll s)
IsIntOf s r = Unit

in_int-IsInt : (v : ℤ) → in_int v ≡ true → IsInt v
unfolding in_int
in_int-IsInt (pos n) h = ground arith
in_int-IsInt (negsuc n) h = ground arith

-- What is parsed is an `int`, and the one that the text denotes.
pub stoi-IsInt : (s : Bytes) → IsIntOf s (stoi s)
unfolding stoi
stoi-IsInt s = elim (Bool-cases (starts_number (skip_space s))) [
  | inr e ↦ rw e tt
  | inl e ↦ elim (Bool-cases (in_int (strtoll s))) [
    | inr f ↦ rw (e, f) tt
    | inl f ↦ rw (e, f) (in_int-IsInt (strtoll s) f, refl)
  ]
]
