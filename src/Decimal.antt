-- ===== src/Decimal.antt =====
-- `std::to_string` on integers, `std::strtoll` with base 10 and no end pointer, and `std::stoi`.
pub mod Ints
pub mod RoundTrip
pub mod Shape
use httpserver_demo.Prelude.{
  ℕ, zero, suc, ◌+◌, ◌-◌, ◌*◌, ◌/◌, ◌%◌, ◌^◌, ◌<◌, ◌≡◌, refl, dite, Bool, true, false, ◌&&◌, ◌||◌,
  List, [], ◌∷◌, arith, dec_lt, ltb, leb, ◌==◌, if◌then◌else◌, Bytes, codes, ℤ, pos, negsuc,
  max_int64,
}

-- The digits of `n` in front of a tail, the last one written first. `n` rounds are enough, since
-- each one leaves a tenth.
pub write_digits : ℕ → ℕ → Bytes → Bytes
write_digits zero n tail = tail
write_digits (suc fuel) n tail = elim (n == 0) [
  | true ↦ tail
  | false ↦ write_digits fuel (n / 10) ((n % 10 + b'0') ∷ tail)
]

unfoldable pub nat_to_string : ℕ → Bytes
unfolding write_digits
nat_to_string n = if n == 0 then codes "0" else write_digits n n []

-- `std::to_string(long long)`, and of every narrower or unsigned type of the program.
unfoldable pub to_string : ℤ → Bytes
unfolding nat_to_string
to_string (pos n) = nat_to_string n
to_string (negsuc n) = b'-' ∷ nat_to_string (suc n)

abbrev is_digit : ℕ → Bool
is_digit c = leb b'0' c && leb c b'9'

-- `isspace` of the C locale.
abbrev is_space : ℕ → Bool
is_space c = c == 32 || (leb 9 c && leb c 13)

-- The value of the longest run of digits at the front, behind the value `n` of those before it.
read_digits : Bytes → ℕ → ℕ
read_digits [] n = n
read_digits (c ∷ s) n =
    let rest = read_digits s (n * 10 + (c - b'0')) in if is_digit c then rest else n

skip_space : Bytes → Bytes
skip_space [] = []
skip_space (c ∷ s) = if is_space c then skip_space s else c ∷ s

-- The result saturates at the two ends of `long long`.
clamp_pos : ℕ → ℤ
clamp_pos n = if ltb max_int64 n then pos max_int64 else pos n

clamp_neg : ℕ → ℤ
clamp_neg zero = pos 0
clamp_neg (suc n) = if ltb max_int64 n then negsuc max_int64 else negsuc n

signed : Bytes → ℤ
signed [] = pos 0
signed (c ∷ s) =
    if c == b'-'
    then clamp_neg (read_digits s 0)
    else if c == b'+'
    then clamp_pos (read_digits s 0)
    else clamp_pos (read_digits (c ∷ s) 0)

unfoldable pub strtoll : Bytes → ℤ
unfolding signed skip_space read_digits clamp_pos clamp_neg
strtoll s = signed (skip_space s)

pub data Stoi : Type 0 where
  parsed : ℤ → Stoi
  invalid_argument out_of_range : Stoi

starts_number : Bytes → Bool
starts_number [] = false
starts_number (c ∷ s) = is_digit c || ((c == b'-' || c == b'+') && first_digit s)
  where
    first_digit : Bytes → Bool
    first_digit [] = false
    first_digit (d ∷ r) = is_digit d

-- The range of `int`.
in_int : ℤ → Bool
in_int (pos n) = ltb n (2 ^ 31)
in_int (negsuc n) = ltb n (2 ^ 31)

-- The two exceptions of `std::stoi` are results.
unfoldable pub stoi : Bytes → Stoi
unfolding strtoll starts_number in_int
stoi s =
    let v = strtoll s in
    if starts_number (skip_space s)
    then if in_int v then parsed v else out_of_range
    else invalid_argument

to_string_tests :
    (to_string (pos 0) ≡ codes "0")
    × (to_string (pos 1730) ≡ codes "1730")
    × (to_string (negsuc 41) ≡ codes "-42")
unfolding to_string
to_string_tests = (refl, refl, refl)

strtoll_tests :
    (strtoll (codes " \t-12x") ≡ negsuc 11)
    × (strtoll (codes "x") ≡ pos 0)
    × (strtoll (codes "99999999999999999999") ≡ pos max_int64)
unfolding strtoll
strtoll_tests = (refl, refl, refl)

stoi_tests :
    (stoi (codes "8080") ≡ parsed (pos 8080))
    × (stoi (codes "port") ≡ invalid_argument)
    × (stoi (codes "2147483648") ≡ out_of_range)
unfolding stoi
stoi_tests = (refl, refl, refl)
