-- ===== src/Repository/Keys.antt =====
-- The keys of the cache do not meet.
use httpserver_demo.Prelude.{
  ℕ, ◌≤◌, false, [], ◌∷◌, ◌++◌, arith, Bytes, codes, beq, ℤ, pos, negsuc, All, All-append, NoNul,
  ◌≡◌, ◌≢◌, refl, ap, sym, suc,
}
use httpserver_demo.Decimal.{nat_to_string, to_string}
use httpserver_demo.Decimal.Shape.{IsDigit, nat_to_string-IsDigit}
use httpserver_demo.Decimal.RoundTrip.{nat_to_string_injective}
use httpserver_demo.Repository.{
  list_cache_key, user_key, list_cache_index, total_users_key, request_count_key,
}

-- A minus sign or a digit.
abbrev pub IsSigned : ℕ → Type 0
IsSigned c = (b'-' ≤ c) × (c ≤ b'9')

IsSigned-of_IsDigit : (s : Bytes) → All IsDigit s → All IsSigned s
IsSigned-of_IsDigit [] h = tt
IsSigned-of_IsDigit (c ∷ s) h = (omega arith, IsSigned-of_IsDigit s h.1)

pub to_string-IsSigned : (v : ℤ) → All IsSigned (to_string v)
unfolding to_string
to_string-IsSigned (pos n) = IsSigned-of_IsDigit _ (nat_to_string-IsDigit n)
to_string-IsSigned (negsuc n) = (omega arith, IsSigned-of_IsDigit _ (nat_to_string-IsDigit (suc n)))

minus_digits : (s r : Bytes) → All IsDigit s → s ≢ b'-' ∷ r
minus_digits [] r h e = cc
minus_digits (c ∷ s) r h e = ground arith

to_string_injective : (v w : ℤ) → to_string v ≡ to_string w → v ≡ w
unfolding to_string
to_string_injective (pos m) (pos n) e = ap pos (nat_to_string_injective m n e)
to_string_injective (pos m) (negsuc n) e = absurd (minus_digits _ _ (nat_to_string-IsDigit m) e)
to_string_injective (negsuc m) (pos n) e =
    absurd
      (minus_digits (nat_to_string n) (nat_to_string (suc m)) (nat_to_string-IsDigit n) (sym e))
to_string_injective (negsuc m) (negsuc n) e =
    ground (arith, nat_to_string_injective (suc m) (suc n) (cc e))

split_at_colon :
    (xs ys us vs : Bytes)
    → All IsSigned xs
    → All IsSigned us
    → xs ++ b':' ∷ ys ≡ us ++ b':' ∷ vs
    → (xs ≡ us) × (ys ≡ vs)
split_at_colon [] ys [] vs h k e = (refl, cc e)
split_at_colon [] ys (u ∷ us) vs h k e = ground arith
split_at_colon (x ∷ xs) ys [] vs h k e = ground arith
split_at_colon (x ∷ xs) ys (u ∷ us) vs h k e = ground (arith, split_at_colon xs ys us vs h.1 k.1)

-- Pages with other parameters have other keys, negative parameters included.
pub list_cache_key_injective :
    (l o l' o' : ℤ) → list_cache_key l o ≡ list_cache_key l' o' → (l ≡ l') × (o ≡ o')
unfolding list_cache_key
list_cache_key_injective l o l' o' e =
    let (p, q) =
      split_at_colon (to_string l) (to_string o) (to_string l') (to_string o')
        (to_string-IsSigned l) (to_string-IsSigned l') (cc e) in
    (to_string_injective l l' p, to_string_injective o o' q)

NoNul-of_IsSigned : (s : Bytes) → All IsSigned s → NoNul s
NoNul-of_IsSigned [] h = tt
NoNul-of_IsSigned (c ∷ s) h = (omega arith, NoNul-of_IsSigned s h.1)

pub to_string-NoNul : (v : ℤ) → NoNul (to_string v)
to_string-NoNul v = NoNul-of_IsSigned _ (to_string-IsSigned v)

pub nat_to_string-NoNul : (n : ℕ) → NoNul (nat_to_string n)
nat_to_string-NoNul n = NoNul-of_IsSigned _ (IsSigned-of_IsDigit _ (nat_to_string-IsDigit n))

pub list_cache_key-NoNul : (l o : ℤ) → NoNul (list_cache_key l o)
unfolding list_cache_key
list_cache_key-NoNul l o =
    All-append _ (codes "users:list:") _ (omega arith)
      (All-append _ (to_string l) _ (to_string-NoNul l) (omega arith, to_string-NoNul o))

pub user_key-NoNul : (id : Bytes) → NoNul id → NoNul (user_key id)
user_key-NoNul id h = All-append _ (codes "user:") id (omega arith) h

module _ (l o : ℤ) where
  pub page-user : (id : Bytes) → beq (list_cache_key l o) (user_key id) ≡ false
  unfolding list_cache_key
  page-user id = refl

  pub user-page : (id : Bytes) → beq (user_key id) (list_cache_key l o) ≡ false
  unfolding list_cache_key
  user-page id = refl

  pub page-total : beq (list_cache_key l o) total_users_key ≡ false
  unfolding list_cache_key
  page-total = refl

  pub total-page : beq total_users_key (list_cache_key l o) ≡ false
  unfolding list_cache_key
  total-page = refl

  pub page-index : beq (list_cache_key l o) list_cache_index ≡ false
  unfolding list_cache_key
  page-index = refl

  pub index-page : beq list_cache_index (list_cache_key l o) ≡ false
  unfolding list_cache_key
  index-page = refl

  pub page-requests : beq (list_cache_key l o) request_count_key ≡ false
  unfolding list_cache_key
  page-requests = refl
