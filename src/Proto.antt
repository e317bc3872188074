-- ===== src/Proto.antt =====
-- generated/user/v1/user.pb.cc: the messages of the protocol as protoc generates them. The
-- protobuf runtime's writers and their sizes are an argument, `Wire`; a set of unknown fields is
-- its wire form. A field is its has-bit and its value. A text that is not UTF-8 is only logged by
-- the source when it is written.
pub mod User
pub mod CreateUserRequest
pub mod CreateUserReply
pub mod GetUserRequest
pub mod GetUserReply
pub mod ListUsersRequest
pub mod ListUsersReply
pub mod GetStatsReply
use httpserver_demo.Prelude.{
  ℕ, ◌+◌, Bool, true, false, ◌||◌, List, [], ◌∷◌, ◌++◌, arith, if◌then◌else◌, Bytes, is_empty, ℤ,
  pos, negsuc, ◌==◌, length, length-append, ◌≡◌, refl, ap, ◌∙◌,
}

pub record Wire : Type 0 where
  -- `WriteStringMaybeAliased` with a field's number, and `StringSize`
  pub write_string : ℕ → Bytes → Bytes
  pub string_size : Bytes → ℕ
  -- `WriteInt64ToArrayWithField` and `Int64SizePlusOne`
  pub write_int64 : ℕ → ℤ → Bytes
  pub int64_size_plus_one : ℤ → ℕ
  -- `WriteInt32ToArrayWithField` and `Int32SizePlusOne`
  pub write_int32 : ℕ → ℤ → Bytes
  pub int32_size_plus_one : ℤ → ℕ
  -- `InternalWriteMessage` with a field's number, the message's cached size and its own bytes, and
  -- the size that `MessageSize` makes of the message's size
  pub write_message : ℕ → ℕ → Bytes → Bytes
  pub message_size : ℕ → ℕ

-- What the generated code relies on: a writer writes as many bytes as the size says, with one byte
-- for the tag.
pub record IsWire (W : Wire) : Type 0 where
  pub length-string : (n : ℕ) (s : Bytes) → length (W.write_string n s) ≡ 1 + W.string_size s
  pub length-int64 : (n : ℕ) (v : ℤ) → length (W.write_int64 n v) ≡ W.int64_size_plus_one v
  pub length-int32 : (n : ℕ) (v : ℤ) → length (W.write_int32 n v) ≡ W.int32_size_plus_one v
  pub length-message :
      (n : ℕ) (body : Bytes)
      → length (W.write_message n (length body) body) ≡ 1 + W.message_size (length body)

pub record Text : Type 0 where
  pub has : Bool
  pub value : Bytes

pub record Number : Type 0 where
  pub has : Bool
  pub value : ℤ

abbrev pub is_zero : ℤ → Bool
is_zero (pos n) = n == 0
is_zero (negsuc n) = false

-- `ClearNonDefaultToEmpty` under the has-bit, and the reset of the bit.
abbrev pub clear_text : Text → Text
clear_text t = record { has = false; value = if t.has then [] else t.value }

-- The number is reset whatever its bit says.
abbrev pub clear_number : Number → Number
clear_number v = record { has = false; value = pos 0 }

-- Two numbers are reset at once if one of their bits is set.
abbrev pub clear_both : Number → Number → Number
clear_both v other = record { has = false; value = if v.has || other.has then pos 0 else v.value }

abbrev pub merge_text : Text → Text → Text
merge_text from to = record {
  has = to.has || from.has;
  value = if from.has then if is_empty from.value then to.value else from.value else to.value;
}

abbrev pub merge_number : Number → Number → Number
merge_number from to = record {
  has = to.has || from.has;
  value = if from.has then if is_zero from.value then to.value else from.value else to.value;
}

-- `CheckHasBitConsistency`: a field whose bit is not set holds its default.
abbrev pub TextConsistent : Text → Type 0
TextConsistent t = t.has ≡ false → t.value ≡ []

abbrev pub NumberConsistent : Number → Type 0
NumberConsistent v = v.has ≡ false → v.value ≡ pos 0

empty_of : (s : Bytes) → is_empty s ≡ true → s ≡ []
empty_of [] h = refl
empty_of (c ∷ s) h = absurd (cc h)

zero_of : (v : ℤ) → is_zero v ≡ true → v ≡ pos 0
zero_of (pos n) h = ap pos (ground arith)
zero_of (negsuc n) h = absurd (cc h)

merge-clear_text_value :
    (h k : Bool) (v w : Bytes)
    → (h ≡ false → v ≡ [])
    → (k ≡ false → w ≡ [])
    → (if h then if is_empty v then if k then [] else w else v else if k then [] else w) ≡ v
merge-clear_text_value true true [] w f g = refl
merge-clear_text_value true true (c ∷ v) w f g = refl
merge-clear_text_value true false [] w f g = g refl
merge-clear_text_value true false (c ∷ v) w f g = refl
merge-clear_text_value false true v w f g = ground (arith, f refl)
merge-clear_text_value false false v w f g = ground (arith, f refl, g refl)

-- A field is copied by clearing and merging.
pub merge-clear_text :
    (from to : Text)
    → TextConsistent from
    → TextConsistent to
    → merge_text from (clear_text to) ≡ from
merge-clear_text from to f g =
    ap (λ v. record { has = from.has; value = v })
      (merge-clear_text_value from.has to.has from.value to.value f g)

merge_number_value :
    (h : Bool) (v w : ℤ)
    → (h ≡ false → v ≡ pos 0)
    → w ≡ pos 0
    → (if h then if is_zero v then w else v else w) ≡ v
merge_number_value true v w f z = ground (arith, zero_of v)
merge_number_value false v w f z = ground (arith, f refl)

pub merge-clear_number :
    (from to : Number) → NumberConsistent from → merge_number from (clear_number to) ≡ from
merge-clear_number from to f =
    ap (λ v. record { has = from.has; value = v })
      (merge_number_value from.has from.value (pos 0) f refl)

both_value : (h k : Bool) (v : ℤ) → (h ≡ false → v ≡ pos 0) → (if h || k then pos 0 else v) ≡ pos 0
both_value true k v f = refl
both_value false true v f = refl
both_value false false v f = f refl

pub merge-clear_both :
    (from to other : Number)
    → NumberConsistent from
    → NumberConsistent to
    → merge_number from (clear_both to other) ≡ from
merge-clear_both from to other f g =
    ap (λ v. record { has = from.has; value = v })
      (merge_number_value from.has from.value _ f (both_value to.has other.has to.value g))

pub append_size : (a b : Bytes) (n k : ℕ) → length a ≡ n → length b ≡ k → length (a ++ b) ≡ n + k
append_size a b n k e f = omega (arith, length-append a b, e, f)

module _ (W : Wire) where
  abbrev pub write_text : ℕ → Text → Bytes
  write_text n t = if t.has then if is_empty t.value then [] else W.write_string n t.value else []

  abbrev pub text_size : Text → ℕ
  text_size t = if t.has then if is_empty t.value then 0 else 1 + W.string_size t.value else 0

  abbrev pub write_int64 : ℕ → Number → Bytes
  write_int64 n v = if v.has then if is_zero v.value then [] else W.write_int64 n v.value else []

  abbrev pub int64_size : Number → ℕ
  int64_size v = if v.has then if is_zero v.value then 0 else W.int64_size_plus_one v.value else 0

  abbrev pub write_int32 : ℕ → Number → Bytes
  write_int32 n v = if v.has then if is_zero v.value then [] else W.write_int32 n v.value else []

  abbrev pub int32_size : Number → ℕ
  int32_size v = if v.has then if is_zero v.value then 0 else W.int32_size_plus_one v.value else 0

  module _ (laws : IsWire W) where
    length_if :
        (h z : Bool) (a : Bytes) (n : ℕ)
        → length a ≡ n
        → length (if h then if z then [] else a else []) ≡ (if h then if z then 0 else n else 0)
    length_if true true a n e = refl
    length_if true false a n e = e
    length_if false z a n e = refl

    pub length-write_text : (n : ℕ) (t : Text) → length (write_text n t) ≡ text_size t
    length-write_text n t = length_if t.has (is_empty t.value) _ _ (laws.length-string n t.value)

    pub length-write_int64 : (n : ℕ) (v : Number) → length (write_int64 n v) ≡ int64_size v
    length-write_int64 n v = length_if v.has (is_zero v.value) _ _ (laws.length-int64 n v.value)

    pub length-write_int32 : (n : ℕ) (v : Number) → length (write_int32 n v) ≡ int32_size v
    length-write_int32 n v = length_if v.has (is_zero v.value) _ _ (laws.length-int32 n v.value)
