-- ===== src/Proto/CreateUserReply.antt =====
-- The message `CreateUserReply` of generated/user/v1/user.pb.cc.
use mathlib.Core.Option
use httpserver_demo.Prelude.{
  ℕ, ◌+◌, Bool, true, false, ◌||◌, [], ◌++◌, Option, none, some, if◌then◌else◌, Bytes, length, ◌≡◌,
  refl, ap, sym, ◌∙◌,
}
use httpserver_demo.Proto.{Wire, IsWire, append_size}
use httpserver_demo.Proto.User

-- `user` is none for a null pointer.
pub record Message : Type 0 where
  pub has : Bool
  pub user : Option User.Message
  pub unknown : Bytes

-- What `has_user` and `user` show.
abbrev pub seen : Message → Option User.Message
seen m = if m.has then m.user else none

abbrev UserConsistent : Option User.Message → Type 0
UserConsistent none = Unit
UserConsistent (some u) = User.IsConsistent u

abbrev is_set : Option User.Message → Bool
is_set none = false
is_set (some u) = true

pub record IsConsistent (m : Message) : Type 0 where
  pub user : UserConsistent m.user
  pub set : m.has ≡ true → is_set m.user ≡ true
  pub cleared : m.has ≡ false → Option.map User.clear m.user ≡ m.user

-- The user that the pointer holds is kept, and cleared.
abbrev pub clear : Message → Message
clear m = record {
  has = false;
  user = if m.has then Option.map User.clear m.user else m.user;
  unknown = [];
}

abbrev merge_user : Option User.Message → Option User.Message → Option User.Message
merge_user none to = to
merge_user (some from) none = some from
merge_user (some from) (some to) = some (User.merge_from from to)

-- `MergeImpl`, with the message that is merged first.
abbrev pub merge_from : Message → Message → Message
merge_from from to = record {
  has = to.has || from.has;
  user = if from.has then merge_user from.user to.user else to.user;
  unknown = to.unknown ++ from.unknown;
}

-- `CopyFrom` of another object.
abbrev pub copy_from : Message → Message → Message
copy_from from to = merge_from from (clear to)

-- The two messages afterwards.
abbrev pub internal_swap : Message → Message → Message × Message
internal_swap m other = (
  record { has = other.has; user = other.user; unknown = other.unknown },
  record { has = m.has; user = m.user; unknown = m.unknown },
)

copy_user :
    (h k : Bool) (u v : Option User.Message)
    → UserConsistent u
    → UserConsistent v
    → (h ≡ true → is_set u ≡ true)
    → (k ≡ false → Option.map User.clear v ≡ v)
    → (if h
        then if h
          then merge_user u (if k then Option.map User.clear v else v)
          else if k
          then Option.map User.clear v
          else v
        else none)
      ≡ (if h then u else none)
copy_user false k u v c d f g = refl
copy_user true k none v c d f g = absurd (cc (f refl))
copy_user true true (some u) none c d f g = refl
copy_user true true (some u) (some v) c d f g = ap some (User.copy_from_lem u v c d)
copy_user true false (some u) none c d f g = refl
copy_user true false (some u) (some v) c d f g =
    ap (merge_user (some u)) (sym (g refl)) ∙ ap some (User.copy_from_lem u v c d)

-- A copy of a consistent message into a consistent message shows the user that the message shows,
-- whatever the target held before.
pub seen-copy_from :
    (from to : Message) → IsConsistent from → IsConsistent to → seen (copy_from from to) ≡ seen from
seen-copy_from from to c d =
    copy_user from.has to.has from.user to.user c.user d.user c.set d.cleared

module _ (W : Wire) where
  abbrev write_user : Option User.Message → Bytes
  write_user none = []
  write_user (some u) = W.write_message 1 (User.byte_size W u) (User.serialize W u)

  abbrev user_size : Option User.Message → ℕ
  user_size none = 0
  user_size (some u) = 1 + W.message_size (User.byte_size W u)

  -- The user's cached size is the one that `ByteSizeLong` has stored before.
  abbrev pub serialize : Message → Bytes
  serialize m = (if m.has then write_user m.user else []) ++ m.unknown

  -- `ByteSizeLong`
  abbrev pub byte_size : Message → ℕ
  byte_size m = (if m.has then user_size m.user else 0) + length m.unknown

  length-user :
      IsWire W
      → (h : Bool) (u : Option User.Message)
      → length (if h then write_user u else []) ≡ (if h then user_size u else 0)
  length-user laws false u = refl
  length-user laws true none = refl
  length-user laws true (some u) =
      let e = User.length-serialize W laws u in
      ap (λ n. length (W.write_message 1 n (User.serialize W u))) (sym e)
      ∙ laws.length-message 1 (User.serialize W u)
      ∙ ap (λ n. 1 + W.message_size n) e

  -- A message is serialized in as many bytes as its size says.
  pub length-serialize : IsWire W → (m : Message) → length (serialize m) ≡ byte_size m
  length-serialize laws m = append_size _ _ _ _ (length-user laws m.has m.user) refl
