-- ===== src/Proto/ListUsersReply.antt =====
-- The message `ListUsersReply` of generated/user/v1/user.pb.cc.
use httpserver_demo.Prelude.{
  ℕ, ◌+◌, Bool, true, false, ◌||◌, List, [], ◌∷◌, ◌++◌, arith, if◌then◌else◌, Bytes, length, ◌≡◌,
  refl, ap, sym, ◌∙◌,
}
use httpserver_demo.Proto.{
  Wire, IsWire, Number, NumberConsistent, clear_number, merge_number, merge-clear_number,
  write_int64, int64_size, length-write_int64, append_size,
}
use httpserver_demo.Proto.User

pub record Message : Type 0 where
  pub has_users : Bool
  pub users : List User.Message
  pub total : Number
  pub unknown : Bytes

pub record IsConsistent (m : Message) : Type 0 where
  pub users : m.has_users ≡ false → m.users ≡ []
  pub total : NumberConsistent m.total

abbrev pub clear : Message → Message
clear m = record {
  has_users = false;
  users = if m.has_users then [] else m.users;
  total = clear_number m.total;
  unknown = [];
}

-- `MergeImpl`, with the message that is merged first.
abbrev pub merge_from : Message → Message → Message
merge_from from to = record {
  has_users = to.has_users || from.has_users;
  users = if from.has_users then to.users ++ from.users else to.users;
  total = merge_number from.total to.total;
  unknown = to.unknown ++ from.unknown;
}

-- `CopyFrom` of another object.
abbrev pub copy_from : Message → Message → Message
copy_from from to = merge_from from (clear to)

-- The two messages afterwards.
abbrev pub internal_swap : Message → Message → Message × Message
internal_swap m other = (
  record {
    has_users = other.has_users;
    users = other.users;
    total = other.total;
    unknown = other.unknown;
  },
  record { has_users = m.has_users; users = m.users; total = m.total; unknown = m.unknown },
)

cleared_users :
    (k : Bool) (vs : List User.Message) → (k ≡ false → vs ≡ []) → (if k then [] else vs) ≡ []
cleared_users true vs g = refl
cleared_users false vs g = g refl

copied_users :
    (h : Bool) (us vs : List User.Message)
    → (h ≡ false → us ≡ [])
    → vs ≡ []
    → (if h then vs ++ us else vs) ≡ us
copied_users true us vs f e = ap (λ l. l ++ us) e
copied_users false us vs f e = e ∙ sym (f refl)

-- A copy of a consistent message into a consistent message is the message, whatever the target
-- held before: no user of the target is left in the list.
pub list_copy_from_lem :
    (from to : Message) → IsConsistent from → IsConsistent to → copy_from from to ≡ from
list_copy_from_lem from to c d = λ i. record {
  has_users = from.has_users;
  users =
      copied_users from.has_users from.users _ c.users (cleared_users to.has_users to.users d.users)
        i;
  total = merge-clear_number from.total to.total c.total i;
  unknown = from.unknown;
}

module _ (W : Wire) where
  -- The users' cached sizes are those that `ByteSizeLong` has stored before.
  abbrev pub write_users : List User.Message → Bytes
  write_users [] = []
  write_users (u ∷ us) =
      W.write_message 1 (User.byte_size W u) (User.serialize W u) ++ write_users us

  abbrev pub sizes : List User.Message → ℕ
  sizes [] = 0
  sizes (u ∷ us) = W.message_size (User.byte_size W u) + sizes us

  abbrev pub serialize : Message → Bytes
  serialize m =
      (if m.has_users then write_users m.users else []) ++ (write_int64 W 2 m.total ++ m.unknown)

  -- `ByteSizeLong`
  abbrev pub byte_size : Message → ℕ
  byte_size m =
      (if m.has_users then length m.users + sizes m.users else 0)
      + (int64_size W m.total + length m.unknown)

  length-write_users :
      IsWire W → (us : List User.Message) → length (write_users us) ≡ length us + sizes us
  length-write_users laws [] = refl
  length-write_users laws (u ∷ us) =
      let e = User.length-serialize W laws u in
      let one =
        ap (λ n. length (W.write_message 1 n (User.serialize W u))) (sym e)
        ∙ laws.length-message 1 (User.serialize W u)
        ∙ ap (λ n. 1 + W.message_size n) e in
      append_size _ _ _ _ one (length-write_users laws us) ∙ omega arith

  length-users :
      IsWire W
      → (h : Bool) (us : List User.Message)
      → length (if h then write_users us else []) ≡ (if h then length us + sizes us else 0)
  length-users laws true us = length-write_users laws us
  length-users laws false us = refl

  -- A list of users is serialized in as many bytes as its size says: that of every user in it, with
  -- its tag and length, of the total, and of the unknown fields.
  pub length-list_serialize : IsWire W → (m : Message) → length (serialize m) ≡ byte_size m
  length-list_serialize laws m =
      append_size _ _ _ _ (length-users laws m.has_users m.users)
        (append_size _ _ _ _ (length-write_int64 W laws 2 m.total) refl)
