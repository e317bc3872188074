-- ===== src/Proto/User.antt =====
-- The message `User` of generated/user/v1/user.pb.cc.
use httpserver_demo.Prelude.{ℕ, ◌+◌, [], ◌++◌, Bytes, length, ◌≡◌, refl}
use httpserver_demo.Proto.{
  IsWire, Number, NumberConsistent, Text, TextConsistent, Wire, append_size, clear_number,
  clear_text, int64_size, length-write_int64, length-write_text, merge-clear_number,
  merge-clear_text, merge_number, merge_text, text_size, write_int64, write_text,
}

pub record Message : Type 0 where
  pub id : Text
  pub name : Text
  pub email : Text
  pub created_at : Number
  pub unknown : Bytes

pub record IsConsistent (m : Message) : Type 0 where
  pub id : TextConsistent m.id
  pub name : TextConsistent m.name
  pub email : TextConsistent m.email
  pub created_at : NumberConsistent m.created_at

abbrev pub clear : Message → Message
clear m = record {
  id = clear_text m.id;
  name = clear_text m.name;
  email = clear_text m.email;
  created_at = clear_number m.created_at;
  unknown = [];
}

-- `MergeImpl`, with the message that is merged first.
abbrev pub merge_from : Message → Message → Message
merge_from from to = record {
  id = merge_text from.id to.id;
  name = merge_text from.name to.name;
  email = merge_text from.email to.email;
  created_at = merge_number from.created_at to.created_at;
  unknown = to.unknown ++ from.unknown;
}

-- `CopyFrom` of another object.
abbrev pub copy_from : Message → Message → Message
copy_from from to = merge_from from (clear to)

-- The two messages afterwards.
abbrev pub internal_swap : Message → Message → Message × Message
internal_swap m other = (
  record {
    id = other.id;
    name = other.name;
    email = other.email;
    created_at = other.created_at;
    unknown = other.unknown;
  },
  record {
    id = m.id;
    name = m.name;
    email = m.email;
    created_at = m.created_at;
    unknown = m.unknown;
  },
)

-- A copy of a consistent message into a consistent message is the message, whatever the target
-- held before.
pub copy_from_lem :
    (from to : Message) → IsConsistent from → IsConsistent to → copy_from from to ≡ from
copy_from_lem from to c d = λ i. record {
  id = merge-clear_text from.id to.id c.id d.id i;
  name = merge-clear_text from.name to.name c.name d.name i;
  email = merge-clear_text from.email to.email c.email d.email i;
  created_at = merge-clear_number from.created_at to.created_at c.created_at i;
  unknown = from.unknown;
}

module _ (W : Wire) where
  abbrev pub serialize : Message → Bytes
  serialize m =
      write_text W 1 m.id
      ++ (write_text W 2 m.name
          ++ (write_text W 3 m.email ++ (write_int64 W 4 m.created_at ++ m.unknown)))

  -- `ByteSizeLong`
  abbrev pub byte_size : Message → ℕ
  byte_size m =
      text_size W m.id
      + (text_size W m.name
          + (text_size W m.email + (int64_size W m.created_at + length m.unknown)))

  -- A message is serialized in as many bytes as its size says.
  pub length-serialize : IsWire W → (m : Message) → length (serialize m) ≡ byte_size m
  length-serialize laws m = append_size _ _ _ _ (length-write_text W laws 1 m.id) (
      append_size _ _ _ _ (length-write_text W laws 2 m.name) (
        append_size _ _ _ _ (length-write_text W laws 3 m.email)
          (append_size _ _ _ _ (length-write_int64 W laws 4 m.created_at) refl)))
