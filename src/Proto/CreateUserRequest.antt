-- ===== src/Proto/CreateUserRequest.antt =====
-- The message `CreateUserRequest` of generated/user/v1/user.pb.cc.
use httpserver_demo.Prelude.{ℕ, ◌+◌, [], ◌++◌, Bytes, length, ◌≡◌, refl}
use httpserver_demo.Proto.{
  IsWire, Text, TextConsistent, Wire, append_size, clear_text, length-write_text, merge-clear_text,
  merge_text, text_size, write_text,
}

pub record Message : Type 0 where
  pub name : Text
  pub email : Text
  pub unknown : Bytes

pub record IsConsistent (m : Message) : Type 0 where
  pub name : TextConsistent m.name
  pub email : TextConsistent m.email

abbrev pub clear : Message → Message
clear m = record { name = clear_text m.name; email = clear_text m.email; unknown = [] }

-- `MergeImpl`, with the message that is merged first.
abbrev pub merge_from : Message → Message → Message
merge_from from to = record {
  name = merge_text from.name to.name;
  email = merge_text from.email to.email;
  unknown = to.unknown ++ from.unknown;
}

-- `CopyFrom` of another object.
abbrev pub copy_from : Message → Message → Message
copy_from from to = merge_from from (clear to)

-- The two messages afterwards.
abbrev pub internal_swap : Message → Message → Message × Message
internal_swap m other = (
  record { name = other.name; email = other.email; unknown = other.unknown },
  record { name = m.name; email = m.email; unknown = m.unknown },
)

-- A copy of a consistent message into a consistent message is the message, whatever the target
-- held before.
pub copy_from_lem :
    (from to : Message) → IsConsistent from → IsConsistent to → copy_from from to ≡ from
copy_from_lem from to c d = λ i. record {
  name = merge-clear_text from.name to.name c.name d.name i;
  email = merge-clear_text from.email to.email c.email d.email i;
  unknown = from.unknown;
}

module _ (W : Wire) where
  abbrev pub serialize : Message → Bytes
  serialize m = write_text W 1 m.name ++ (write_text W 2 m.email ++ m.unknown)

  -- `ByteSizeLong`
  abbrev pub byte_size : Message → ℕ
  byte_size m = text_size W m.name + (text_size W m.email + length m.unknown)

  -- A message is serialized in as many bytes as its size says.
  pub length-serialize : IsWire W → (m : Message) → length (serialize m) ≡ byte_size m
  length-serialize laws m =
      append_size _ _ _ _ (length-write_text W laws 1 m.name)
        (append_size _ _ _ _ (length-write_text W laws 2 m.email) refl)
