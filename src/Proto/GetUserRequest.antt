-- ===== src/Proto/GetUserRequest.antt =====
-- The message `GetUserRequest` of generated/user/v1/user.pb.cc.
use httpserver_demo.Prelude.{ℕ, ◌+◌, [], ◌++◌, Bytes, length, ◌≡◌, refl}
use httpserver_demo.Proto.{
  IsWire, Text, TextConsistent, Wire, append_size, clear_text, length-write_text, merge-clear_text,
  merge_text, text_size, write_text,
}

pub record Message : Type 0 where
  pub id : Text
  pub unknown : Bytes

pub record IsConsistent (m : Message) : Type 0 where
  pub id : TextConsistent m.id

abbrev pub clear : Message → Message
clear m = record { id = clear_text m.id; unknown = [] }

-- `MergeImpl`, with the message that is merged first.
abbrev pub merge_from : Message → Message → Message
merge_from from to = record { id = merge_text from.id to.id; unknown = to.unknown ++ from.unknown }

-- `CopyFrom` of another object.
abbrev pub copy_from : Message → Message → Message
copy_from from to = merge_from from (clear to)

-- The two messages afterwards.
abbrev pub internal_swap : Message → Message → Message × Message
internal_swap m other =
    (record { id = other.id; unknown = other.unknown }, record { id = m.id; unknown = m.unknown })

-- A copy of a consistent message into a consistent message is the message, whatever the target
-- held before.
pub copy_from_lem :
    (from to : Message) → IsConsistent from → IsConsistent to → copy_from from to ≡ from
copy_from_lem from to c d =
    λ i. record { id = merge-clear_text from.id to.id c.id d.id i; unknown = from.unknown }

module _ (W : Wire) where
  abbrev pub serialize : Message → Bytes
  serialize m = write_text W 1 m.id ++ m.unknown

  -- `ByteSizeLong`
  abbrev pub byte_size : Message → ℕ
  byte_size m = text_size W m.id + length m.unknown

  -- A message is serialized in as many bytes as its size says.
  pub length-serialize : IsWire W → (m : Message) → length (serialize m) ≡ byte_size m
  length-serialize laws m = append_size _ _ _ _ (length-write_text W laws 1 m.id) refl
