-- ===== src/Proto/ListUsersRequest.antt =====
-- The message `ListUsersRequest` of generated/user/v1/user.pb.cc.
use httpserver_demo.Prelude.{ℕ, ◌+◌, [], ◌++◌, Bytes, length, ◌≡◌, refl}
use httpserver_demo.Proto.{
  IsWire, Number, NumberConsistent, Wire, append_size, clear_both, int32_size, length-write_int32,
  merge-clear_both, merge_number, write_int32,
}

pub record Message : Type 0 where
  pub limit : Number
  pub offset : Number
  pub unknown : Bytes

pub record IsConsistent (m : Message) : Type 0 where
  pub limit : NumberConsistent m.limit
  pub offset : NumberConsistent m.offset

abbrev pub clear : Message → Message
clear m = record {
  limit = clear_both m.limit m.offset;
  offset = clear_both m.offset m.limit;
  unknown = [];
}

-- `MergeImpl`, with the message that is merged first.
abbrev pub merge_from : Message → Message → Message
merge_from from to = record {
  limit = merge_number from.limit to.limit;
  offset = merge_number from.offset to.offset;
  unknown = to.unknown ++ from.unknown;
}

-- `CopyFrom` of another object.
abbrev pub copy_from : Message → Message → Message
copy_from from to = merge_from from (clear to)

-- The two messages afterwards.
abbrev pub internal_swap : Message → Message → Message × Message
internal_swap m other = (
  record { limit = other.limit; offset = other.offset; unknown = other.unknown },
  record { limit = m.limit; offset = m.offset; unknown = m.unknown },
)

-- A copy of a consistent message into a consistent message is the message, whatever the target
-- held before.
pub copy_from_lem :
    (from to : Message) → IsConsistent from → IsConsistent to → copy_from from to ≡ from
copy_from_lem from to c d = λ i. record {
  limit = merge-clear_both from.limit to.limit to.offset c.limit d.limit i;
  offset = merge-clear_both from.offset to.offset to.limit c.offset d.offset i;
  unknown = from.unknown;
}

module _ (W : Wire) where
  abbrev pub serialize : Message → Bytes
  serialize m = write_int32 W 1 m.limit ++ (write_int32 W 2 m.offset ++ m.unknown)

  -- `ByteSizeLong`
  abbrev pub byte_size : Message → ℕ
  byte_size m = int32_size W m.limit + (int32_size W m.offset + length m.unknown)

  -- A message is serialized in as many bytes as its size says.
  pub length-serialize : IsWire W → (m : Message) → length (serialize m) ≡ byte_size m
  length-serialize laws m =
      append_size _ _ _ _ (length-write_int32 W laws 1 m.limit)
        (append_size _ _ _ _ (length-write_int32 W laws 2 m.offset) refl)
