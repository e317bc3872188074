-- ===== src/Proto/GetStatsReply.antt =====
-- The message `GetStatsReply` of generated/user/v1/user.pb.cc.
use httpserver_demo.Prelude.{ℕ, ◌+◌, [], ◌++◌, Bytes, length, ◌≡◌, refl}
use httpserver_demo.Proto.{
  IsWire, Number, NumberConsistent, Wire, append_size, clear_both, int64_size, length-write_int64,
  merge-clear_both, merge_number, write_int64,
}

pub record Message : Type 0 where
  pub total_users : Number
  pub request_count : Number
  pub unknown : Bytes

pub record IsConsistent (m : Message) : Type 0 where
  pub total_users : NumberConsistent m.total_users
  pub request_count : NumberConsistent m.request_count

abbrev pub clear : Message → Message
clear m = record {
  total_users = clear_both m.total_users m.request_count;
  request_count = clear_both m.request_count m.total_users;
  unknown = [];
}

-- `MergeImpl`, with the message that is merged first.
abbrev pub merge_from : Message → Message → Message
merge_from from to = record {
  total_users = merge_number from.total_users to.total_users;
  request_count = merge_number from.request_count to.request_count;
  unknown = to.unknown ++ from.unknown;
}

-- `CopyFrom` of another object.
abbrev pub copy_from : Message → Message → Message
copy_from from to = merge_from from (clear to)

-- The two messages afterwards.
abbrev pub internal_swap : Message → Message → Message × Message
internal_swap m other = (
  record {
    total_users = other.total_users;
    request_count = other.request_count;
    unknown = other.unknown;
  },
  record { total_users = m.total_users; request_count = m.request_count; unknown = m.unknown },
)

-- A copy of a consistent message into a consistent message is the message, whatever the target
-- held before.
pub copy_from_lem :
    (from to : Message) → IsConsistent from → IsConsistent to → copy_from from to ≡ from
copy_from_lem from to c d = λ i. record {
  total_users =
      merge-clear_both from.total_users to.total_users to.request_count c.total_users d.total_users
        i;
  request_count =
      merge-clear_both from.request_count to.request_count to.total_users c.request_count
        d.request_count i;
  unknown = from.unknown;
}

module _ (W : Wire) where
  abbrev pub serialize : Message → Bytes
  serialize m = write_int64 W 1 m.total_users ++ (write_int64 W 2 m.request_count ++ m.unknown)

  -- `ByteSizeLong`
  abbrev pub byte_size : Message → ℕ
  byte_size m = int64_size W m.total_users + (int64_size W m.request_count + length m.unknown)

  -- A message is serialized in as many bytes as its size says.
  pub length-serialize : IsWire W → (m : Message) → length (serialize m) ≡ byte_size m
  length-serialize laws m =
      append_size _ _ _ _ (length-write_int64 W laws 1 m.total_users)
        (append_size _ _ _ _ (length-write_int64 W laws 2 m.request_count) refl)
