-- ===== src/Example/Messages.antt =====
-- Runs of the generated messages of generated/user/v1/user.pb.cc on a small wire format: a
-- length or a number is one code.
use httpserver_demo.Prelude.{
  ℕ, ◌+◌, ◌*◌, true, false, [], ◌∷◌, some, arith, Bytes, codes, ℤ, pos, negsuc, length, ◌≡◌, refl,
}
use httpserver_demo.Proto.{Wire, IsWire, Text}
use httpserver_demo.Proto.User
use httpserver_demo.Proto.CreateUserReply
use httpserver_demo.Proto.CreateUserReply.{seen, seen-copy_from}
use httpserver_demo.Proto.ListUsersReply
use httpserver_demo.Proto.ListUsersReply.{length-list_serialize, list_copy_from_lem}

abbrev zigzag : ℤ → ℕ
zigzag (pos n) = 2 * n
zigzag (negsuc n) = 2 * n + 1

abbrev wire : Wire
wire = record {
  write_string = λ n s. (8 * n + 2) ∷ length s ∷ s;
  string_size = λ s. 1 + length s;
  write_int64 = λ n v. (8 * n) ∷ zigzag v ∷ [];
  int64_size_plus_one = λ v. 2;
  write_int32 = λ n v. (8 * n) ∷ zigzag v ∷ [];
  int32_size_plus_one = λ v. 2;
  write_message = λ n size body. (8 * n + 2) ∷ size ∷ body;
  message_size = λ size. 1 + size;
}

wire_laws : IsWire wire
wire_laws = record {
  length-string = λ n s. omega arith;
  length-int64 = λ n v. refl;
  length-int32 = λ n v. refl;
  length-message = λ n body. omega arith;
}

abbrev text : Bytes → Text
text s = record { has = true; value = s }

abbrev eve : User.Message
eve = record {
  id = text (codes "9");
  name = text (codes "Eve");
  email = record { has = false; value = [] };
  created_at = record { has = true; value = pos 3 };
  unknown = [];
}

eve-IsConsistent : User.IsConsistent eve
eve-IsConsistent = record { id = λ e. cc; name = λ e. cc; email = λ e. refl; created_at = λ e. cc }

abbrev blank : User.Message
blank = record {
  id = text [];
  name = record { has = false; value = [] };
  email = text (codes "x");
  created_at = record { has = false; value = pos 0 };
  unknown = 8 ∷ [];
}

blank-IsConsistent : User.IsConsistent blank
blank-IsConsistent = record {
  id = λ e. cc;
  name = λ e. refl;
  email = λ e. cc;
  created_at = λ e. refl;
}

abbrev reply : CreateUserReply.Message
reply = record { has = true; user = some eve; unknown = [] }

abbrev used : CreateUserReply.Message
used = record { has = true; user = some blank; unknown = [] }

copied_reply : seen (CreateUserReply.copy_from reply used) ≡ some eve
copied_reply =
    seen-copy_from reply used
      (record { user = eve-IsConsistent; set = λ e. refl; cleared = λ e. absurd (cc e) })
      (record { user = blank-IsConsistent; set = λ e. refl; cleared = λ e. absurd (cc e) })

copied_user : User.copy_from eve blank ≡ eve
copied_user = User.copy_from_lem eve blank eve-IsConsistent blank-IsConsistent

abbrev empty_page : ListUsersReply.Message
empty_page = record {
  has_users = false;
  users = [];
  total = record { has = false; value = pos 0 };
  unknown = [];
}

abbrev page : ListUsersReply.Message
page = record {
  has_users = true;
  users = eve ∷ blank ∷ [];
  total = record { has = true; value = pos 2 };
  unknown = [];
}

copied_page : ListUsersReply.copy_from empty_page page ≡ empty_page
copied_page =
    list_copy_from_lem empty_page page (record { users = λ e. refl; total = λ e. refl })
      (record { users = λ e. absurd (cc e); total = λ e. absurd (cc e) })

length-list_serialize_example :
    length (ListUsersReply.serialize wire page) ≡ ListUsersReply.byte_size wire page
length-list_serialize_example = length-list_serialize wire wire_laws page
