-- ===== src/Startup/Bounds.antt =====
-- The numbers that src/grpc_server/main.cpp and src/gateway/main.cpp read are values of `int`.
use httpserver_demo.Prelude.{Option, none, some, Bytes, codes, ℤ, bind_option, ◌≡◌, refl, subst}
use httpserver_demo.Config.{Args, get_arg}
use httpserver_demo.Decimal.{Stoi, parsed, invalid_argument, out_of_range, strtoll}
use httpserver_demo.Decimal.Ints.{IsInt, IsIntOf, stoi-IsInt}
use httpserver_demo.Startup.{Settings, number, number_of, server_settings}

bind_some :
    {A B : Type 0} (o : Option A) (f : A → Option B) (b : B)
    → bind_option o f ≡ some b
    → (a : A) × (o ≡ some a) × (f a ≡ some b)
bind_some none f b e = absurd (cc e)
bind_some (some a) f b e = (a, refl, e)

at_some : {A : Type 0} (P : A → Type 0) (a b : A) → some a ≡ some b → P a → P b
at_some P a b e h = subst P (cc e) h

number_lem :
    (s : Bytes) (r : Stoi) (n : ℤ) → IsIntOf s r → number r ≡ some n → IsInt n × (n ≡ strtoll s)
number_lem s (parsed v) n h e = at_some (λ x. IsInt x × (x ≡ strtoll s)) v n e h
number_lem s invalid_argument n h e = absurd (cc e)
number_lem s out_of_range n h e = absurd (cc e)

module _ (getenv : Bytes → Option Bytes) (args : Args) where
  -- The number is an `int`, the one that the text under the key denotes.
  abbrev pub IsNumberOf : Bytes → Bytes → ℤ → Type 0
  IsNumberOf key def n = IsInt n × (n ≡ strtoll (get_arg getenv args key def))

  number_of_lem :
      (key def : Bytes) (n : ℤ) → number_of getenv args key def ≡ some n → IsNumberOf key def n
  number_of_lem key def n e = number_lem _ _ n (stoi-IsInt (get_arg getenv args key def)) e

  -- The four numbers of the service's settings, its port, MySQL's port, the pool size and the port of
  -- Redis, where it has settings, are values of a 32-bit `int`, and are the numbers that the texts
  -- of the command line, the environment or the defaults denote: none of them is cut off.
  pub server_settings_bounds :
      (settings : Settings)
      → server_settings getenv args ≡ some settings
      → IsNumberOf (codes "port") (codes "9090") settings.port
        × IsNumberOf (codes "mysql-port") (codes "3306") settings.mysql.port
        × IsNumberOf (codes "mysql-pool-size") (codes "8") settings.mysql.pool_size
        × IsNumberOf (codes "redis-port") (codes "6379") settings.redis_port
  unfolding server_settings
  server_settings_bounds settings e =
      let (port, e₁, r₁) = bind_some _ _ settings e in
      let (mysql_port, e₂, r₂) = bind_some _ _ settings r₁ in
      let (pool_size, e₃, r₃) = bind_some _ _ settings r₂ in
      let (redis_port, e₄, r₄) = bind_some _ _ settings r₃ in
      at_some
        (λ (x : Settings).
          IsNumberOf (codes "port") (codes "9090") x.port
          × IsNumberOf (codes "mysql-port") (codes "3306") x.mysql.port
          × IsNumberOf (codes "mysql-pool-size") (codes "8") x.mysql.pool_size
          × IsNumberOf (codes "redis-port") (codes "6379") x.redis_port)
        _ settings r₄
        (
          number_of_lem (codes "port") (codes "9090") port e₁,
          number_of_lem (codes "mysql-port") (codes "3306") mysql_port e₂,
          number_of_lem (codes "mysql-pool-size") (codes "8") pool_size e₃,
          number_of_lem (codes "redis-port") (codes "6379") redis_port e₄,
        )
