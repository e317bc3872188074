-- ===== src/Lib.antt =====
-- A model of the C++ program http-server-demo: a gRPC service for users that keeps them in MySQL
-- behind a connection pool and caches them in Redis, and an HTTP gateway in front of it.
--
-- The parts, and how they interact:
--   Config       src/common/config.cpp: `ParseArgs` and `GetArg`, which both programs start with.
--   Json         src/common/json_utils.h: a user as JSON. nlohmann::json is the argument `JsonLib`.
--   Redis        src/store/redis_client.cpp: `RedisReply` and `RedisClient`. hiredis and the server
--                behind it are the argument `RedisApi`; Redis/Server says what a server that answers
--                does, and Redis/Commands what the client's operations then do.
--   Mysql        src/store/mysql_pool.cpp: `MysqlResult` and `MysqlConn`. libmysqlclient and the
--                server are the argument `MysqlApi`; Mysql/Server says what a server does with the
--                statements of the program, on handles that are logged in with the database and
--                once it has the table.
--   Mysql/Pool   the same file's `MysqlPool` and `Guard`; Threads is `acquire` and `release` with
--                many threads, as steps of a state with sleepers.
--   Sql, World, Repository
--                src/store/user_repository.cpp: the SQL texts; the pool, the MySQL server and the
--                Redis client that a `UserRepository` works on, and the scopes of guards and
--                results; and its operations `create_user`, `get_user`, `list_users`, `get_stats`,
--                `count_request`, `invalidate_list_cache`.
--   Repository/Threads
--                the same calls as tasks of many threads, a step for each Redis command, which may
--                fail, and each SQL statement; Repository/Session relates the two.
--   Repository/Outage, Redis/Outage, Repository/Refusal
--                the calls while the connection to Redis is broken, and while MySQL executes nothing.
--   Service      src/grpc_server/user_service.cpp: the four handlers of the gRPC service.
--   Gateway      src/gateway/grpc_client.cpp and src/gateway/gateway_context.h: the gateway's client
--                of the service and its context; the stub is the argument `Rpc`.
--   Gateway/Controller
--                src/gateway/user_controller.cpp: the five HTTP handlers. Drogon's request and
--                jsoncpp are the arguments `HttpRequest` and `JsonCpp`.
--   Gateway/EndToEnd
--                a stub that reaches the service's handlers, and requests from the gateway to the
--                table.
--   Proto        generated/user/v1/user.pb.cc: the messages as protoc generates them, with their
--                has-bits; the runtime's writers are the argument `Wire`.
--   Startup      src/grpc_server/main.cpp and src/gateway/main.cpp: the settings and the runs of both
--                programs up to the point where they wait for requests; Startup/Coherence is the
--                state on which the service begins, by Mysql/Pool/Opening and Redis/Opening.
--   Decimal, Effects, Prelude
--                `std::to_string`, `std::strtoll` and `std::stoi`; calls that return, throw or wait
--                for ever; shared helpers.
--   Example      small libraries and servers on which the assumptions hold, and runs on them.
--
-- A call is a function of the state: a call of the repository takes a `World` and gives an outcome
-- (returned, threw, blocked) and the `World` after it. A result that the source writes through a
-- pointer is a value, and none where the source returns false or nullopt. Texts are lists of bytes;
-- where the source passes `c_str()`, the model cuts at the first NUL (`c_str`). Integers are
-- unbounded where the source only moves them, and clamped where `strtoll` clamps. The clock is an
-- argument. Loops are structural, and `to_string` has as many rounds as the number, where one for
-- each digit is enough.
--
-- Cache and table are coherent (`Repository.Coherence.Coherent`) when every cached user, page and
-- total is what the table says, every cached page is in the index set, and the pool has an idle
-- connection, all of them logged in with the table's database.
--
-- Not modelled: the accessors, the parser's tables and the stubs of the generated code (the service
-- and the gateway use a message as a record of its fields), Drogon, gRPC and jsoncpp, logging, nginx,
-- the build. A call of the repository runs alone, but
-- in Repository/Threads, where a command to Redis is atomic: what goes wrong inside hiredis when
-- threads share one context, which the source calls a simplification, is not modelled. A key with a
-- time to live may expire between two calls at any time; the index set has none.
pub mod Config
pub mod Decimal
pub mod Effects
pub mod Example
pub mod Gateway
pub mod Json
pub mod Mysql
pub mod Prelude
pub mod Proto
pub mod Redis
pub mod Repository
pub mod Service
pub mod Sql
pub mod Startup
pub mod World
