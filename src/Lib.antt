-- ===== src/Lib.antt =====
-- The users API: HTTP handlers and a gRPC service over one Postgres table of users.
--
-- Parts of the program and the files that model them (paths from the repository's root):
--
--   internal/controllers/user_controller.go, handlers.go: Controllers. Types has the records that
--     go in and out, Request what is read from a request (getUserID, getUserEthAddr) and
--     errorResponseHandler, Format formatUser, GetUser the handlers GetUser and GetUserV2, Used
--     computeWeb3Used, DeleteUser and SetMigrated the handlers of these names.
--   internal/controllers/admin_handlers.go: Controllers/CheckEmail, the handler CheckEmail.
--   internal/controllers/contracts/: Controllers/Contracts, the constructors and BalanceOf of the
--     two bindings, and the Chain that the handler sees of them.
--   internal/api/users.go: Api/Users, the three methods of the gRPC service and formatUser, and
--     Api/Service, the service as a server of the stubs.
--   pkg/grpc/users.pb.go: Grpc/Messages, the messages, and Grpc/Getters.
--     pkg/grpc/users_grpc.pb.go: Grpc/Stubs, the handlers and the table of the service, and
--     Grpc/Transport, the client and the registration; Grpc/Calls follows a call from one end to
--     the other.
--   models/users.go: Models. User has the columns and the objects, Where and UserWhere the query
--     modifiers, Hooks the nine lists of hooks, Load the two eager loaders, Select the queries and
--     finishers that read, Write the updates and deletions, Insert Insert and Upsert, Cache what
--     these do with their caches of statements, Related the relationship between a user and its
--     referrer.
--   models/boil_types.go: Models/CacheKey, makeCacheKey; CacheKey/Codes, Names and Injective read
--     a key back.
--   models/psql_upsert.go: Models/UpsertQuery, buildUpsertQueryPostgres and its options.
--   cmd/users-api/main.go: Cmd/Server has the routes, the order of the middleware and
--     ErrorHandler, Cmd/Main the choice of the command. internal/database/migrate.go: Cmd/Migrate.
--
-- How the program's state is modelled. Models/World has one state: a heap of User objects, which
-- pointers of the eager loaders may share and close into cycles, the database, and the three
-- caches of statements. A call is a function from that state to a result and a state (Go/Exec); a
-- result is a value, an error or a panic (Go/Result), and what was written before an error or a
-- panic stays written. Error values keep their wrapping, so that errors.Is is computed (Go/Error).
--
-- What is a parameter. Models/Sql is the database behind database/sql and SQLBoiler's queries
-- package: an unknown state with operations, of which Models/Laws says what the theorems assume,
-- for the queries of the generated layer that compare columns for equality only (rows come from
-- the table and meet the query's conditions, a row that meets them is not missed, and a row with a
-- confirmed e-mail comes first where the query asks for this order alone). Go/Library has the
-- functions of other packages that are called for a value, Models/Env the package boil,
-- Cmd/Migrate goose, Cmd/Server the middleware, Grpc/Transport the package grpc with the codec of
-- protobuf, and what its documentation says of calls over a connection that works. A controller
-- has the two clients of devices-api and the Ethereum client with the contract bindings.
-- Tests/Memory is an instance of the database in memory, with its laws, Tests/Table another with
-- any number of users, and Tests/Fixture one of the rest.
--
-- How theorems about calls are stated. Models/Runs has two predicates of a call's outcome: Runs
-- says that the heap stays well-formed, that no object is lost or has other columns than before,
-- that the database and the cached updates are the same, that there is no panic, that an error has
-- a given reason, and that a returned value has a given property. The reasons are in
-- Models/Runs/Reasons: the call's own query fails, or, for the rows that it found, the query for
-- their referrers; Ends drops the columns. Models/Runs/Steps, Writing, Loading, Related, Referrers
-- and Finish prove them of the generated code, from the heap up; Controllers/Shown, Answers,
-- Preferred and Confirmed, Controllers/DeleteUser/Effects, Api/Shown and Api/Answers use them for
-- the handlers. Models/Load/Linked and Keeps have an invariant of the links between loaded objects
-- and carry it through the calls of the loaders, Linking, Fetching, Referrers and One, up to
-- Api/Referrer and Controllers/Referrer. What a handler writes is stated by the outcome itself, in
-- Controllers/DeleteUser/Commits and Controllers/SetMigrated/Writes; Cmd/Server/Failures has what
-- a client is answered where nothing is read.
--
-- Theorems on the writing part of the models are equations of outcomes: Models/Write/Cached,
-- Models/Insert/Cached and Models/Insert/Merged compare Update, Insert and Upsert with calls that
-- have no cache, Models/Objects and Go/Steps run calls one after the other, and
-- Models/Related/Links, Goes, Later, Added, Each, Released, Appended, Replaced, Detach and Forget
-- follow the pointers of a relationship.
--
-- Calls that run at once. Models/Write/Concurrent takes Update apart into the steps between which
-- another call may run, with the mutex of its cache, where a call of Lock that waits for the
-- readers holds up new ones, and has the runs of any number of calls in any order of their steps;
-- Concurrent/Schedules runs a schedule, and Alone shows that a call which runs alone is Update.
-- Exclusive, Atomic (with Whole) and Finishing state what holds of every run, by induction on it;
-- Concurrent/Executing compares one step with the whole call.
--
-- Bounds and fuel: no definition runs out of fuel. Loops are recursion on lists; the one use of
-- fuel in a definition of the program, in the decimal text of a number (Models/CacheKey), is given
-- more steps than there are digits, and Models/CacheKey/Codes reads the number back from the text.
-- Concurrent/Alone makes the eight steps that a call has. Numbers that the program compares are
-- counts; of the two subtractions, that of the last index of a list is made of a list that has an
-- entry, and that of a reader of a mutex where a reader holds it, as Concurrent/Exclusive shows.
--
-- What is not modelled: the methods of the generated bindings of contracts that nothing calls,
-- mocks and documentation, and what reflection reads of the messages; logging, listening and
-- metrics, which are I/O; the mutexes of the hooks and of the caches of Insert and Upsert, each
-- access being one step; that two slices may share an array; the binding of columns to fields,
-- which does not fail for the columns of the table.
pub mod Base
pub mod Go
pub mod Models
pub mod Controllers
pub mod Grpc
pub mod Api
pub mod Cmd
pub mod Tests
