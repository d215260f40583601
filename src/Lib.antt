-- ===== src/Lib.antt =====
-- easyrpc, a header-only C++ library for remote procedure calls over TCP: a model of its client, of
-- its server and of what they share.
--
-- A server (easyrpc/server) accepts connections. A connection reads a request, a header of 12 bytes
-- behind which a protocol name and a body stand, and gives it to the router; the router looks the
-- name up and queues a task for a pool of worker threads; a worker parses the arguments out of the
-- body, runs the function that is bound to the name, and writes a response, a header of 4 bytes and
-- a body. A client (easyrpc/client) connects, sends a request, waits for the response and
-- disconnects, each time that it calls.
--
-- Which file models which part; the functions have the names of the source:
--   Header          easyrpc/base/header.hpp: the two headers and their bytes, in both byte orders
--   ScopeGuard      easyrpc/base/scope_guard.hpp
--   Timer           easyrpc/base/atimer.hpp
--   ThreadPool      easyrpc/base/thread_pool.hpp: each operation as one call, with no other thread
--                   between its test of the flag and its lock
--   ThreadPool.Threads  the same with its threads, as a relation of steps: workers, callers of
--                   `add_task` and the caller of `stop`, with the mutex and the sleepers
--   FileUtil        easyrpc/base/file_util.hpp
--   Logger          easyrpc/base/logger.hpp
--   FunctionTraits  easyrpc/base/function_traits.hpp, as functions of types
--   StringUtil      easyrpc/base/string_util.hpp
--   Connection      easyrpc/server/connection.hpp: each completion handler as a function of the
--                   error and of the bytes that were read
--   Router.Slots    the maps of handlers of easyrpc/server/router.hpp, with the addresses of their
--                   elements, since tasks keep references to them
--   Router.Invoker  the invokers of easyrpc/server/router.hpp, with easyrpc/server/parser_util.hpp
--   Router          the other operations of easyrpc/server/router.hpp
--   IoServicePool   easyrpc/server/io_service_pool.hpp
--   Server          easyrpc/server/server.hpp
--   Number          `std::stoi` and `std::to_string`, as the ports need them
--   RpcSession      easyrpc/client/rpc_session.hpp
--   Client          easyrpc/client/client.hpp and easyrpc/client/protocol.hpp
--   EndToEnd        a call, plain or raw, from the client to the bound function and back, also where
--                   it fails or where the memory of a header is cleared, a server program from
--                   its constructor on, requests that are answered in turn, and requests that come,
--                   and functions that are bound, while workers run
--   Lifetime        easyrpc/server/connection.hpp: who holds a pointer to a connection, as steps
--   Tests           the theorems at concrete inputs, and runs of the definitions
-- The files below a component's file hold its lemmas and theorems. Prelude holds what all share.
--
-- How code is translated. Strings are lists of byte values. `unsigned int` and `std::size_t` are
-- native numbers, with `% 2 ^ 32` and `% 2 ^ 64` where the source wraps. Code that may throw is a
-- function from a state to a result or an exception, together with the new state (`Exec`). Where
-- code may wait for another thread, read outside of an object, or end the program, it has an
-- `Outcome`: `done`, `waits` or `fault`. There is one exception. Each time that a side writes, the
-- header that it sends is a temporary whose lifetime has ended, in `write` of connection.hpp and of
-- rpc_session.hpp: `get_buffer` keeps its address, and the statement that makes the buffers ends
-- before `write_impl` reads them. If that were a `fault`, no call would have a model at all. So a
-- buffer is an address, of a string that is `alive` or that has `ended`, and what a write finds at
-- the address of an ended one is the parameter `Asio.expired`, which the compiled program decides.
-- What holds of whatever is found there is stated without a condition; that a call succeeds is stated
-- for programs in which the memory still holds the bytes (`IsKept`), and EndToEnd.Zeroed says what a
-- call comes to where it is cleared. A loop is recursion on the text or the list that it goes
-- over; only `to_string` has fuel, for five digits, which is what an `unsigned short` may have, and
-- `to_string_long` for the twenty digits of an `unsigned long`. The largest packet (8 MiB) and the
-- longest queue (100000 tasks) are the source's.
--
-- Parameters. boost.asio and easypack are not part of the repository. `Asio` is a record of what
-- the code calls of boost.asio, and `AsioLaws` says what its documentation promises: a closed
-- socket is not open, a read fills its buffer, a deadline is armed by a start and not armed after a
-- cancel; `ClosedFails` says that a closed socket can be neither written nor read, but for a read of
-- nothing. `EasyPack` is a record of what the code calls of easypack. Where a theorem needs that
-- what was packed is read back, this is a hypothesis on the values at hand (`Packs`, `PacksOne`).
-- `Posix` and `Spdlog` are the calls of the operating system and of the logging library;
-- `PosixLaws` says that a directory that was made is there, and that making one removes nothing and
-- changes no link. The functions that a user binds are parameters as well, and may change a state
-- of the user's and throw an exception that derives from `std::exception`.
--
-- Not modelled: the lines that the other parts log; the branches for Windows; how memory is freed,
-- but for the elements of the maps of handlers and for connections.
-- In Lifetime each handler and each task of a connection is one step, and of the router only the
-- number of tasks that it adds is kept. The deadline of a client runs its handler between the reads
-- of a response, which stand for reads that are interrupted.
-- The maps of handlers have no lock; where the program binds a name while requests come, this is
-- modelled as one step, as if there were one. A worker takes a task in one step and is done with it
-- in another, with anything in between; what the function does to the user's objects and to the
-- connection is done in the second, so that two functions that run at the same time do not mix.
-- In the steps of the thread pool, a call of `add_task` that finds the pool stopped is no step, since
-- it changes nothing, and whether sleepers may wake for no reason is a parameter. The tasks of these
-- steps do not call the pool. A member function that is bound has its object as an argument. Types
-- in FunctionTraits are those of C++14, without C-style variadic functions.
-- What is left of the sources is no code that could be modelled further: includes, declarations,
-- deleted constructors, the accessors of the singletons, and the branches for Windows, which call
-- other functions of the operating system.
pub mod Prelude
pub mod Header
pub mod ScopeGuard
pub mod Asio
pub mod Timer
pub mod RpcSession
pub mod Connection
pub mod EasyPack
pub mod ThreadPool
pub mod Router
pub mod StringUtil
pub mod Posix
pub mod Spdlog
pub mod FunctionTraits
pub mod FileUtil
pub mod Lifetime
pub mod Logger
pub mod IoServicePool
pub mod Number
pub mod Server
pub mod Client
pub mod EndToEnd
pub mod Tests
