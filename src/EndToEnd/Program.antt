-- ===== src/EndToEnd/Program.antt =====
-- A whole server program (easyrpc/server/server.hpp, easyrpc/server/router.hpp): handlers are bound,
-- workers are started, a connection is accepted, and a client calls.
use easyrpc.Prelude.{ℕ, ◌+◌, ◌<◌, ◌≤◌, ◌≡◌, true, none, some, List, ◌++◌, Bytes, length, arith}
use easyrpc.Prelude.Exec.{Exec, ok}
use easyrpc.Prelude.Outcome.{done}
use easyrpc.Header.{ByteOrder, non_raw, max_buffer_len, request_bytes, response_bytes}
use easyrpc.Asio.{IsKept, in_memory, Asio}
use easyrpc.EasyPack.{EasyPack, Packs, PacksOne}
use easyrpc.Connection
use easyrpc.Connection.{Connection}
use easyrpc.Router.Invoker.{Function, value_function}
use easyrpc.RpcSession
use easyrpc.RpcSession.{RpcSession}
use easyrpc.RpcSession.Exchange.{Answers, request_head, response_head}
use easyrpc.Client.{ProtocolDefine, call}
use easyrpc.Server.{make_connection}
use easyrpc.EndToEnd.{received}
use easyrpc.EndToEnd.Serve.{serve}
use easyrpc.EndToEnd.Call.{call_runs_function}
use easyrpc.ThreadPool.{max_thread_size}
use easyrpc.Router.Bindings.{
  program_threads, last_bound, program, program_pool, program_value, program_slot,
}

-- A connection as the server starts it, on the socket that `async_accept` left.
abbrev pub started : {b : Asio} → ℕ → b.Socket → Connection b
started timeout_milli k = Connection.start (record (make_connection timeout_milli) { socket = k })

socket-started :
    (b : Asio) (timeout_milli : ℕ) (k : b.Socket)
    → (started {b = b} timeout_milli k).socket ≡ b.set_no_delay k
unfolding Connection.start Connection.set_no_delay Connection.start_timer
socket-started b timeout_milli k = ground arith

-- A server program makes its router, binds functions to names, one after the other, and starts from
-- 1 to 30 workers; the function that was bound last to the name of a protocol takes the arguments of
-- a call and returns. A connection is accepted, with any timeout, whose socket is open and takes the
-- answer once it does not delay. A client of one byte order with the server connects, and its socket
-- takes the request and then delivers the answer; request and packed result are within the limits.
-- The memory of both headers, whose lifetime has ended when they are sent, still holds their bytes,
-- which C++ does not promise. Then the pool has this number of workers, `call` returns what the
-- function returns, and the server, given what the client sends in two reads, ends the task with the
-- effects of the function, having written the answer.
pub program_answers :
    (a b : Asio) (p : EasyPack) (W C : Type 0) (o : ByteOrder) (self : C)
    (protocol : ProtocolDefine p) (tys : List p.Ty) (ty : p.Ty) (fn : List p.Value → Exec W p.Value)
    (args : List p.Value) (v : p.Value) (w w' : W) (s : RpcSession a) (k : a.Socket)
    (request : Packs p tys args) (answer : PacksOne p ty v) (num timeout_milli : ℕ)
    (bs : List (Bytes × Function p W)) (socket after : b.Socket)
    → 0 < num
    → num ≤ max_thread_size
    → last_bound protocol.name bs ≡ some (value_function tys fn)
    → b.is_open (b.set_no_delay socket) ≡ true
    → b.write
        (in_memory b (Connection.get_buffer o (response_head answer.text) answer.text))
        (b.set_no_delay socket)
      ≡ (none, after)
    → a.connect s.endpoint_iter s.socket ≡ (ok tt, k)
    → IsKept a (request_bytes o (request_head protocol.name non_raw request.text))
    → IsKept b (response_bytes o (response_head answer.text))
    → Answers a k
        (RpcSession.get_buffer o
          (request_head protocol.name non_raw request.text)
          protocol.name
          request.text)
        (b.expired (response_bytes o (response_head answer.text)))
        answer.text
    → fn args w ≡ (ok v, w')
    → 0 < length protocol.name + length request.text
    → length protocol.name + length request.text < max_buffer_len
    → length answer.text ≤ max_buffer_len
    → ((program {p = p} {W = W} {C = C} num bs).threadpool.threads ≡ num)
      × ((call o protocol ty args s).0 ≡ ok v)
      × (serve o self
            (a.expired (request_bytes o (request_head protocol.name non_raw request.text)))
            (protocol.name ++ request.text)
            (started {b = b} timeout_milli socket)
            (program num bs)
            w
          ≡ done (
            ok tt,
            record {
              conn =
                  record (received o
                    (request_head protocol.name non_raw request.text)
                    (protocol.name ++ request.text)
                    (started {b = b} timeout_milli socket)) { socket = after };
              world = w';
            },
          ))
program_answers a b p W C o self protocol tys ty fn args v w w' s k request answer num timeout_milli
      bs socket after from to last open_ writes connects sent_kept answer_kept answers ran lo hi
      small =
    let same = socket-started b timeout_milli socket in
    let (slot, found, is_fn, room) =
      program_slot p W C num bs protocol.name (value_function tys fn) last in
    let (answered, served) =
      call_runs_function a b p W C o self protocol tys ty fn args v w w' s k
        (started {b = b} timeout_milli socket) (program num bs) request answer
        (record {
          slot = slot;
          map = (program_value p W C num bs protocol.name (value_function tys fn) last).0;
          found = found;
          is_bound = is_fn;
          room = room;
          idle = (program_pool p W C num bs).1;
          is_open = rw same open_;
          after = after;
          writes = rw same writes;
        })
        connects sent_kept answer_kept answers ran lo hi small in
    (program_threads p W C num bs from to, answered, served)
