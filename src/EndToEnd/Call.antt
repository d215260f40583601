-- ===== src/EndToEnd/Call.antt =====
-- The two sides of a call together (easyrpc/client/client.hpp, easyrpc/server/connection.hpp,
-- easyrpc/server/router.hpp).
use easyrpc.Prelude.{◌+◌, ◌<◌, ◌≤◌, ◌≡◌, true, none, some, List, [], ◌++◌, Bytes, length, arith}
use easyrpc.Prelude.Exec.{Exec, ok}
use easyrpc.Prelude.Outcome.{done}
use easyrpc.Header.{ByteOrder, non_raw, max_buffer_len, request_bytes, response_bytes}
use easyrpc.Asio.{IsKept, in_memory, Asio}
use easyrpc.EasyPack.{EasyPack, Packs, PacksOne}
use easyrpc.Connection
use easyrpc.Connection.{Connection}
use easyrpc.Router.{Router}
use easyrpc.Router.Slots
use easyrpc.Router.Slots.{Slot}
use easyrpc.Router.Slots.Laws.{IsMap}
use easyrpc.Router.Routing.{HasRoom}
use easyrpc.Router.Invoker.{Function, value_function, InvokerFunction}
use easyrpc.Router.Invoker.Invoke.{bound}
use easyrpc.RpcSession
use easyrpc.RpcSession.{RpcSession}
use easyrpc.RpcSession.Exchange.{Answers, request_head, response_head}
use easyrpc.Client.{ProtocolDefine, call}
use easyrpc.Client.Calls.{call-Answers_value}
use easyrpc.EndToEnd.{received}
use easyrpc.EndToEnd.Serve.{serve, serve_lem}

-- What a server must be for a call of `name` to succeed: the name is bound to the function, a worker
-- is free, and the connection is open and can be written to.
pub record Ready (b : Asio) (p : EasyPack) (W C : Type 0) (name : Bytes) (f : Function p W)
    (o : ByteOrder) (answer : Bytes) (c : Connection b) (r : Router p W C) : Type 0 where
  pub slot : Slot (InvokerFunction p W)
  pub map : IsMap r.invoker_map
  pub found : Slots.find name r.invoker_map ≡ some slot
  pub is_bound : slot.value ≡ bound f
  pub room : HasRoom r
  pub idle : r.threadpool.task_queue ≡ []
  pub is_open : b.is_open c.socket ≡ true
  pub after : b.Socket
  pub writes :
      b.write (in_memory b (Connection.get_buffer o (response_head answer) answer)) c.socket
      ≡ (none, after)

-- Suppose that a client and a server have one byte order, that the server is ready to run the
-- function that a protocol names, that the client connects, that its socket takes the request and
-- then delivers what is found in place of the header of the packed result, and its body, that the
-- packed request has at least one byte and less than `max_buffer_len`, and that the packed result has
-- at most `max_buffer_len` bytes. Suppose also that the memory of both headers, whose lifetime has
-- ended when they are sent, still holds their bytes; C++ does not promise this. Then the client's
-- `call` returns what the function returns on the arguments of the call, and the server, given what
-- the client found in place of its header and then the name and the body, ends the task with the
-- effects of the function, having written the answer to its socket.
pub call_runs_function :
    (a b : Asio) (p : EasyPack) (W C : Type 0) (o : ByteOrder) (self : C)
    (protocol : ProtocolDefine p) (tys : List p.Ty) (ty : p.Ty) (fn : List p.Value → Exec W p.Value)
    (args : List p.Value) (v : p.Value) (w w' : W) (s : RpcSession a) (k : a.Socket)
    (c : Connection b) (r : Router p W C) (request : Packs p tys args) (answer : PacksOne p ty v)
    (ready : Ready b p W C protocol.name (value_function tys fn) o answer.text c r)
    → a.connect s.endpoint_iter s.socket ≡ (ok tt, k)
    → IsKept a (request_bytes o (request_head protocol.name non_raw request.text))
    → IsKept b (response_bytes o (response_head answer.text))
    → Answers a k
        (RpcSession.get_buffer o
          (request_head protocol.name non_raw request.text)
          protocol.name
          request.text)
        (b.expired (response_bytes o (response_head answer.text)))
        answer.text
    → fn args w ≡ (ok v, w')
    → 0 < length protocol.name + length request.text
    → length protocol.name + length request.text < max_buffer_len
    → length answer.text ≤ max_buffer_len
    → ((call o protocol ty args s).0 ≡ ok v)
      × (serve o self
            (a.expired (request_bytes o (request_head protocol.name non_raw request.text)))
            (protocol.name ++ request.text)
            c
            r
            w
          ≡ done (
            ok tt,
            record {
              conn =
                  record (received o
                    (request_head protocol.name non_raw request.text)
                    (protocol.name ++ request.text)
                    c) { socket = ready.after };
              world = w';
            },
          ))
call_runs_function a b p W C o self protocol tys ty fn args v w w' s k c r request answer ready
      connects sent_kept answer_kept answers ran lo hi small =
    (
      call-Answers_value o p protocol ty args request.text v s k answer request.packed connects
          (omega arith) small (rw answer_kept at answers),
      rw sent_kept (
          serve_lem o self protocol.name request.text answer.text tys fn args request.reader v c r
            ready.slot w w' ready.after ready.map ready.found ready.is_bound ready.room ready.idle
            ready.is_open lo hi request.opened request.yields ran answer.packed small ready.writes),
    )
