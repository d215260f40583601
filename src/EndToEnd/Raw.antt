-- ===== src/EndToEnd/Raw.antt =====
-- The two sides of a raw call together (easyrpc/client/client.hpp, easyrpc/server/connection.hpp,
-- easyrpc/server/router.hpp).
use easyrpc.Prelude.{◌+◌, ◌<◌, ◌≤◌, ◌≡◌, ap, ◌∙◌, true, none, some, [], ◌++◌, Bytes, length, arith}
use easyrpc.Prelude.Exec.{ok}
use easyrpc.Prelude.Outcome.{done}
use easyrpc.Header.{ByteOrder, raw, max_buffer_len, request_bytes, response_bytes}
use easyrpc.Asio.{IsKept, in_memory, Asio}
use easyrpc.EasyPack.{EasyPack}
use easyrpc.Connection
use easyrpc.Connection.{Connection}
use easyrpc.Router.{Router}
use easyrpc.Router.Slots
use easyrpc.Router.Slots.{Slot}
use easyrpc.Router.Slots.Laws.{IsMap}
use easyrpc.Router.Routing.{HasRoom}
use easyrpc.Router.Invoker.{RawFunction, InvokerFunctionRaw}
use easyrpc.Router.Invoker.Invoke.{bound_raw, RawReturns, invoke_raw_result}
use easyrpc.RpcSession
use easyrpc.RpcSession.{RpcSession}
use easyrpc.RpcSession.Exchange.{Answers, request_head, response_head}
use easyrpc.Client.{call_raw, call_raw_one_way}
use easyrpc.Client.Calls.{call_raw-Answers}
use easyrpc.EndToEnd.{received, socket-body_read}
use easyrpc.EndToEnd.Serve.{serve, serve_invokes_raw}

-- What a server must be for a raw call of `name` to succeed: the name is bound to the function, a
-- worker is free, and the connection is open and can be written to.
pub record ReadyRaw (b : Asio) (p : EasyPack) (W C : Type 0) (name : Bytes) (f : RawFunction W)
    (o : ByteOrder) (answer : Bytes) (c : Connection b) (r : Router p W C) : Type 0 where
  pub slot : Slot (InvokerFunctionRaw W)
  pub map : IsMap r.invoker_raw_map
  pub found : Slots.find name r.invoker_raw_map ≡ some slot
  pub is_bound : slot.value ≡ bound_raw f
  pub room : HasRoom r
  pub idle : r.threadpool.task_queue ≡ []
  pub is_open : b.is_open c.socket ≡ true
  pub after : b.Socket
  pub writes :
      b.write (in_memory b (Connection.get_buffer o (response_head answer) answer)) c.socket
      ≡ (none, after)

-- Suppose that a client and a server have one byte order, that the server is ready to run the raw
-- function that is bound to a name, that the client connects, that its socket takes the request and
-- then delivers what is found in place of the header of the answer, and its body, that name and body
-- have together at least one byte and less than `max_buffer_len`, and that the answer has at most
-- `max_buffer_len` bytes. The answer is what the function returns for the body of the request, or
-- empty if it has no result. Suppose also that the memory of both headers, whose lifetime has ended
-- when they are sent, still holds their bytes; C++ does not promise this. Then a two-way raw call
-- returns this answer byte for byte, a one-way raw call returns, and the server, given what the client
-- found in place of its header and then the name and the body, ends the task with the effects of the
-- function, having written the answer to its socket.
pub raw_call_runs_function :
    (a b : Asio) (p : EasyPack) (W C : Type 0) (o : ByteOrder) (self : C) (name body answer : Bytes)
    (f : RawFunction W) (w w' : W) (s : RpcSession a) (k : a.Socket) (c : Connection b)
    (r : Router p W C) (ready : ReadyRaw b p W C name f o answer c r)
    → a.connect s.endpoint_iter s.socket ≡ (ok tt, k)
    → IsKept a (request_bytes o (request_head name raw body))
    → IsKept b (response_bytes o (response_head answer))
    → Answers a k
        (RpcSession.get_buffer o (request_head name raw body) name body)
        (b.expired (response_bytes o (response_head answer)))
        answer
    → RawReturns f body w answer w'
    → 0 < length name + length body
    → length name + length body < max_buffer_len
    → length answer ≤ max_buffer_len
    → ((call_raw o name body s).0 ≡ ok answer)
      × ((call_raw_one_way o name body s).0 ≡ ok tt)
      × (serve o self
            (a.expired (request_bytes o (request_head name raw body)))
            (name ++ body)
            c
            r
            w
          ≡ done (
            ok tt,
            record {
              conn = record (received o (request_head name raw body) (name ++ body) c) {
                socket = ready.after;
              };
              world = w';
            },
          ))
raw_call_runs_function a b p W C o self name body answer f w w' s k c r ready connects sent_kept
      answer_kept answers ran lo hi small =
    let (two_way, one_way) =
      call_raw-Answers o name body answer s k connects (omega arith) small
        (rw answer_kept at answers) in
    (
      two_way,
      one_way,
      rw sent_kept (
          serve_invokes_raw o self name body c r ready.slot w ready.map ready.found ready.room
            ready.idle ready.is_open lo hi
          ∙ ap done (
              rw (ready.is_bound) (
                invoke_raw_result o f body answer w' _ ready.after ran small
                  (rw socket-body_read ready.writes)))),
    )
