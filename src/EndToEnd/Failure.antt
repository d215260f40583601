-- ===== src/EndToEnd/Failure.antt =====
-- What a client learns of a function that failed (easyrpc/client/client.hpp,
-- easyrpc/server/connection.hpp, easyrpc/server/router.hpp).
use easyrpc.Prelude.{◌+◌, ◌<◌, ◌≡◌, ap, ◌∙◌, List, [], ◌++◌, length, arith}
use easyrpc.Prelude.Exec.{Exception, ok}
use easyrpc.Prelude.Outcome.{done}
use easyrpc.Header.{ByteOrder, non_raw, max_buffer_len, request_bytes, response_bytes}
use easyrpc.Asio.{IsKept, Asio}
use easyrpc.EasyPack.{EasyPack, Packs}
use easyrpc.Connection.{Connection}
use easyrpc.Router.{Router}
use easyrpc.Router.Invoker.{Function, param_types}
use easyrpc.Router.Invoker.Apply.{Throws}
use easyrpc.Router.Invoker.Invoke.{invoke-Throws}
use easyrpc.RpcSession
use easyrpc.RpcSession.{RpcSession}
use easyrpc.RpcSession.Exchange.{Answers, request_head, response_head}
use easyrpc.Client.{ProtocolDefine, call, call_void, unpack}
use easyrpc.Client.Calls.{call-Answers_text}
use easyrpc.EndToEnd.{received, socket-body_read}
use easyrpc.EndToEnd.Serve.{serve, serve_invokes}
use easyrpc.EndToEnd.Call.{Ready}

-- Suppose that a client and a server are as for a call that succeeds, the memory of both headers
-- included, but that the bound function, which may have a result or none, throws on the arguments of
-- the call. Then the task of the server ends with an empty body written to its socket, behind what is
-- found in place of its header. A client that this answer reaches returns from a call without a
-- result as if the function had succeeded; a call with a result returns or throws what unpacking an
-- empty text does.
pub failure_is_not_sent :
    (a b : Asio) (p : EasyPack) (W C : Type 0) (o : ByteOrder) (self : C)
    (protocol : ProtocolDefine p) (ty : p.Ty) (f : Function p W) (args : List p.Value)
    (x : Exception) (w w' : W) (s : RpcSession a) (k : a.Socket) (c : Connection b)
    (r : Router p W C) (request : Packs p (param_types f) args)
    (ready : Ready b p W C protocol.name f o [] c r)
    → a.connect s.endpoint_iter s.socket ≡ (ok tt, k)
    → IsKept a (request_bytes o (request_head protocol.name non_raw request.text))
    → IsKept b (response_bytes o (response_head []))
    → Answers a k
        (RpcSession.get_buffer o
          (request_head protocol.name non_raw request.text)
          protocol.name
          request.text)
        (b.expired (response_bytes o (response_head [])))
        []
    → Throws f args w x w'
    → 0 < length protocol.name + length request.text
    → length protocol.name + length request.text < max_buffer_len
    → ((call_void o protocol args s).0 ≡ ok tt)
      × ((call o protocol ty args s).0 ≡ unpack p ty [])
      × (serve o self
            (a.expired (request_bytes o (request_head protocol.name non_raw request.text)))
            (protocol.name ++ request.text)
            c
            r
            w
          ≡ done (
            ok tt,
            record {
              conn =
                  record (received o
                    (request_head protocol.name non_raw request.text)
                    (protocol.name ++ request.text)
                    c) { socket = ready.after };
              world = w';
            },
          ))
failure_is_not_sent a b p W C o self protocol ty f args x w w' s k c r request ready connects
      sent_kept answer_kept answers thrown lo hi =
    let (valued, void) =
      call-Answers_text o p protocol ty args request.text [] s k request.packed connects
        (omega arith) (omega arith) (rw answer_kept at answers) in
    (
      void,
      valued,
      rw sent_kept (
          serve_invokes o self protocol.name request.text c r ready.slot w ready.map ready.found
            ready.room ready.idle ready.is_open lo hi
          ∙ ap done (
              rw (ready.is_bound) (
                invoke-Throws p o f args request.text request.reader x w' _ ready.after
                  request.opened request.yields thrown (rw socket-body_read ready.writes)))),
    )
