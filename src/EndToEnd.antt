-- ===== src/EndToEnd.antt =====
-- A whole call: the request that the client's `call` writes (easyrpc/client), read, routed and
-- answered by the server (easyrpc/server), and the response read by the client.
pub mod Serve
pub mod Call
pub mod Bounds
pub mod Zeroed
pub mod Failure
pub mod Raw
pub mod Program
pub mod Sequence
pub mod Interleaved
use easyrpc.Prelude.{◌+◌, ◌<◌, ◌≡◌, refl, true, none, ◌++◌, Bytes, length, arith, replicate}
use easyrpc.Prelude.Outcome.{done, ◌>>=◌}
use easyrpc.Header.{ByteOrder, CallMode, RequestHeader, max_buffer_len, request_bytes}
use easyrpc.Header.Layout.{IsRequest, IsModeWord}
use easyrpc.Asio.{Asio}
use easyrpc.EasyPack.{EasyPack}
use easyrpc.Connection
use easyrpc.Connection.{Connection, on_head, on_body, request_len, head_accepted, stop_timer}
use easyrpc.Connection.Head.{on_head_accepts}
use easyrpc.Connection.Bounds.{head_accepted_bounds}
use easyrpc.Connection.Body.{body_read, on_body_delivers}
use easyrpc.Router.{Router, route}
use easyrpc.RpcSession.Exchange.{request_head}

request_head-IsRequest :
    (protocol body : Bytes) (mode : CallMode)
    → IsModeWord mode
    → length protocol + length body < max_buffer_len
    → IsRequest (request_head protocol mode body)
request_head-IsRequest protocol body mode fits h = record {
  protocol_fits = omega arith;
  body_fits = omega arith;
  mode_fits = fits;
}

request_head-accepted :
    (protocol body : Bytes) (mode : CallMode)
    → 0 < length protocol + length body
    → length protocol + length body < max_buffer_len
    → head_accepted (request_head protocol mode body) ≡ true
request_head-accepted protocol body mode lo hi =
    (head_accepted_bounds (request_head protocol mode body)).1 (omega arith, omega arith)

module _ {a : Asio} where
  -- The connection once the head, and once both parts of a request have come.
  abbrev pub head_read : ByteOrder → RequestHeader → Connection a → Connection a
  head_read o h c = record c {
    head = request_bytes o h;
    req_head = h;
    protocol_and_body = replicate (request_len h) 0;
    pending = Connection.body_bytes (request_len h);
  }

  abbrev pub received : ByteOrder → RequestHeader → Bytes → Connection a → Connection a
  received o h rest c = body_read rest (head_read o h c)

  pub socket-body_read : (bytes : Bytes) (c : Connection a) → (body_read bytes c).socket ≡ c.socket
  unfolding stop_timer
  socket-body_read bytes c = ground arith

module _ {a : Asio} {p : EasyPack} {W C : Type 0} where
  -- A request that fits goes through the two handlers to the router.
  pub received_lem :
      (o : ByteOrder) (self : C) (protocol body : Bytes) (mode : CallMode) (c : Connection a)
      (r r' : Router p W C)
      → IsModeWord mode
      → a.is_open c.socket ≡ true
      → 0 < length protocol + length body
      → length protocol + length body < max_buffer_len
      → route self protocol body mode r ≡ done (true, r')
      → on_body
          (route self)
          none
          (protocol ++ body)
          (on_head o none (request_bytes o (request_head protocol mode body)) c)
          r
        ≡ done (received o (request_head protocol mode body) (protocol ++ body) c, r')
  received_lem o self protocol body mode c r r' fits open_ lo hi routed =
      rw
        (on_head_accepts o (request_head protocol mode body) c
          (request_head-IsRequest protocol body mode fits hi) open_
          (request_head-accepted protocol body mode lo hi))
        (on_body_delivers {a = a} (route self) protocol body
          (head_read o (request_head protocol mode body) c) r r' true open_ refl refl routed)
