-- ===== src/EndToEnd/Zeroed.antt =====
-- What a call comes to if the memory of a header is zero by the time that it is sent, as a compiler
-- may leave it (easyrpc/client/rpc_session.hpp, easyrpc/server/connection.hpp).
use easyrpc.Prelude.{
  ◌+◌, ◌≤◌, ◌≡◌, refl, inr, false, none, [], ◌∷◌, Bytes, length, replicate, arith,
}
use easyrpc.Prelude.Exec.{ok, throw_on}
use easyrpc.Header.{
  ByteOrder, little_endian, big_endian, CallMode, max_buffer_len, request_header_len,
  response_header_len, request_bytes, request_of_bytes, response_bytes,
}
use easyrpc.Asio.{Asio, AsioLaws}
use easyrpc.Connection
use easyrpc.Connection.{Connection, on_head, head_accepted}
use easyrpc.Connection.Head.{on_head_refuses, IsDropped}
use easyrpc.Connection.Reply
use easyrpc.RpcSession
use easyrpc.RpcSession.{RpcSession, call}
use easyrpc.RpcSession.Exchange.{Answers, request_head, response_head, write_fits, call-Answers}

zeros_not_accepted :
    (o : ByteOrder) → head_accepted (request_of_bytes o (replicate request_header_len 0)) ≡ false
unfolding request_of_bytes head_accepted
zeros_not_accepted little_endian = refl
zeros_not_accepted big_endian = refl

zeros_announce_nothing :
    (o : ByteOrder) → response_bytes o (response_head []) ≡ replicate response_header_len 0
unfolding response_bytes
zeros_announce_nothing little_endian = refl
zeros_announce_nothing big_endian = refl

-- Suppose that the memory of a client's header is zero by the time that the request is sent, and that
-- name and body have together at most `max_buffer_len` bytes. Then the client writes twelve zeros in
-- place of the header, and behind them the name and the body; and a server of any state that these
-- zeros come to drops the connection: it closes the socket, cancels its deadline if it has a
-- timeout, and reads no body.
pub zeroed_request-IsDropped :
    (a b : Asio) (laws : AsioLaws b) (o o' : ByteOrder) (protocol : Bytes) (mode : CallMode)
    (body : Bytes) (s : RpcSession a) (c : Connection b)
    → a.expired (request_bytes o (request_head protocol mode body)) ≡ replicate request_header_len 0
    → length protocol + length body ≤ max_buffer_len
    → (RpcSession.write o protocol mode body s ≡ (
        let (ec, socket) =
          a.write (replicate request_header_len 0 ∷ protocol ∷ body ∷ []) s.socket in
        throw_on ec (record s { socket = socket })))
      × IsDropped (on_head o' none (replicate request_header_len 0) c)
unfolding RpcSession.write_impl RpcSession.get_buffer
zeroed_request-IsDropped a b laws o o' protocol mode body s c zeroed small = (
  rw (write_fits o protocol mode body s small, zeroed) refl,
  on_head_refuses laws o' none _ c (inr (inr (zeros_not_accepted o'))),
)

-- Suppose that the memory of a server's header is zero by the time that a response is sent, and that
-- the response has at most `max_buffer_len` bytes. Then the server writes four zeros in place of the
-- header, and behind them the response; and a client whose socket takes its request and then delivers
-- these zeros returns from the call, without an error, an empty answer instead of the response.
pub zeroed_answer_lost :
    (a b : Asio) (o o' : ByteOrder) (protocol : Bytes) (mode : CallMode) (body answer : Bytes)
    (s : RpcSession a) (c : Connection b)
    → b.expired (response_bytes o (response_head answer)) ≡ replicate response_header_len 0
    → length answer ≤ max_buffer_len
    → length protocol + length body ≤ max_buffer_len
    → Answers a s.socket
        (RpcSession.get_buffer o' (request_head protocol mode body) protocol body)
        (replicate response_header_len 0)
        []
    → (Connection.write o answer c ≡ (
        let (ec, socket) = b.write (replicate response_header_len 0 ∷ answer ∷ []) c.socket in
        throw_on ec (record c { socket = socket })))
      × ((call o' protocol mode body s).0 ≡ ok [])
unfolding Connection.write_impl Connection.get_buffer
zeroed_answer_lost a b o o' protocol mode body answer s c zeroed small fits answers = (
  rw (Reply.write_all o answer c small, zeroed) refl,
  (call-Answers o' protocol mode body [] s fits (omega arith)
      (rw (zeros_announce_nothing o') answers)).0,
)
