-- ===== src/RpcSession/Exchange.antt =====
-- A request and its response on one socket (easyrpc/client/rpc_session.hpp).
use easyrpc.Prelude.{◌+◌, ◌≤◌, ◌<◌, ◌^◌, ◌≡◌, none, List, Bytes, length, arith}
use easyrpc.Prelude.Exec.{runtime_error, ok, throw, bind-ok}
use easyrpc.Header.{
  ByteOrder, CallMode, RequestHeader, ResponseHeader, max_buffer_len, response_header_len,
  response_bytes,
}
use easyrpc.Header.Layout.{response_round_trip}
use easyrpc.RpcSession.Timeouts.{response, response_bounds, stop_timer-res_head}
use easyrpc.Asio.{Asio, AsioLaws, Buffer, in_memory}
use easyrpc.RpcSession.{
  RpcSession, write, write_impl, get_buffer, read, call, start_timer, stop_timer,
}

-- The header of a request whose lengths fit.
abbrev pub request_head : Bytes → CallMode → Bytes → RequestHeader
request_head protocol mode body = record {
  protocol_len = length protocol;
  body_len = length body;
  mode = mode;
}

abbrev pub response_head : Bytes → ResponseHeader
response_head body = record { body_len = length body }

-- A socket whose peer takes what is found in these buffers and then sends this head and this body:
-- `write` sends all of it, and `read` gives what the peer has sent, in order.
pub record Answers (a : Asio) (k : a.Socket) (sent : List Buffer) (head body : Bytes) : Type 0 where
  pub k₁ : a.Socket
  pub wrote : a.write (in_memory a sent) k ≡ (none, k₁)
  pub k₂ : a.Socket
  pub read_first : a.read response_header_len k₁ ≡ (none, head, k₂)
  pub k₃ : a.Socket
  pub read_rest : a.read (length body) k₂ ≡ (none, body, k₃)

module _ {a : Asio} where
  pub write_fits :
      (o : ByteOrder) (protocol : Bytes) (mode : CallMode) (body : Bytes) (s : RpcSession a)
      → length protocol + length body ≤ max_buffer_len
      → write o protocol mode body s
        ≡ write_impl (get_buffer o (request_head protocol mode body) protocol body) s
  unfolding write
  write_fits o protocol mode body s h = ground (arith)

  pub socket-start_timer : (s : RpcSession a) → (start_timer s).socket ≡ s.socket
  unfolding start_timer
  socket-start_timer s = ground arith

  read_answer :
      (o : ByteOrder) (s : RpcSession a) (body : Bytes) (k₂ k₃ : a.Socket)
      → length body ≤ max_buffer_len
      → a.read response_header_len s.socket ≡ (none, response_bytes o (response_head body), k₂)
      → a.read (length body) k₂ ≡ (none, body, k₃)
      → ((read o s).0 ≡ ok body) × ((read o s).1.socket ≡ k₃)
  unfolding read stop_timer
  read_answer o s body k₂ k₃ h e₁ e₂ =
      ground
        (arith, socket-start_timer s, (response_round_trip o (response_head body) (omega arith)).1)

  -- A request that fits, to a peer that answers with a response that fits: the call returns the
  -- body of the response.
  pub call-Answers :
      (o : ByteOrder) (protocol : Bytes) (mode : CallMode) (body answer : Bytes) (s : RpcSession a)
      → length protocol + length body ≤ max_buffer_len
      → length answer ≤ max_buffer_len
      → (n : Answers a s.socket
          (get_buffer o (request_head protocol mode body) protocol body)
          (response_bytes o (response_head answer))
          answer)
      → ((call o protocol mode body s).0 ≡ ok answer)
        × ((call o protocol mode body s).1.socket ≡ n.k₃)
  unfolding call write_impl
  call-Answers o protocol mode body answer s hp ha n =
      rw (write_fits o protocol mode body s hp, n.wrote)
        (read_answer o (record s { socket = n.k₁ }) answer n.k₂ n.k₃ ha n.read_first n.read_rest)

  -- A request whose lengths add up to more than `max_buffer_len`, and do not wrap, is not sent: the
  -- call throws and leaves the session as it was.
  pub call_too_big :
      (o : ByteOrder) (protocol : Bytes) (mode : CallMode) (body : Bytes) (s : RpcSession a)
      → max_buffer_len < length protocol + length body
      → length protocol + length body < 2 ^ 32
      → call o protocol mode body s ≡ (throw (runtime_error "Send data is too big"), s)
  unfolding call write
  call_too_big o protocol mode body s h fits = ground arith

  -- On a socket whose reads fill their buffers, every body that a call returns has the length that
  -- the header of the response announces, as the session has copied it, and no more than
  -- `max_buffer_len` bytes.
  pub call_bounds :
      (laws : AsioLaws a) (o : ByteOrder) (protocol : Bytes) (mode : CallMode) (body : Bytes)
      (s : RpcSession a) (answer : Bytes)
      → (call o protocol mode body s).0 ≡ ok answer
      → (length answer ≡ (call o protocol mode body s).1.res_head.body_len)
        × (length answer ≤ max_buffer_len)
  unfolding call read
  call_bounds laws o protocol mode body s answer e =
      let (u, s', wrote) = bind-ok (write o protocol mode body) (λ _. read o) s e in
      let e' : (read o s').0 ≡ ok answer = rw wrote at e in
      rw (wrote, stop_timer-res_head (response o (start_timer s')).1)
        (response_bounds laws o (start_timer s') answer e')
