-- ===== src/EndToEnd/Bounds.antt =====
-- Which requests the client sends, and which of them the server accepts
-- (easyrpc/client/rpc_session.hpp, easyrpc/server/connection.hpp).
use easyrpc.Prelude.{◌+◌, ◌≤◌, ◌≡◌, ◌↔◌, ◌⊎◌, false, [], ◌∷◌, Bytes, length, arith}
use easyrpc.Header.{ByteOrder, CallMode, max_buffer_len, request_bytes}
use easyrpc.Prelude.Exec.{throw_on}
use easyrpc.Asio.{Asio}
use easyrpc.Connection.{head_accepted}
use easyrpc.RpcSession.{RpcSession, write, write_impl, get_buffer}
use easyrpc.RpcSession.Exchange.{request_head, write_fits}

-- Each request of up to `max_buffer_len` bytes is written to the client's socket: what is found at
-- the address of its header, which has ended by then, and behind it the name and the body. Of the
-- headers of these requests the server refuses exactly those of the empty ones and of those of
-- `max_buffer_len` bytes.
pub sent_but_refused :
    {a : Asio} (o : ByteOrder) (protocol : Bytes) (mode : CallMode) (body : Bytes)
    (s : RpcSession a)
    → length protocol + length body ≤ max_buffer_len
    → (write o protocol mode body s ≡ (
        let head = a.expired (request_bytes o (request_head protocol mode body)) in
        let (ec, socket) = a.write (head ∷ protocol ∷ body ∷ []) s.socket in
        throw_on ec (record s { socket = socket })))
      × ((head_accepted (request_head protocol mode body) ≡ false) ↔ (
          (length protocol + length body ≡ 0) ⊎ (length protocol + length body ≡ max_buffer_len)))
unfolding head_accepted write_impl get_buffer
sent_but_refused o protocol mode body s h =
    (write_fits o protocol mode body s h, (λ e. ground arith, λ e. ground arith))
