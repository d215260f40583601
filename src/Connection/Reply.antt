-- ===== src/Connection/Reply.antt =====
-- Sending a response (easyrpc/server/connection.hpp).
use easyrpc.Prelude.{◌≤◌, ◌<◌, ◌^◌, ◌≡◌, none, some, String, Bytes, length, arith}
use easyrpc.Prelude.Exec.{runtime_error, ok, throw}
use easyrpc.Header.{ByteOrder, max_buffer_len}
use easyrpc.Asio.{in_memory, Asio}
use easyrpc.Connection.{Connection, get_buffer, write, write_impl}

module _ {a : Asio} (o : ByteOrder) (body : Bytes) (c : Connection a) where
  -- A body that fits is handed to the socket, with its header.
  pub write_all :
      length body ≤ max_buffer_len
      → write o body c ≡ write_impl (get_buffer o (record { body_len = length body }) body) c
  unfolding write
  write_all h = ground arith

  -- A body that fits is sent behind what is found at the address of its header; `k` is the socket
  -- then.
  pub write_fits :
      (k : a.Socket)
      → length body ≤ max_buffer_len
      → a.write (in_memory a (get_buffer o (record { body_len = length body }) body)) c.socket
        ≡ (none, k)
      → write o body c ≡ (ok tt, record c { socket = k })
  unfolding write
  write_fits k h e = ground arith

  -- If the socket fails, its message is thrown.
  pub write_fails :
      (k : a.Socket) (message : String)
      → length body ≤ max_buffer_len
      → a.write (in_memory a (get_buffer o (record { body_len = length body }) body)) c.socket
        ≡ (some message, k)
      → write o body c ≡ (throw (runtime_error message), record c { socket = k })
  unfolding write
  write_fails k message h e = ground arith

  -- A body that is too long, and whose length does not wrap, is not sent.
  pub write_too_big :
      max_buffer_len < length body
      → length body < 2 ^ 32
      → write o body c ≡ (throw (runtime_error "Send data is too big"), c)
  unfolding write
  write_too_big h fits = ground arith

-- A body was sent in full, behind what was found in place of its header.
pub record Sent {a : Asio} (o : ByteOrder) (c c' : Connection a) : Type 0 where
  pub body : Bytes
  pub k : a.Socket
  pub wrote :
      a.write (in_memory a (get_buffer o (record { body_len = length body }) body)) c.socket
      ≡ (none, k)
  pub rest : c' ≡ record c { socket = k }

-- A write that does not throw has sent its body, if the length of the body does not wrap.
pub write-Sent :
    {a : Asio} (o : ByteOrder) (body : Bytes) (c : Connection a)
    → length body < 2 ^ 32
    → (write o body c).0 ≡ ok tt
    → Sent o c (write o body c).1
unfolding write
write-Sent {a} o body c fits e =
    let (ec, k) =
      a.write (in_memory a (get_buffer o (record { body_len = length body }) body)) c.socket in
    record { body = body; k = k; wrote = ground arith; rest = ground arith }
