-- ===== src/RpcSession/Timeouts.antt =====
-- The deadline of a call (easyrpc/client/rpc_session.hpp, easyrpc/base/atimer.hpp).
use easyrpc.Prelude.{◌≡◌, ◌≢◌, sym, ◌∙◌, ◌≤◌, Bytes, false, length, arith}
use easyrpc.Prelude.Exec.{Exec, ok, ◌>>◌}
use easyrpc.Header.{ByteOrder, max_buffer_len, response_header_len, response_of_bytes}
use easyrpc.Asio.{Asio, AsioLaws}
use easyrpc.RpcSession.{
  RpcSession, read, read_head, check_head, read_body, start_timer, stop_timer, disconnect,
}

module _ {a : Asio} where
  -- What `read` does between starting and stopping the timer.
  abbrev pub response : ByteOrder → Exec (RpcSession a) Bytes
  response o = do read_head; check_head o; read_body

  response-timeout :
      (o : ByteOrder) (s : RpcSession a) → (response o s).1.timeout_milli ≡ s.timeout_milli
  unfolding read_head check_head read_body
  response-timeout o s = ground arith

  start_timer-timeout : (s : RpcSession a) → (start_timer s).timeout_milli ≡ s.timeout_milli
  unfolding start_timer
  start_timer-timeout s = ground arith

  stop_timer-disarms :
      (laws : AsioLaws a) (s : RpcSession a)
      → s.timeout_milli ≢ 0
      → a.is_armed (stop_timer s).timer.timer ≡ false
  unfolding stop_timer
  stop_timer-disarms laws s h = ground (arith, laws.cancel_disarms s.timer.timer)

  pub stop_timer-res_head : (s : RpcSession a) → (stop_timer s).res_head ≡ s.res_head
  unfolding stop_timer
  stop_timer-res_head s = ground arith

  -- A body that comes back has the length that the copied header announces, within the bound.
  pub response_bounds :
      (laws : AsioLaws a) (o : ByteOrder) (s : RpcSession a) (answer : Bytes)
      → (response o s).0 ≡ ok answer
      → (length answer ≡ (response o s).1.res_head.body_len) × (length answer ≤ max_buffer_len)
  unfolding read_head check_head read_body
  response_bounds laws o s answer e =
      let (ec, bytes, k) = a.read response_header_len s.socket in
      ground (arith, laws.read_fills (response_of_bytes o bytes).body_len k)

  -- If the session has a timeout, then its deadline is cancelled when a read ends, whether the read
  -- returns or throws.
  pub read_disarms :
      (laws : AsioLaws a) (o : ByteOrder) (s : RpcSession a)
      → s.timeout_milli ≢ 0
      → a.is_armed (read o s).1.timer.timer ≡ false
  unfolding read
  read_disarms laws o s h =
      stop_timer-disarms laws (response o (start_timer s)).1
        (λ e. h (sym (response-timeout o (start_timer s) ∙ start_timer-timeout s) ∙ e))

  pub disconnect-closed :
      (laws : AsioLaws a) (s : RpcSession a) → a.is_open (disconnect s).socket ≡ false
  unfolding disconnect
  disconnect-closed laws s = ground (arith, laws.close_shuts (a.shutdown s.socket))
