-- ===== src/RpcSession/Deadline.antt =====
-- A deadline that passes while a response is read (easyrpc/client/rpc_session.hpp, `read` and the
-- callback of `start_timer`, which the thread of the timer runs).
use easyrpc.Prelude.{
  ◌≡◌, ◌≢◌, refl, ap, ◌∙◌, inl, inr, Bool, true, false, Option, none, some, List, [], ◌∷◌, ◌++◌,
  Bytes, arith, if◌then◌else◌, ltb, Bool-cases, Option-cases, String,
}
use easyrpc.Prelude.Exec.{Exec, Result, ok, throw, runtime_error, modify, pure, ◌>>=◌, ◌>>◌}
use easyrpc.Header.{ByteOrder, max_buffer_len, response_header_len, response_of_bytes}
use easyrpc.Asio.{Asio, AsioLaws}
use easyrpc.Timer.{run_all, run_all_append, on_wait}
use easyrpc.RpcSession.{
  RpcSession, Callback, disconnects, run_callback, Moments, passes, read, read_during, read_head,
  check_head, read_body, start_timer, disconnect,
}
use easyrpc.RpcSession.Exchange.{socket-start_timer}

module _ {a : Asio} where
  disconnect_twice :
      (laws : AsioLaws a) (s : RpcSession a) → disconnect (disconnect s) ≡ disconnect s
  unfolding disconnect
  disconnect_twice laws s = ground (arith, laws.close_shuts (a.shutdown s.socket))

  run_callback-disconnect : (f : Callback) (s : RpcSession a) → run_callback f s ≡ disconnect s
  unfolding run_callback
  run_callback-disconnect disconnects s = refl

  pub timer-disconnect : (s : RpcSession a) → (disconnect s).timer ≡ s.timer
  unfolding disconnect
  timer-disconnect s = ground arith

  -- The deadline's handler, which is bound once for each read, disconnects.
  abbrev pub IsBound : RpcSession a → Type 0
  IsBound s =
      (fs : List Callback) × (s.timer.func_vec ≡ fs ++ disconnects ∷ [])
      × (s.timer.is_single_shot ≡ true)

  pub passes_bound :
      (laws : AsioLaws a) (s : RpcSession a) → IsBound s → passes true s ≡ disconnect s
  unfolding passes on_wait
  passes_bound laws s (fs, bound, once) =
      let all =
        run_all_append run_callback disconnect run_callback-disconnect (disconnect_twice laws) fs
          disconnects s in
      let ran = ap (λ v. run_all run_callback v s) bound ∙ all in rw (ran, timer-disconnect s, once)

  pub start_timer-IsBound : (s : RpcSession a) → s.timeout_milli ≢ 0 → IsBound (start_timer s)
  unfolding start_timer
  start_timer-IsBound s h = (s.timer.func_vec, ground arith, ground arith)

-- What the two reads give.
abbrev pub body_of : Option String → Bytes → Result Bytes
body_of none bytes = ok bytes
body_of (some message) bytes = throw (runtime_error message)

module _ (a : Asio) where
  -- The socket, which the deadline closes if it passes.
  abbrev pub closing : Bool → a.Socket → a.Socket
  closing fired k = if fired then (if a.is_open k then a.close (a.shutdown k) else k) else k

  unfoldable pub fetch_body :
      ByteOrder → (a.Socket → a.Socket) → Option String → Bytes → a.Socket → Result Bytes
  fetch_body o between (some message) head k = throw (runtime_error message)
  fetch_body o between none head k =
      let n = (response_of_bytes o head).body_len in
      if ltb max_buffer_len n
      then throw (runtime_error "Body len is too big")
      else body_of (a.read n (between k)).0 (a.read n (between k)).1

  unfoldable pub fetch : ByteOrder → (a.Socket → a.Socket) → a.Socket → Result Bytes
  unfolding fetch_body
  fetch o between k =
      let (ec, head, k') = a.read response_header_len k in fetch_body o between ec head k'

module _ {a : Asio} where
  socket-passes :
      (laws : AsioLaws a) (fired : Bool) (s : RpcSession a)
      → IsBound s
      → ((passes fired s).socket ≡ closing a fired s.socket)
        × ((passes fired s).timer ≡ s.timer)
        × ((passes fired s).res_head ≡ s.res_head)
  unfolding passes disconnect
  socket-passes laws true s bound = rw (passes_bound laws s bound) ground arith
  socket-passes laws false s bound = (refl, refl, refl)

  pub fetch-read : (o : ByteOrder) (s : RpcSession a) → (read o s).0 ≡ fetch a o (λ k. k) s.socket
  unfolding read read_head check_head read_body fetch fetch_body start_timer
  fetch-read o s = ground arith

  -- `read`, without its timer.
  abbrev rest_of : Moments → ByteOrder → Exec (RpcSession a) Bytes
  rest_of m o = do
    read_head
    check_head o
    modify (passes m.before_body)
    bytes ← read_body
    modify (passes m.after_body)
    pure bytes

  fetch-rest_of :
      (laws : AsioLaws a) (m : Moments) (o : ByteOrder) (s : RpcSession a)
      → IsBound s
      → (rest_of m o s).0 ≡ fetch a o (closing a m.before_body) s.socket
  unfolding read_head check_head read_body fetch fetch_body
  fetch-rest_of laws m o s bound =
      let (ec, head, k) = a.read response_header_len s.socket in
      let res_head = response_of_bytes o head in
      let (second, _, same) =
        socket-passes laws m.before_body (record s { socket = k; head = head; res_head = res_head })
          bound in
      elim (Option-cases ec) [
        | inr (message, e) ↦ rw e
        | inl e ↦ elim (Bool-cases (ltb max_buffer_len res_head.body_len)) [
          | inl big ↦ rw (e, big)
          | inr fits ↦
              elim (Option-cases (a.read res_head.body_len (closing a m.before_body k)).0) [
                | inr (message, e') ↦ rw (e, fits, second, same, e')
                | inl e' ↦ rw (e, fits, second, same, e')
              ]
        ]
      ]

  pub fetch-read_during :
      (laws : AsioLaws a) (m : Moments) (o : ByteOrder) (s : RpcSession a)
      → s.timeout_milli ≢ 0
      → (read_during m o s).0
        ≡ fetch a o (closing a m.before_body) (closing a m.before_head s.socket)
  unfolding read_during read_head check_head read_body fetch fetch_body
  fetch-read_during laws m o s h =
      let (first, same, _) =
        socket-passes laws m.before_head (start_timer s) (start_timer-IsBound s h) in
      fetch-rest_of laws m o (passes m.before_head (start_timer s))
        (rw same (start_timer-IsBound s h))
      ∙ ap (λ k. fetch a o (closing a m.before_body) k)
          (first ∙ ap (λ k. closing a m.before_head k) (socket-start_timer s))
