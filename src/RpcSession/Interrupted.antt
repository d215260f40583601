-- ===== src/RpcSession/Interrupted.antt =====
-- What a call returns if its deadline passes while it reads, or after it has ended
-- (easyrpc/client/rpc_session.hpp, `read`).
use easyrpc.Prelude.{
  ℕ, ◌≡◌, ◌≢◌, ◌↔◌, refl, sym, ap, ◌∙◌, ◌⊎◌, inl, inr, Bool, true, false, Option, none, some, List,
  [], ◌∷◌, Bytes, length, arith, ltb, Bool-cases, Option-cases, String, u32, ◌+◌,
}
use easyrpc.Prelude.Exec.{Result, ok, throw, runtime_error, Exception, modify, ◌>>◌, Result-cases}
use easyrpc.Header.{
  ByteOrder, max_buffer_len, response_header_len, response_of_bytes, CallMode, RequestHeader,
}
use native.Mathlib.Decide.{ℕ_discrete}
use easyrpc.Asio.{Buffer, in_memory, Asio, AsioLaws, ClosedFails}
use easyrpc.RpcSession.{
  get_buffer, RpcSession, Moments, passes, read, read_during, read_head, check_head, read_body,
  start_timer, stop_timer, disconnect, write, write_impl, connect, call,
}
use easyrpc.RpcSession.Timeouts.{disconnect-closed, response}
use easyrpc.RpcSession.Deadline.{
  closing, body_of, fetch_body, fetch, IsBound, fetch-read, fetch-read_during, passes_bound,
  start_timer-IsBound, timer-disconnect,
}

-- The two reads return bytes, when the deadline passes between them, only if they do without it.
module _ {a : Asio} (laws : AsioLaws a) (fails : ClosedFails a) where
  closing-closed : (k : a.Socket) → a.is_open (closing a true k) ≡ false
  closing-closed k = ground (arith, laws.close_shuts (a.shutdown k))

  body_of-ok :
      (ec : Option String) (bytes answer : Bytes)
      → body_of ec bytes ≡ ok answer
      → (ec ≡ none) × (bytes ≡ answer)
  body_of-ok none bytes answer e = (refl, cc)
  body_of-ok (some message) bytes answer e = absurd cc

  abbrev read_at : ℕ → a.Socket → Result Bytes
  read_at n k = body_of (a.read n k).0 (a.read n k).1

  length-read_at :
      (n : ℕ) (answer : Bytes) (k : a.Socket) → read_at n k ≡ ok answer → length answer ≡ n
  length-read_at n answer k e =
      let (_, same) = body_of-ok (a.read n k).0 (a.read n k).1 answer e in
      sym (ap length same) ∙ laws.read_fills n k

  read_at_closed :
      (n : ℕ) (answer : Bytes) (k : a.Socket)
      → a.is_open k ≡ false
      → read_at n k ≡ ok answer
      → n ≡ 0
  read_at_closed n answer k shut e = elim (ℕ_discrete n 0) [
    | yes z ↦ z
    | no more ↦ absurd (fails.read_closed n k more shut (body_of-ok _ _ answer e).0)
  ]

  length-nil : (bytes : Bytes) → length bytes ≡ 0 → bytes ≡ []
  length-nil [] e = refl
  length-nil (b ∷ bytes) e = absurd (omega arith)

  read_at_empty : (n : ℕ) (k : a.Socket) → n ≡ 0 → read_at n k ≡ ok []
  read_at_empty n k e =
      let nil = length-nil (a.read 0 k).1 (laws.read_fills 0 k) in rw (e, fails.read_empty k, nil)

  -- A deadline that passes before a read of the body lets only an empty one through.
  read_at_iff :
      (n : ℕ) (fired : Bool) (answer : Bytes) (k : a.Socket)
      → (read_at n (closing a fired k) ≡ ok answer)
        ↔ (((fired ≡ false) ⊎ (answer ≡ [])) × (read_at n k ≡ ok answer))
  read_at_iff n false answer k = (λ e. (inl refl, e), λ (_, e). e)
  read_at_iff n true answer k = (
    λ e.
        let z = read_at_closed n answer (closing a true k) (closing-closed k) e in
        let nil = length-nil answer (length-read_at n answer (closing a true k) e ∙ z) in
        (inr nil, rw nil (read_at_empty n k z)),
    λ (why, e). elim why [
      | inl never ↦ absurd cc
      | inr nil ↦
          let z = sym (length-read_at n answer k e) ∙ ap length nil in
          rw nil (read_at_empty n (closing a true k) z)
    ],
  )

  fetch_body_iff :
      (o : ByteOrder) (fired : Bool) (ec : Option String) (head answer : Bytes) (k : a.Socket)
      → (fetch_body a o (closing a fired) ec head k ≡ ok answer)
        ↔ (((fired ≡ false) ⊎ (answer ≡ [])) × (fetch_body a o (λ k. k) ec head k ≡ ok answer))
  unfolding fetch_body
  fetch_body_iff o fired (some message) head answer k = (λ e. absurd cc, λ (_, e). absurd cc)
  fetch_body_iff o fired none head answer k =
      elim (Bool-cases (ltb max_buffer_len (response_of_bytes o head).body_len)) [
        | inl big ↦ rw big (λ e. absurd cc, λ (_, e). absurd cc)
        | inr fits ↦ rw fits (read_at_iff (response_of_bytes o head).body_len fired answer k)
      ]

  head_fails :
      (o : ByteOrder) (between : a.Socket → a.Socket) (answer : Bytes) (k : a.Socket)
      → fetch a o between (closing a true k) ≢ ok answer
  unfolding fetch fetch_body
  head_fails o between answer k e =
      elim (Option-cases (a.read response_header_len (closing a true k)).0) [
        | inl none_ ↦ fails.read_closed _ _ (λ z. omega arith) (closing-closed k) none_
        | inr (message, failed) ↦ cc
      ]

-- In a session with a timeout, where operations on a closed socket fail: a read during which the
-- handler of the deadline may run, before the header is read, before the body is read or after it,
-- returns some bytes exactly if the handler does not run before the header, if it does not run before
-- the body or there is no byte to read then, and if the read that no deadline meets returns these
-- bytes.
pub read_during_iff :
    {a : Asio} (laws : AsioLaws a) (fails : ClosedFails a) (m : Moments) (o : ByteOrder)
    (s : RpcSession a) (answer : Bytes)
    → s.timeout_milli ≢ 0
    → ((read_during m o s).0 ≡ ok answer) ↔ (
        (m.before_head ≡ false)
        × ((m.before_body ≡ false) ⊎ (answer ≡ []))
        × ((read o s).0 ≡ ok answer))
unfolding fetch
read_during_iff {a} laws fails m o s answer h =
    rw (fetch-read_during laws m o s h, fetch-read o s) (at_head m.before_head)
  where
    at_head :
        (fired : Bool)
        → (fetch a o (closing a m.before_body) (closing a fired s.socket) ≡ ok answer) ↔ (
            (fired ≡ false)
            × ((m.before_body ≡ false) ⊎ (answer ≡ []))
            × (fetch a o (λ k. k) s.socket ≡ ok answer))
    at_head true = (
      λ e. absurd (head_fails laws fails o (closing a m.before_body) answer s.socket e),
      λ (never, _, _). absurd cc,
    )
    at_head false =
        let (ec, head, k) = a.read response_header_len s.socket in
        let (there, back) = fetch_body_iff laws fails o m.before_body ec head answer k in
        (λ e. let (why, same) = there e in (refl, why, same), λ (_, why, e). back (why, e))

-- Reading keeps the callback bound.
module _ {a : Asio} where
  timer-rest : (o : ByteOrder) (s : RpcSession a) → (response o s).1.timer ≡ s.timer
  unfolding read_head check_head read_body
  timer-rest o s = ground arith

  IsBound-stop_timer : (s : RpcSession a) → IsBound s → IsBound (stop_timer s)
  unfolding stop_timer
  IsBound-stop_timer s (fs, e, once) = (fs, ground arith, ground arith)

  read-IsBound : (o : ByteOrder) (s : RpcSession a) → s.timeout_milli ≢ 0 → IsBound (read o s).1
  unfolding read
  read-IsBound o s h =
      IsBound-stop_timer (response o (start_timer s)).1
        (rw (timer-rest o (start_timer s)) (start_timer-IsBound s h))

  write_impl-closed :
      (fails : ClosedFails a) (buffers : List Buffer) (s : RpcSession a)
      → a.is_open s.socket ≡ false
      → (x : Exception) × ((write_impl buffers s).0 ≡ throw x)
  unfolding write_impl
  write_impl-closed fails buffers s shut =
      elim (Option-cases (a.write (in_memory a buffers) s.socket).0) [
        | inl went ↦ absurd (fails.write_closed (in_memory a buffers) s.socket shut went)
        | inr (message, e) ↦ (runtime_error message, rw e)
      ]

  -- A request is not written to a closed socket.
  write-closed :
      (fails : ClosedFails a) (o : ByteOrder) (protocol : Bytes) (mode : CallMode) (body : Bytes)
      (s : RpcSession a)
      → a.is_open s.socket ≡ false
      → (x : Exception) × ((write o protocol mode body s).0 ≡ throw x)
  unfolding write
  write-closed fails o protocol mode body s shut =
      elim (Bool-cases (ltb max_buffer_len (u32 (u32 (length protocol) + u32 (length body))))) [
        | inl big ↦ (runtime_error "Send data is too big", rw big)
        | inr fits ↦
            let head : RequestHeader = record {
              protocol_len = u32 (length protocol);
              body_len = u32 (length body);
              mode = mode;
            } in
            let (x, thrown) = write_impl-closed fails (get_buffer o head protocol body) s shut in
            (x, rw fits thrown)
      ]

  call-closed :
      (fails : ClosedFails a) (o : ByteOrder) (protocol : Bytes) (mode : CallMode) (body : Bytes)
      (s : RpcSession a)
      → a.is_open s.socket ≡ false
      → (x : Exception) × ((call o protocol mode body s).0 ≡ throw x)
  unfolding call
  call-closed fails o protocol mode body s shut =
      let (x, thrown) = write-closed fails o protocol mode body s shut in (x, rw thrown)

-- If the handler of a deadline was already queued when the read that had set it cancelled it, and it
-- runs once the next call of the session has connected, then that call throws, whatever its peer
-- does. (The session has a timeout, its client disconnects it between the two calls, and operations
-- on a closed socket fail.)
pub late_deadline_breaks_call :
    {a : Asio} (laws : AsioLaws a) (fails : ClosedFails a) (o : ByteOrder) (protocol : Bytes)
    (mode : CallMode) (body : Bytes) (s : RpcSession a)
    → s.timeout_milli ≢ 0
    → (x : Exception) × (((connect >> (modify (passes true) >> call o protocol mode body))
          (disconnect (read o s).1)).0
        ≡ throw x)
unfolding connect
late_deadline_breaks_call {a} laws fails o protocol mode body s h =
    let before = disconnect (read o s).1 in
    let (r, k) = a.connect before.endpoint_iter before.socket in
    let bound : IsBound before = rw (timer-disconnect (read o s).1) (read-IsBound o s h) in
    let connected = record before { socket = k } in
    let fired = passes_bound laws connected bound in
    elim (Result-cases r) [
      | inr (x, e) ↦ (x, rw e)
      | inl (u, e) ↦
          let (x, thrown) =
            call-closed fails o protocol mode body (disconnect connected)
              (disconnect-closed laws connected) in
          (x, rw (e, fired) thrown)
    ]
