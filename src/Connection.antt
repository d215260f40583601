-- ===== src/Connection.antt =====
-- easyrpc/server/connection.hpp: one socket of the server. The completion handlers that the source
-- passes to `async_read` are functions of the error and of the buffer that was read.
pub mod Bounds
pub mod Head
pub mod Reply
pub mod Body
pub mod Deadline
pub mod Owners
use easyrpc.Prelude.{
  ℕ, ◌+◌, Bool, true, false, ◌&&◌, Option, none, some, List, [], ◌∷◌, Bytes, u32, ltb, leb, ◌==◌,
  if◌then◌else◌, length, take, drop, replicate, String,
}
use easyrpc.Prelude.Exec.{runtime_error, Exec, raise, throw_on}
use easyrpc.Prelude.Outcome.{Outcome, done, waits, fault}
use easyrpc.Header.{
  ByteOrder, CallMode, RequestHeader, ResponseHeader, max_buffer_len, request_header_len,
  request_of_bytes, response_bytes,
}
use easyrpc.ScopeGuard.{make_guard, dismiss, destruct}
use easyrpc.Asio.{Asio, Buffer, alive, ended, in_memory}
use easyrpc.Timer
use easyrpc.Timer.{Timer}

-- The closure that `start_timer` binds, `[this, self]{ disconnect(); }`.
pub data Callback : Type 0 where
  disconnects : Callback

-- The asynchronous read that is under way, and the size of its buffer.
pub data Pending : Type 0 where
  nothing : Pending
  head_bytes body_bytes : ℕ → Pending

pub record Connection (a : Asio) : Type 0 where
  pub socket : a.Socket
  pub head : Bytes
  pub req_head : RequestHeader
  pub protocol_and_body : Bytes
  pub timer : Timer a Callback
  pub timeout_milli : ℕ
  pub pending : Pending

-- `std::string(&buffer[from], n)`, where a read outside the buffer is `none`.
unfoldable pub string_at : Bytes → ℕ → ℕ → Option Bytes
string_at buffer from n =
    if leb (from + n) (length buffer) then some (take n (drop from buffer)) else none

-- The length that `check_head` and `read_protocol_and_body` compute, in `unsigned int`.
abbrev pub request_len : RequestHeader → ℕ
request_len h = u32 (h.protocol_len + h.body_len)

unfoldable pub head_accepted : RequestHeader → Bool
head_accepted h = ltb 0 (request_len h) && ltb (request_len h) max_buffer_len

-- The packet as the addresses of what is sent one after the other. The header is a temporary of the
-- caller, which ends with the statement that calls `get_buffer`, before anything is sent.
unfoldable pub get_buffer : ByteOrder → ResponseHeader → Bytes → List Buffer
get_buffer o head body = ended (response_bytes o head) ∷ alive body ∷ []

module _ {a : Asio} where
  unfoldable pub disconnect : Connection a → Connection a
  disconnect c =
      if a.is_open c.socket then record c { socket = a.close (a.shutdown c.socket) } else c

  unfoldable pub start_timer : Connection a → Connection a
  start_timer c = if c.timeout_milli == 0 then c else record c {
    timer =
        Timer.start c.timeout_milli (Timer.set_single_shot true (Timer.bind disconnects c.timer));
  }

  unfoldable pub stop_timer : Connection a → Connection a
  stop_timer c = if c.timeout_milli == 0 then c else record c { timer = Timer.stop c.timer }

  unfoldable pub set_no_delay : Connection a → Connection a
  set_no_delay c = record c { socket = a.set_no_delay c.socket }

  unfoldable pub read_head : Connection a → Connection a
  unfolding start_timer
  read_head c = record (start_timer c) { pending = head_bytes request_header_len }

  unfoldable pub start : Connection a → Connection a
  unfolding set_no_delay read_head
  start c = read_head (set_no_delay c)

  pub check_head : ByteOrder → Connection a → Bool × Connection a
  unfolding head_accepted
  check_head o c =
      let req_head = request_of_bytes o c.head in
      (head_accepted req_head, record c { req_head = req_head })

  pub read_protocol_and_body : Connection a → Connection a
  read_protocol_and_body c = record c {
    protocol_and_body = replicate (request_len c.req_head) 0;
    pending = body_bytes (request_len c.req_head);
  }

  -- The handler of `read_head`: `ec` is the error's message, `bytes` what `head_` holds.
  unfoldable pub on_head : ByteOrder → Option String → Bytes → Connection a → Connection a
  unfolding stop_timer disconnect check_head read_protocol_and_body
  on_head o ec bytes c =
      let c₀ = record c { head = bytes; pending = nothing } in
      let guard = make_guard (λ c. disconnect (stop_timer c)) in
      if a.is_open c₀.socket
      then elim ec [
        | some message ↦ destruct guard c₀
        | none ↦
            let (accepted, c₁) = check_head o c₀ in
            if accepted
            then destruct (dismiss guard) (read_protocol_and_body c₁)
            else destruct guard c₁
      ]
      else destruct guard c₀

  unfoldable pub write_impl : List Buffer → Exec (Connection a) Unit
  write_impl buffer c =
      let (ec, socket) = a.write (in_memory a buffer) c.socket in
      throw_on ec (record c { socket = socket })

  pub write : ByteOrder → Bytes → Exec (Connection a) Unit
  unfolding get_buffer write_impl
  write o body =
      let body_len = u32 (length body) in
      if ltb max_buffer_len body_len
      then raise (runtime_error "Send data is too big")
      else write_impl (get_buffer o (record { body_len = body_len }) body)

  -- What a bound callback does to the connection.
  unfoldable pub run_callback : Callback → Connection a → Connection a
  unfolding disconnect
  run_callback disconnects c = disconnect c

  unfoldable pub destroy : Connection a → Connection a
  unfolding stop_timer disconnect
  destroy c = disconnect (stop_timer c)

module _ {R : Type 0} (route : Bytes → Bytes → CallMode → R → Outcome (Bool × R)) where
  -- The two strings are cut out of the buffer before the router is called.
  unfoldable pub dispatch : Option Bytes → Option Bytes → CallMode → R → Outcome (Bool × R)
  dispatch (some protocol) (some body) mode r = route protocol body mode r
  dispatch (some protocol) none mode r = fault
  dispatch none body mode r = fault

-- The handler of `read_protocol_and_body`, in a program whose router is in a state `R`.
module _ {a : Asio} {R : Type 0} (route : Bytes → Bytes → CallMode → R → Outcome (Bool × R)) where
  -- What follows the call of the router.
  finish : Connection a → Outcome (Bool × R) → Outcome (Connection a × R)
  unfolding disconnect
  finish c (done (true, r)) = done (destruct (dismiss (make_guard disconnect)) c, r)
  finish c (done (false, r)) = done (destruct (make_guard disconnect) c, r)
  finish c waits = waits
  finish c fault = fault

  read_done : Option String → Connection a → R → Outcome (Connection a × R)
  unfolding finish string_at dispatch
  read_done (some message) c r = done (destruct (make_guard disconnect) c, r)
  read_done none c r =
      let h = c.req_head in
      finish c (
        dispatch route (string_at c.protocol_and_body 0 h.protocol_len)
          (string_at c.protocol_and_body h.protocol_len h.body_len) h.mode r)

  pub on_body : Option String → Bytes → Connection a → R → Outcome (Connection a × R)
  unfolding stop_timer read_done
  on_body ec bytes c r =
      let c₀ = stop_timer (record c { protocol_and_body = bytes; pending = nothing }) in
      if a.is_open c₀.socket then read_done ec c₀ r else done (c₀, r)
