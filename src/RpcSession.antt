-- ===== src/RpcSession.antt =====
-- easyrpc/client/rpc_session.hpp: one socket of a client, its request and its response.
pub mod Exchange
pub mod Timeouts
pub mod Deadline
pub mod Interrupted
pub mod Threads
use easyrpc.Prelude.{
  ℕ, ◌+◌, Bool, true, false, List, [], ◌∷◌, Bytes, u32, ltb, ◌==◌, if◌then◌else◌, length,
}
use easyrpc.Prelude.Exec.{
  runtime_error, Exec, pure, raise, lift, gets, modify, throw_on, refuse, ◌>>=◌, ◌>>◌,
}
use easyrpc.Prelude.Outcome.{Outcome, done, waits, fault}
use easyrpc.Header.{
  ByteOrder, CallMode, RequestHeader, ResponseHeader, max_buffer_len, response_header_len,
  request_bytes, response_of_bytes,
}
use easyrpc.ScopeGuard.{make_guard, with_guard}
use easyrpc.Asio.{Asio, Buffer, alive, ended, in_memory}
use easyrpc.Timer
use easyrpc.Timer.{Timer}

-- A `unique_ptr` to a thread.
pub data Thread : Type 0 where
  no_thread joinable joined : Thread

-- The closure that `start_timer` binds, `[this]{ disconnect(); }`.
pub data Callback : Type 0 where
  disconnects : Callback

pub record RpcSession (a : Asio) : Type 0 where
  pub ios_stopped : Bool
  pub socket : a.Socket
  pub endpoint_iter : a.Endpoints
  pub thread : Thread
  pub head : Bytes
  pub res_head : ResponseHeader
  pub body : Bytes
  pub timer_ios_stopped : Bool
  pub timer_thread : Thread
  pub timer : Timer a Callback
  pub timeout_milli : ℕ

-- `if (thread != nullptr) { if (thread->joinable()) { thread->join(); } }`
abbrev pub join : Thread → Thread
join joinable = joined
join t = t

-- A new thread in place of the one that the pointer owned, which calls std::terminate if that one is
-- still joinable.
pub start_thread : Thread → Outcome Thread
start_thread joinable = fault
start_thread no_thread = done joinable
start_thread joined = done joinable

-- The packet as the addresses of what is sent one after the other. The header is a temporary of the
-- caller, which ends with the statement that calls `get_buffer`, before anything is sent.
unfoldable pub get_buffer : ByteOrder → RequestHeader → Bytes → Bytes → List Buffer
get_buffer o head protocol body = ended (request_bytes o head) ∷ alive protocol ∷ alive body ∷ []

module _ {a : Asio} where
  create : RpcSession a
  create = record {
    ios_stopped = false;
    socket = a.new_socket;
    endpoint_iter = a.no_endpoints;
    thread = no_thread;
    head = [];
    res_head = record { body_len = 0 };
    body = [];
    timer_ios_stopped = false;
    timer_thread = no_thread;
    timer = Timer.create;
    timeout_milli = 0;
  }

  pub resolve : Bytes → Bytes → Exec (RpcSession a) Unit
  resolve ip port = do
    endpoints ← lift (a.resolve ip port)
    modify (λ s. record s { endpoint_iter = endpoints })

  unfoldable pub timeout : ℕ → RpcSession a → RpcSession a
  timeout timeout_milli s = record s { timeout_milli = timeout_milli }

  -- The thread of the timer is started only if a timeout was set before.
  pub run_timer : RpcSession a → Outcome (RpcSession a)
  unfolding start_thread
  run_timer s = if s.timeout_milli == 0 then done s else elim (start_thread s.timer_thread) [
    | done t ↦ done (record s { timer_thread = t })
    | waits ↦ waits
    | fault ↦ fault
  ]

  unfoldable pub run : RpcSession a → Outcome (RpcSession a)
  unfolding run_timer start_thread
  run s = elim (start_thread s.thread) [
    | done t ↦ run_timer (record s { thread = t })
    | waits ↦ waits
    | fault ↦ fault
  ]

  stop_ios_thread : RpcSession a → RpcSession a
  stop_ios_thread s = record s { ios_stopped = true; thread = join s.thread }

  stop_timer_thread : RpcSession a → RpcSession a
  stop_timer_thread s = record s { timer_ios_stopped = true; timer_thread = join s.timer_thread }

  pub stop : RpcSession a → RpcSession a
  unfolding stop_ios_thread stop_timer_thread
  stop s = stop_timer_thread (stop_ios_thread s)

  pub destroy : RpcSession a → RpcSession a
  destroy s = stop s

  unfoldable pub connect : Exec (RpcSession a) Unit
  connect s =
      let (r, socket) = a.connect s.endpoint_iter s.socket in (r, record s { socket = socket })

  unfoldable pub disconnect : RpcSession a → RpcSession a
  disconnect s =
      if a.is_open s.socket then record s { socket = a.close (a.shutdown s.socket) } else s

  unfoldable pub write_impl : List Buffer → Exec (RpcSession a) Unit
  write_impl buffer s =
      let (ec, socket) = a.write (in_memory a buffer) s.socket in
      throw_on ec (record s { socket = socket })

  pub write : ByteOrder → Bytes → CallMode → Bytes → Exec (RpcSession a) Unit
  unfolding get_buffer write_impl
  write o protocol mode body =
      let protocol_len = u32 (length protocol) in
      let body_len = u32 (length body) in
      if ltb max_buffer_len (u32 (protocol_len + body_len))
      then raise (runtime_error "Send data is too big")
      else write_impl (
          get_buffer o (record { protocol_len = protocol_len; body_len = body_len; mode = mode })
            protocol body)

  unfoldable pub start_timer : RpcSession a → RpcSession a
  start_timer s = if s.timeout_milli == 0 then s else record s {
    timer =
        Timer.start s.timeout_milli (Timer.set_single_shot true (Timer.bind disconnects s.timer));
  }

  unfoldable pub stop_timer : RpcSession a → RpcSession a
  stop_timer s = if s.timeout_milli == 0 then s else record s { timer = Timer.stop s.timer }

  pub read_head : Exec (RpcSession a) Unit
  read_head s =
      let (ec, bytes, socket) = a.read response_header_len s.socket in
      throw_on ec (record s { socket = socket; head = bytes })

  pub check_head : ByteOrder → Exec (RpcSession a) Unit
  check_head o = do
    modify (λ s. record s { res_head = response_of_bytes o s.head })
    res_head ← gets (λ s. s.res_head)
    refuse (ltb max_buffer_len res_head.body_len) "Body len is too big"

  pub read_body : Exec (RpcSession a) Bytes
  read_body s =
      let (ec, bytes, socket) = a.read s.res_head.body_len s.socket in
      (do throw_on ec; pure bytes) (record s { socket = socket; body = bytes })

  pub read : ByteOrder → Exec (RpcSession a) Bytes
  unfolding read_head check_head read_body start_timer stop_timer
  read o = do
    modify start_timer
    with_guard (make_guard stop_timer) (do read_head; check_head o; read_body)

  pub call : ByteOrder → Bytes → CallMode → Bytes → Exec (RpcSession a) Bytes
  unfolding write read
  call o protocol mode body = do write o protocol mode body; read o

  -- What a bound callback does to the session.
  unfoldable pub run_callback : Callback → RpcSession a → RpcSession a
  unfolding disconnect
  run_callback disconnects s = disconnect s

-- The moments at which the thread of the timer may run the handler of the deadline, while the
-- caller's thread reads.
pub record Moments : Type 0 where
  pub before_head : Bool
  pub before_body : Bool
  pub after_body : Bool

module _ {a : Asio} where
  -- The handler of `async_wait`, once the time has passed.
  pub passes : Bool → RpcSession a → RpcSession a
  unfolding run_callback
  passes fired s =
      if fired
      then Timer.on_wait run_callback (λ s. s.timer) (λ t s. record s { timer = t }) s.timeout_milli
          false s
      else s

  -- `read`, with the handler at the moments that are given.
  pub read_during : Moments → ByteOrder → Exec (RpcSession a) Bytes
  unfolding read_head check_head read_body start_timer stop_timer passes
  read_during m o = do
    modify start_timer
    with_guard (make_guard stop_timer) (do
      modify (passes m.before_head)
      read_head
      check_head o
      modify (passes m.before_body)
      bytes ← read_body
      modify (passes m.after_body)
      pure bytes)
