-- ===== src/Lifetime.antt =====
-- The memory of a connection (easyrpc/server/connection.hpp, the shared pointers that its closures
-- hold; easyrpc/server/server.hpp, `accept`; easyrpc/base/thread_pool.hpp, a task's arguments).
-- Each handler and each task is one step.
pub mod Callbacks
pub mod Ends
pub mod Accepted
pub mod Verdicts
use easyrpc.Prelude.{
  ℕ, suc, ◌+◌, ◌≡◌, Bool, true, false, Option, String, Bytes, length, if◌then◌else◌, ◌==◌,
}
use easyrpc.Prelude.Outcome.{Outcome, done, waits}
use easyrpc.Header.{ByteOrder, CallMode}
use easyrpc.Asio.{Asio}
use easyrpc.EasyPack.{EasyPack}
use easyrpc.Connection
use easyrpc.Connection.{Connection, Pending, nothing, head_bytes, body_bytes, on_head, on_body}
use easyrpc.Connection.Deadline.{deadline}
use easyrpc.Router.Invoker.{InvokerFunction, InvokerFunctionRaw, invoke, invoke_raw}
use easyrpc.Server.{make_connection}

-- A connection and what may still run on it: `tasks` are the tasks of the pool that hold a pointer
-- to it, `waits` the handlers of `async_wait` that have not run.
pub record Life (a : Asio) : Type 0 where
  pub conn : Connection a
  pub tasks : ℕ
  pub waits : ℕ
  pub is_destroyed : Bool

-- The handler of the read that is under way, if any, captures `self`.
unfoldable pub readers : Pending → ℕ
readers nothing = 0
readers (head_bytes n) = 1
readers (body_bytes n) = 1

-- What the router does with a request: it refuses it, counts it as routed without a task, or queues
-- a task that holds `self`.
pub data Verdict : Type 0 where
  refused dropped queued : Verdict

-- `router::route`, as far as the number of tasks goes.
unfoldable pub verdict : Verdict → Bytes → Bytes → CallMode → ℕ → Outcome (Bool × ℕ)
verdict refused protocol body mode n = done (false, n)
verdict dropped protocol body mode n = done (true, n)
verdict queued protocol body mode n = done (true, suc n)

module _ {a : Asio} where
  -- The shared pointers to a connection: those of the read's handler, of the callbacks that the
  -- timer keeps, and of the tasks.
  unfoldable pub owners : Life a → ℕ
  unfolding readers
  owners l = readers l.conn.pending + (length l.conn.timer.func_vec + l.tasks)

  -- A connection that the server has made and started, with the socket that `async_accept` left it.
  unfoldable pub accepted : ℕ → a.Socket → Life a
  accepted timeout_milli socket = record {
    conn = Connection.start (record (make_connection timeout_milli) { socket = socket });
    tasks = 0;
    waits = if timeout_milli == 0 then 0 else 1;
    is_destroyed = false;
  }

-- What may happen next to a connection.
pub data Step {a : Asio} (p : EasyPack) (W : Type 0) (o : ByteOrder) (l : Life a)
    : Life a → Type 0 where
  -- the read of the head completes
  head_done :
      (n : ℕ) (ec : Option String) (bytes : Bytes)
      → l.conn.pending ≡ head_bytes n
      → Step p W o l (record l { conn = on_head o ec bytes l.conn })
  -- the read of the body completes, and the handler comes to its end
  body_done :
      (n : ℕ) (v : Verdict) (ec : Option String) (bytes : Bytes) (c : Connection a) (tasks : ℕ)
      → l.conn.pending ≡ body_bytes n
      → on_body (verdict v) ec bytes l.conn l.tasks ≡ done (c, tasks)
      → Step p W o l (record l { conn = c; tasks = tasks })
  -- a worker runs a task and destroys it
  task_ends :
      (inv : InvokerFunction p W) (body : Bytes) (w : W) (n : ℕ)
      → l.tasks ≡ suc n
      → Step p W o l (record l {
        conn = (invoke o inv body (record { conn = l.conn; world = w })).1.conn;
        tasks = n;
      })
  raw_task_ends :
      (inv : InvokerFunctionRaw W) (body : Bytes) (w : W) (n : ℕ)
      → l.tasks ≡ suc n
      → Step p W o l (record l {
        conn = (invoke_raw o inv body (record { conn = l.conn; world = w })).1.conn;
        tasks = n;
      })
  -- a task is destroyed with the pool's queue
  task_dropped : (n : ℕ) → l.tasks ≡ suc n → Step p W o l (record l { tasks = n })
  -- the deadline's handler runs, after the time has passed or with the error of a cancelled wait
  wait_ends :
      (failed : Bool) (n : ℕ)
      → l.waits ≡ suc n
      → Step p W o l (record l { conn = deadline failed l.conn; waits = n })
  -- the last pointer is gone
  destroyed :
      owners l ≡ 0
      → l.is_destroyed ≡ false
      → Step p W o l (record l { conn = Connection.destroy l.conn; is_destroyed = true })

-- A number of steps, the last one outermost.
pub data Steps {a : Asio} (p : EasyPack) (W : Type 0) (o : ByteOrder) (l : Life a)
    : ℕ → Life a → Type 0 where
  start : Steps p W o l 0 l
  next : {n : ℕ} {m m' : Life a} → Steps p W o l n m → Step p W o m m' → Steps p W o l (suc n) m'

-- Nothing more can happen.
abbrev pub Rests : {a : Asio} (p : EasyPack) (W : Type 0) (o : ByteOrder) → Life a → Type 0
Rests p W o l = (l' : Life _) → ¬ Step p W o l l'
