-- ===== src/EndToEnd/Interleaved.antt =====
-- Requests that come while workers run others, and functions that are bound meanwhile: the io
-- threads, the workers and the program in any order (easyrpc/server/connection.hpp,
-- easyrpc/server/router.hpp, easyrpc/base/thread_pool.hpp).
pub mod Picks
pub mod Schedule
pub mod Plans
pub mod Changes
pub mod Steps
pub mod Fifo
pub mod Rounds
pub mod Drained
pub mod Served
use easyrpc.Prelude.{
  ℕ, ◌+◌, Option, none, some, List, [], ◌∷◌, ◌++◌, Bytes, ltb, length, if◌then◌else◌,
}
use easyrpc.EndToEnd.Interleaved.Picks.{pick}
use easyrpc.Prelude.Outcome.{Outcome, done, waits, fault, ◌>>=◌}
use easyrpc.Header.{ByteOrder, CallMode, request_bytes}
use easyrpc.Asio.{Asio}
use easyrpc.EasyPack.{EasyPack}
use easyrpc.Connection.{Connection, on_head, on_body}
use easyrpc.ThreadPool
use easyrpc.ThreadPool.{ThreadPool, Round, exits, takes}
use easyrpc.Router.{Router, Task, route, run_task, bind, unbind, bind_raw, unbind_raw}
use easyrpc.Router.Invoker.{Function, RawFunction}
use easyrpc.RpcSession.Exchange.{request_head}
use easyrpc.EndToEnd.Sequence.{Request, End}

-- A request, plain or raw, with the shared pointer to its connection.
pub record Arrival (a : Asio) (C : Type 0) : Type 0 where
  pub self : C
  pub mode : CallMode
  pub request : Request a

-- How the program changes what is bound.
pub data Change (p : EasyPack) (W : Type 0) : Type 0 where
  binds : Bytes → Function p W → Change p W
  unbinds : Bytes → Change p W
  binds_raw : Bytes → RawFunction W → Change p W
  unbinds_raw : Bytes → Change p W

-- What happens next at the server: both parts of a request come, and the handlers of its connection
-- run; or a worker that has no task takes one, under the lock; or the worker that has the task at an
-- index is done with it, when the pointers lead to these connections; or the program changes what is
-- bound. Between the two events of its task a worker runs without the lock, while anything else
-- happens; what the task does to its connection and to the user's objects is done at its end. Each
-- event brings the connections as they are by then, since deadlines and peers change them in between.
pub data Event (a : Asio) (p : EasyPack) (W C : Type 0) : Type 0 where
  arrives : Arrival a C → Event a p W C
  begins : Event a p W C
  finishes : ℕ → (C → Connection a) → Event a p W C
  changes : Change p W → Event a p W C

-- The router, the tasks that workers have taken and are not done with, and the user's objects.
pub record Running (p : EasyPack) (W C : Type 0) : Type 0 where
  pub router : Router p W C
  pub held : List (Task C)
  pub world : W

module _ {p : EasyPack} {W C : Type 0} where
  unfoldable pub change : Change p W → Router p W C → Router p W C
  change (binds name f) r = bind name f r
  change (unbinds name) r = unbind name r
  change (binds_raw name f) r = bind_raw name f r
  change (unbinds_raw name) r = unbind_raw name r

module _ {a : Asio} {p : EasyPack} {W C : Type 0} where
  -- The locked part of a worker's round. A worker that finds no task sleeps, and changes nothing.
  pub take_round : Running p W C → Outcome (Round (Task C)) → Outcome (List (End a) × Running p W C)
  take_round s (done (takes task pool)) = done (
    [],
    record {
      router = record s.router { threadpool = pool };
      held = s.held ++ task ∷ [];
      world = s.world;
    },
  )
  take_round s (done exits) = done ([], s)
  take_round s waits = done ([], s)
  take_round s fault = fault

  -- The task that is picked is run, with what is bound by then.
  pub finish_round :
      ByteOrder
      → (C → Connection a)
      → Running p W C
      → Option (Task C × List (Task C))
      → Outcome (List (End a) × Running p W C)
  finish_round o conns s none = done ([], s)
  finish_round o conns s (some (task, others)) =
      run_task o task s.router (record { conn = conns task.conn; world = s.world })
      >>= λ (result, site). done (
        (result, site.conn) ∷ [],
        record { router = s.router; held = others; world = site.world },
      )

  -- The tasks that ended, and what is left. If every worker has a task, none takes another.
  pub step : ByteOrder → Event a p W C → Running p W C → Outcome (List (End a) × Running p W C)
  unfolding take_round finish_round
  step o (arrives x) s =
      let q = x.request in
      on_body (route x.self) none (q.name ++ q.text)
        (on_head o none (request_bytes o (request_head q.name x.mode q.text)) q.conn) s.router
      >>= λ (conn, r). done ([], record s { router = r })
  step o begins s =
      if ltb (length s.held) s.router.threadpool.threads
      then take_round s (ThreadPool.run_task s.router.threadpool)
      else done ([], s)
  step o (finishes i conns) s = finish_round o conns s (pick i s.held)
  step o (changes x) s = done ([], record s { router = change x s.router })

  pub steps :
      ByteOrder → List (Event a p W C) → Running p W C → Outcome (List (End a) × Running p W C)
  unfolding step
  steps o [] s = done ([], s)
  steps o (x ∷ xs) s =
      step o x s >>= λ (es, s'). steps o xs s' >>= λ (es', s''). done (es ++ es', s'')
