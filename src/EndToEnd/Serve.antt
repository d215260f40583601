-- ===== src/EndToEnd/Serve.antt =====
-- One request at a server: both parts come, and a worker does a round (easyrpc/server/connection.hpp,
-- easyrpc/server/router.hpp, easyrpc/base/thread_pool.hpp).
use easyrpc.Prelude.{
  ◌+◌, ◌<◌, ◌≤◌, ◌≡◌, ap, ◌∙◌, true, none, some, List, [], ◌∷◌, ◌++◌, Bytes, length,
}
use easyrpc.Prelude.Exec.{Exec, Result, ok}
use easyrpc.Prelude.Outcome.{Outcome, done, waits, ◌>>=◌}
use easyrpc.Header.{ByteOrder, raw, non_raw, max_buffer_len, request_bytes}
use easyrpc.Asio.{in_memory, Asio}
use easyrpc.EasyPack.{EasyPack, Yields}
use easyrpc.Connection
use easyrpc.Connection.{Connection, on_head, on_body}
use easyrpc.ThreadPool
use easyrpc.ThreadPool.Queue.{run_task-takes}
use easyrpc.ThreadPool.{ThreadPool, Round, takes, exits}
use easyrpc.Router.{Router, Task, route, run_task}
use easyrpc.Router.Slots
use easyrpc.Router.Slots.{Slot}
use easyrpc.Router.Slots.Laws.{IsMap}
use easyrpc.Router.Routing.{
  HasRoom, enqueue, task_of, raw_task_of, route_found, route_found_raw, run_task_found,
  run_task_found_raw,
}
use easyrpc.Router.Invoker.{
  value_function, InvokerFunction, Site, InvokerFunctionRaw, invoke, invoke_raw,
}
use easyrpc.Router.Invoker.Invoke.{bound, invoke_value}
use easyrpc.RpcSession.Exchange.{request_head, response_head}
use easyrpc.EndToEnd.{received, received_lem, socket-body_read}

module _ {a : Asio} {p : EasyPack} {W C : Type 0} where
  -- The task of a round that took one, run on the connection of the request.
  run_round :
      ByteOrder
      → Connection a
      → W
      → Router p W C
      → Round (Task C)
      → Outcome (Result (Unit {0}) × Site a W)
  run_round o conn w r exits = waits
  run_round o conn w r (takes task pool) =
      run_task o task (record r { threadpool = pool }) (record { conn = conn; world = w })

  -- The handlers of a connection on the two parts of a request, and then a worker's round.
  pub serve :
      ByteOrder
      → C
      → Bytes
      → Bytes
      → Connection a
      → Router p W C
      → W
      → Outcome (Result (Unit {0}) × Site a W)
  unfolding run_round
  serve o self head rest c r w =
      on_body (route self) none rest (on_head o none head c) r >>= λ (c', r').
      ThreadPool.run_task r'.threadpool >>= λ round. run_round o c' w r' round

  -- A worker's round takes the task that was just queued, if no other was.
  run_round-enqueue :
      (o : ByteOrder) (task : Task C) (c : Connection a) (w : W) (r : Router p W C)
      (end_ : Result (Unit {0}) × Site a W)
      → HasRoom r
      → r.threadpool.task_queue ≡ []
      → run_task o task
          (record (enqueue task r) {
            threadpool = record (enqueue task r).threadpool { task_queue = [] };
          })
          (record { conn = c; world = w })
        ≡ done end_
      → (ThreadPool.run_task (enqueue task r).threadpool >>= λ round.
          run_round o c w (enqueue task r) round)
        ≡ done end_
  unfolding run_round
  run_round-enqueue o task c w r end_ room idle ran =
      rw
        (run_task-takes (enqueue task r).threadpool task [] room.running
          (ap (λ q. q ++ task ∷ []) idle))
        ran

  -- A request that fits and whose name is bound ends as the invoker of its name ends.
  pub serve_invokes :
      (o : ByteOrder) (self : C) (name text : Bytes) (c : Connection a) (r : Router p W C)
      (e : Slot (InvokerFunction p W)) (w : W)
      → IsMap r.invoker_map
      → Slots.find name r.invoker_map ≡ some e
      → HasRoom r
      → r.threadpool.task_queue ≡ []
      → a.is_open c.socket ≡ true
      → 0 < length name + length text
      → length name + length text < max_buffer_len
      → serve o self (request_bytes o (request_head name non_raw text)) (name ++ text) c r w
        ≡ done (
            invoke o e.value text (record {
              conn = received o (request_head name non_raw text) (name ++ text) c;
              world = w;
            }))
  unfolding serve
  serve_invokes o self name text c r e w map found room idle open_ lo hi =
      rw
        (received_lem o self name text non_raw c r (enqueue (task_of e text self) r) tt open_ lo hi
          (route_found self name text r e found room))
        (run_round-enqueue o (task_of e text self) _ w r _ room idle
          (run_task_found o name text self e _ _ map found))

  -- The same for a raw request.
  pub serve_invokes_raw :
      (o : ByteOrder) (self : C) (name text : Bytes) (c : Connection a) (r : Router p W C)
      (e : Slot (InvokerFunctionRaw W)) (w : W)
      → IsMap r.invoker_raw_map
      → Slots.find name r.invoker_raw_map ≡ some e
      → HasRoom r
      → r.threadpool.task_queue ≡ []
      → a.is_open c.socket ≡ true
      → 0 < length name + length text
      → length name + length text < max_buffer_len
      → serve o self (request_bytes o (request_head name raw text)) (name ++ text) c r w
        ≡ done (
            invoke_raw o e.value text (record {
              conn = received o (request_head name raw text) (name ++ text) c;
              world = w;
            }))
  unfolding serve
  serve_invokes_raw o self name text c r e w map found room idle open_ lo hi =
      rw
        (received_lem o self name text raw c r (enqueue (raw_task_of e text self) r) tt open_ lo hi
          (route_found_raw self name text r e found room))
        (run_round-enqueue o (raw_task_of e text self) _ w r _ room idle
          (run_task_found_raw o name text self e _ _ map found))

  -- A call, seen from the server: a worker reads the arguments, runs the bound function, and sends
  -- its packed result; the function's effects stand, and the connection has changed in nothing but
  -- its socket, its buffers and its deadline.
  pub serve_lem :
      (o : ByteOrder) (self : C) (name text bytes : Bytes) (tys : List p.Ty)
      (fn : List p.Value → Exec W p.Value) (args : List p.Value) (reader : p.Unpacker) (v : p.Value)
      (c : Connection a) (r : Router p W C) (e : Slot (InvokerFunction p W)) (w w' : W)
      (k : a.Socket)
      → IsMap r.invoker_map
      → Slots.find name r.invoker_map ≡ some e
      → e.value ≡ bound (value_function tys fn)
      → HasRoom r
      → r.threadpool.task_queue ≡ []
      → a.is_open c.socket ≡ true
      → 0 < length name + length text
      → length name + length text < max_buffer_len
      → p.unpack text ≡ ok reader
      → Yields p reader tys args
      → fn args w ≡ (ok v, w')
      → p.pack_args (v ∷ []) ≡ ok bytes
      → length bytes ≤ max_buffer_len
      → a.write (in_memory a (Connection.get_buffer o (response_head bytes) bytes)) c.socket
        ≡ (none, k)
      → serve o self (request_bytes o (request_head name non_raw text)) (name ++ text) c r w
        ≡ done (
          ok tt,
          record {
            conn = record (received o (request_head name non_raw text) (name ++ text) c) {
              socket = k;
            };
            world = w';
          },
        )
  serve_lem o self name text bytes tys fn args reader v c r e w w' k map found is_fn room idle open_
        lo hi opened y ran packed small wrote =
      serve_invokes o self name text c r e w map found room idle open_ lo hi
      ∙ ap done (
          rw is_fn (
            invoke_value p o tys fn args text bytes reader v w' _ k opened y ran packed small
              (rw socket-body_read wrote)))
