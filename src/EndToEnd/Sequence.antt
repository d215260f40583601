-- ===== src/EndToEnd/Sequence.antt =====
-- Requests that a server answers one after the other (easyrpc/server/connection.hpp,
-- easyrpc/server/router.hpp, easyrpc/base/thread_pool.hpp).
use easyrpc.Prelude.{
  ◌+◌, ◌<◌, ◌≡◌, refl, ap, sym, ◌∙◌, true, Option, none, some, List, [], ◌∷◌, ◌++◌, Bytes, length,
  All,
}
use easyrpc.Prelude.Exec.{Result}
use easyrpc.Prelude.Outcome.{Outcome, done, waits, fault, ◌>>=◌}
use easyrpc.Header.{ByteOrder, non_raw, max_buffer_len, request_bytes}
use easyrpc.Asio.{Asio}
use easyrpc.EasyPack.{EasyPack}
use easyrpc.Connection.{Connection, on_head, on_body}
use easyrpc.ThreadPool
use easyrpc.ThreadPool.{ThreadPool, Round, exits, takes}
use easyrpc.ThreadPool.Queue.{run_task-takes}
use easyrpc.Router.{Router, Task, route, run_task}
use easyrpc.Router.Slots
use easyrpc.Router.Slots.{Slot}
use easyrpc.Router.Slots.Laws.{IsMap}
use easyrpc.Router.Routing.{HasRoom, enqueue, task_of, route_found, run_task_found}
use easyrpc.Router.Invoker.{InvokerFunction, invoke}
use easyrpc.RpcSession.Exchange.{request_head}
use easyrpc.EndToEnd.{received, received_lem}

-- A request, and the connection that it comes on.
pub record Request (a : Asio) : Type 0 where
  pub name : Bytes
  pub text : Bytes
  pub conn : Connection a

-- How a task ended, and its connection then.
abbrev pub End : Asio → Type 0
End a = Result (Unit {0}) × Connection a

module _ {a : Asio} {p : EasyPack} {W : Type 0} where
  -- The invoker that a name is bound to, called at once.
  call_one : ByteOrder → Request a → Option (Slot (InvokerFunction p W)) → W → Outcome (End a × W)
  call_one o q none w = fault
  call_one o q (some e) w =
      let (result, site) = invoke o e.value q.text (record {
        conn = received o (request_head q.name non_raw q.text) (q.name ++ q.text) q.conn;
        world = w;
      }) in
      done ((result, site.conn), site.world)

module _ {p : EasyPack} {W C : Type 0} where
  -- The router once the task was taken is the router before the request.
  taken_back :
      (task : Task C) (r : Router p W C)
      → r.threadpool.task_queue ≡ []
      → record (enqueue task r) {
        threadpool = record (enqueue task r).threadpool { task_queue = [] };
      }
        ≡ r
  taken_back task r idle =
      ap (λ q. record r { threadpool = record r.threadpool { task_queue = q } }) (sym idle)

module _ {a : Asio} {p : EasyPack} {W C : Type 0} where
  -- The task that a round took, and the router once the round took it.
  finish_round :
      ByteOrder
      → Connection a
      → W
      → Router p W C
      → Round (Task C)
      → Outcome (End a × W × Router p W C)
  finish_round o conn w r exits = waits
  finish_round o conn w r (takes task pool) =
      run_task o task (record r { threadpool = pool }) (record { conn = conn; world = w })
      >>= λ (result, site). done ((result, site.conn), site.world, record r { threadpool = pool })

  -- Both handlers of a connection, and then a worker's round.
  answer_one : ByteOrder → C → Request a → Router p W C → W → Outcome (End a × W × Router p W C)
  unfolding finish_round
  answer_one o self q r w =
      on_body (route self) none (q.name ++ q.text)
        (on_head o none (request_bytes o (request_head q.name non_raw q.text)) q.conn) r
      >>= λ (conn, r').
          ThreadPool.run_task r'.threadpool >>= λ round. finish_round o conn w r' round

  -- The requests in turn, each on what the ones before it have left.
  answer_all :
      ByteOrder
      → C
      → List (Request a)
      → Router p W C
      → W
      → Outcome (List (End a) × W × Router p W C)
  unfolding answer_one
  answer_all o self [] r w = done ([], w, r)
  answer_all o self (q ∷ qs) r w = answer_one o self q r w >>= λ (e, w', r').
      answer_all o self qs r' w' >>= λ (es, w'', r''). done (e ∷ es, w'', r'')

  call_all : ByteOrder → List (Request a) → Router p W C → W → Outcome (List (End a) × W)
  unfolding call_one
  call_all o [] r w = done ([], w)
  call_all o (q ∷ qs) r w = call_one o q (Slots.find q.name r.invoker_map) w >>= λ (e, w').
      call_all o qs r w' >>= λ (es, w''). done (e ∷ es, w'')

  -- A request that fits, to a name that is bound, on an open connection.
  pub record Fits (r : Router p W C) (q : Request a) : Type 0 where
    pub slot : Slot (InvokerFunction p W)
    pub found : Slots.find q.name r.invoker_map ≡ some slot
    pub is_open : a.is_open q.conn.socket ≡ true
    pub some_bytes : 0 < length q.name + length q.text
    pub few_bytes : length q.name + length q.text < max_buffer_len

  finish_round-found :
      (o : ByteOrder) (name text : Bytes) (self : C) (conn : Connection a) (w : W)
      (r : Router p W C) (pool : ThreadPool (Task C)) (e : Slot (InvokerFunction p W))
      → IsMap r.invoker_map
      → Slots.find name r.invoker_map ≡ some e
      → finish_round o conn w r (takes (task_of e text self) pool) ≡ (
          let (result, site) = invoke o e.value text (record { conn = conn; world = w }) in
          done ((result, site.conn), site.world, record r { threadpool = pool }))
  unfolding finish_round
  finish_round-found o name text self conn w r pool e v found = rw (
      run_task_found o name text self e (record r { threadpool = pool })
        (record { conn = conn; world = w }) v found)

  answer_one-Fits :
      (o : ByteOrder) (self : C) (q : Request a) (r : Router p W C) (w : W)
      → IsMap r.invoker_map
      → HasRoom r
      → r.threadpool.task_queue ≡ []
      → Fits r q
      → answer_one o self q r w
        ≡ (call_one o q (Slots.find q.name r.invoker_map) w >>= λ (e, w'). done (e, w', r))
  unfolding answer_one call_one
  answer_one-Fits o self q r w v room idle h =
      let task = task_of h.slot q.text self in
      rw
        (
          received_lem o self q.name q.text non_raw q.conn r (enqueue task r) tt h.is_open
              h.some_bytes h.few_bytes (route_found self q.name q.text r h.slot h.found room),
          run_task-takes (enqueue task r).threadpool task [] room.running
              (ap (λ queue. queue ++ task ∷ []) idle),
          h.found,
        )
        (finish_round-found o q.name q.text self
            (received o (request_head q.name non_raw q.text) (q.name ++ q.text) q.conn) w
            (enqueue task r) (record r.threadpool { task_queue = [] }) h.slot v h.found
          ∙ rw (taken_back task r idle))

  -- The requests come one after the other, each to a name that is bound, with at least one byte and
  -- less than `max_buffer_len`, and on a connection that is open; the map of handlers is well
  -- formed, and the pool runs, has room and is idle when the first one comes. Then every request is
  -- answered: the tasks end as the invokers of their names end, called at once and in this order,
  -- each on what the ones before it have made of the user's objects; and the router is in the end
  -- what it was.
  answer_all-call_all :
      (o : ByteOrder) (self : C) (qs : List (Request a)) (r : Router p W C) (w : W)
      → IsMap r.invoker_map
      → HasRoom r
      → r.threadpool.task_queue ≡ []
      → All (Fits r) qs
      → (ends : List (End a)) × (w' : W) × (call_all o qs r w ≡ done (ends, w'))
        × (answer_all o self qs r w ≡ done (ends, w', r))
  unfolding answer_all call_all call_one
  answer_all-call_all o self [] r w v room idle hs = ([], w, refl, refl)
  answer_all-call_all o self (q ∷ qs) r w v room idle (h, hs) =
      let (result, site) = invoke o h.slot.value q.text (record {
        conn = received o (request_head q.name non_raw q.text) (q.name ++ q.text) q.conn;
        world = w;
      }) in
      let (ends, w', called, answered) =
        answer_all-call_all o self qs r site.world v room idle hs in
      (
        (result, site.conn) ∷ ends,
        w',
        rw (h.found, called),
        rw (answer_one-Fits o self q r w v room idle h, h.found, answered),
      )
