-- ===== src/EndToEnd/Interleaved/Schedule.antt =====
-- What the server promises, without buffers, tasks and references: requests are taken first come,
-- first served, and each is called once (easyrpc/server/router.hpp, easyrpc/base/thread_pool.hpp).
use easyrpc.Prelude.{
  ℕ, ◌<◌, ◌≡◌, ◌+◌, ◌≢◌, true, false, Option, none, some, List, [], ◌∷◌, ◌++◌, Bytes, length, map,
  All, ltb,
}
use easyrpc.Prelude.Exec.{Result}
use easyrpc.Prelude.Outcome.{Outcome, done, fault, ◌>>=◌}
use easyrpc.Header.{ByteOrder, CallMode, raw, non_raw, unnamed, max_buffer_len}
use easyrpc.Asio.{Asio}
use easyrpc.EasyPack.{EasyPack}
use easyrpc.Connection.{Connection}
use easyrpc.ThreadPool.{max_task_queue_size}
use easyrpc.Router.{Router, Task, Callee, plain_at, raw_at}
use easyrpc.Router.Slots
use easyrpc.Router.Slots.{Slot}
use easyrpc.Router.Invoker.{InvokerFunction, InvokerFunctionRaw, Site, invoke, invoke_raw}
use easyrpc.EndToEnd.Sequence.{End}
use easyrpc.EndToEnd.Interleaved.Picks.{pick}
use easyrpc.EndToEnd.Interleaved.{
  Arrival, Change, binds, unbinds, binds_raw, unbinds_raw, Running, Event, arrives, begins,
  finishes, changes, change,
}

module _ {a : Asio} {p : EasyPack} {W C : Type 0} where
  unfoldable pub arrivals : List (Event a p W C) → List (Arrival a C)
  arrivals [] = []
  arrivals (arrives x ∷ xs) = x ∷ arrivals xs
  arrivals (begins ∷ xs) = arrivals xs
  arrivals (finishes i conns ∷ xs) = arrivals xs
  arrivals (changes x ∷ xs) = arrivals xs

  -- What is bound in the end.
  unfoldable pub rebind : List (Event a p W C) → Router p W C → Router p W C
  rebind [] r = r
  rebind (arrives x ∷ xs) r = rebind xs r
  rebind (begins ∷ xs) r = rebind xs r
  rebind (finishes i conns ∷ xs) r = rebind xs r
  rebind (changes x ∷ xs) r = rebind xs (change x r)

-- A request that is called, with its connection, and the router, which says what is bound then.
pub record Called (a : Asio) (p : EasyPack) (W C : Type 0) : Type 0 where
  pub arrival : Arrival a C
  pub conn : Connection a
  pub router : Router p W C

-- What the workers do: the requests in the order in which they are taken, and in the order in which
-- their calls end, those that still wait, and those that are taken and still run.
pub record Plan (a : Asio) (p : EasyPack) (W C : Type 0) : Type 0 where
  pub taken : List (Arrival a C)
  pub called : List (Called a p W C)
  pub left : List (Arrival a C)
  pub running : List (Arrival a C)

module _ {p : EasyPack} {W C : Type 0} where
  -- The name is bound, for the mode of call.
  abbrev pub BoundIn : CallMode → Bytes → Router p W C → Type 0
  BoundIn non_raw name r =
      (e : Slot (InvokerFunction p W)) × (Slots.find name r.invoker_map ≡ some e)
  BoundIn raw name r =
      (e : Slot (InvokerFunctionRaw W)) × (Slots.find name r.invoker_raw_map ≡ some e)
  BoundIn (unnamed w) name r = ⊥

-- A condition on one mode of call.
abbrev pub WhenPlain : CallMode → Type 0 → Type 0
WhenPlain non_raw P = P
WhenPlain raw P = Unit
WhenPlain (unnamed w) P = Unit

abbrev pub WhenRaw : CallMode → Type 0 → Type 0
WhenRaw non_raw P = Unit
WhenRaw raw P = P
WhenRaw (unnamed w) P = Unit

-- A change that does not unbind a name, for the mode of call.
abbrev pub Spared : {p : EasyPack} {W : Type 0} → Change p W → CallMode → Bytes → Type 0
Spared (binds name f) mode n = Unit
Spared (unbinds name) mode n = WhenPlain mode (name ≢ n)
Spared (binds_raw name f) mode n = Unit
Spared (unbinds_raw name) mode n = WhenRaw mode (name ≢ n)

-- A change that does not write a name at all, for the mode of call.
abbrev pub Untouched : {p : EasyPack} {W : Type 0} → Change p W → CallMode → Bytes → Type 0
Untouched (binds name f) mode n = WhenPlain mode (name ≢ n)
Untouched (unbinds name) mode n = WhenPlain mode (name ≢ n)
Untouched (binds_raw name f) mode n = WhenRaw mode (name ≢ n)
Untouched (unbinds_raw name) mode n = WhenRaw mode (name ≢ n)

module _ {a : Asio} {p : EasyPack} {W C : Type 0} where
  -- A request that fits: its name is bound, its size is within the limits, and its connection is open.
  pub record Fits (r : Router p W C) (x : Arrival a C) : Type 0 where
    pub is_bound : BoundIn x.mode x.request.name r
    pub is_open : a.is_open x.request.conn.socket ≡ true
    pub some_bytes : 0 < length x.request.name + length x.request.text
    pub few_bytes : length x.request.name + length x.request.text < max_buffer_len

  -- From the requests that run and those that wait.
  unfoldable pub schedule :
      Router p W C → List (Arrival a C) → List (Arrival a C) → List (Event a p W C) → Plan a p W C
  schedule r hs qs [] = record { taken = []; called = []; left = qs; running = hs }
  schedule r hs qs (arrives x ∷ xs) = schedule r hs (qs ++ x ∷ []) xs
  schedule r hs qs (changes x ∷ xs) = schedule (change x r) hs qs xs
  schedule r hs [] (begins ∷ xs) = schedule r hs [] xs
  schedule r hs (q ∷ qs) (begins ∷ xs) = elim (ltb (length hs) r.threadpool.threads) [
    | true ↦ let plan = schedule r (hs ++ q ∷ []) qs xs in record plan { taken = q ∷ plan.taken }
    | false ↦ schedule r hs (q ∷ qs) xs
  ]
  schedule r hs qs (finishes i conns ∷ xs) = elim (pick i hs) [
    | none ↦ schedule r hs qs xs
    | some (h, others) ↦
        let plan = schedule r others qs xs in
        record plan {
          called = record { arrival = h; conn = conns h.self; router = r } ∷ plan.called;
        }
  ]

  -- Each request fits when it comes, never more requests wait than the pool has room for, no name is
  -- unbound while a request for it waits, and what is bound to a name is neither unbound nor replaced
  -- while a request for it runs.
  unfoldable pub Admits :
      Router p W C → List (Arrival a C) → List (Arrival a C) → List (Event a p W C) → Type 0
  Admits r hs qs [] = Unit
  Admits r hs qs (arrives x ∷ xs) =
      Fits r x × (length qs < max_task_queue_size) × Admits r hs (qs ++ x ∷ []) xs
  Admits r hs qs (changes x ∷ xs) =
      All (λ h. Untouched x h.mode h.request.name) hs
      × All (λ q. Spared x q.mode q.request.name) qs
      × Admits (change x r) hs qs xs
  Admits r hs [] (begins ∷ xs) = Admits r hs [] xs
  Admits r hs (q ∷ qs) (begins ∷ xs) = elim (ltb (length hs) r.threadpool.threads) [
    | true ↦ Admits r (hs ++ q ∷ []) qs xs
    | false ↦ Admits r hs (q ∷ qs) xs
  ]
  Admits r hs qs (finishes i conns ∷ xs) = elim (pick i hs) [
    | none ↦ Admits r hs qs xs
    | some (h, others) ↦ Admits r others qs xs
  ]

unfoldable pub address_of : {V : Type 0} → Option (Slot V) → ℕ
address_of none = 0
address_of (some e) = e.address

-- The invoker of a name called at once, if there is one.
module _ {a : Asio} {p : EasyPack} {W : Type 0} where
  unfoldable pub call_plain :
      ByteOrder
      → Option (Slot (InvokerFunction p W))
      → Bytes
      → Site a W
      → Outcome (Result (Unit {0}) × Site a W)
  call_plain o none text s = fault
  call_plain o (some e) text s = done (invoke o e.value text s)

module _ {a : Asio} {W : Type 0} where
  unfoldable pub call_raw :
      ByteOrder
      → Option (Slot (InvokerFunctionRaw W))
      → Bytes
      → Site a W
      → Outcome (Result (Unit {0}) × Site a W)
  call_raw o none text s = fault
  call_raw o (some e) text s = done (invoke_raw o e.value text s)

module _ {a : Asio} {p : EasyPack} {W C : Type 0} where
  unfoldable pub call_in :
      ByteOrder
      → CallMode
      → Bytes
      → Bytes
      → Router p W C
      → Site a W
      → Outcome (Result (Unit {0}) × Site a W)
  unfolding call_plain call_raw
  call_in o non_raw name text r s = call_plain o (Slots.find name r.invoker_map) text s
  call_in o raw name text r s = call_raw o (Slots.find name r.invoker_raw_map) text s
  call_in o (unnamed w) name text r s = fault

  -- The requests called at once, in this order, each with its connection.
  unfoldable pub calls : ByteOrder → List (Called a p W C) → W → Outcome (List (End a) × W)
  unfolding call_in
  calls o [] w = done ([], w)
  calls o (x ∷ xs) w =
      let q = x.arrival.request in
      call_in o x.arrival.mode q.name q.text x.router (record { conn = x.conn; world = w })
      >>= λ (result, site).
          calls o xs site.world >>= λ (es, w'). done ((result, site.conn) ∷ es, w')

module _ {p : EasyPack} {W C : Type 0} where
  unfoldable pub callee_of : CallMode → Bytes → Router p W C → Callee
  unfolding address_of
  callee_of non_raw name r = plain_at (address_of (Slots.find name r.invoker_map))
  callee_of raw name r = raw_at (address_of (Slots.find name r.invoker_raw_map))
  callee_of (unnamed w) name r = plain_at 0

module _ {a : Asio} {p : EasyPack} {W C : Type 0} where
  abbrev pub queued : Router p W C → Arrival a C → Task C
  queued r x = record {
    callee = callee_of x.mode x.request.name r;
    body = x.request.text;
    conn = x.self;
  }

  -- The tasks that workers have, and the router while requests wait.
  abbrev pub tasks : List (Arrival a C) → Router p W C → List (Task C)
  tasks hs r = map (queued r) hs

  abbrev pub waiting : List (Arrival a C) → Router p W C → Router p W C
  waiting qs r = record r { threadpool = record r.threadpool { task_queue = map (queued r) qs } }

  -- The server while requests run and wait.
  abbrev pub serving : List (Arrival a C) → List (Arrival a C) → Router p W C → W → Running p W C
  serving hs qs r w = record { router = waiting qs r; held = tasks hs r; world = w }
