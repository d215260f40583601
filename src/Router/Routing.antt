-- ===== src/Router/Routing.antt =====
-- What the router does with a request, and which function a queued task runs in the end
-- (easyrpc/server/router.hpp, easyrpc/base/thread_pool.hpp).
use easyrpc.Prelude.{
  ◌≡◌, ◌≢◌, refl, ◌⊎◌, inl, inr, Bool, true, false, some, List, [], ◌∷◌, ◌++◌, Bytes, length, arith,
  if◌then◌else◌, All, Option-cases, Bool-cases,
}
use native.Mathlib.Decide.{ℕ_discrete}
use easyrpc.Prelude.Outcome.{done, waits, fault}
use easyrpc.Header.{ByteOrder, CallMode, raw, non_raw, unnamed}
use easyrpc.Asio.{Asio}
use easyrpc.EasyPack.{EasyPack}
use easyrpc.ThreadPool
use easyrpc.ThreadPool.{ThreadPool, max_task_queue_size}
use easyrpc.Router.{
  Router, Task, Callee, plain_at, raw_at, unbind, is_bind, is_bind_raw, add_task, route_plain,
  route_raw, route, run_plain, run_raw, run_task,
}
use easyrpc.Router.Slots
use easyrpc.Router.Slots.{Slot, SlotMap}
use easyrpc.Router.Slots.Laws.{IsMap, value_of}
use easyrpc.Router.Slots.References.{
  Edit, edits, Spares, deref-find, reference_follows, reference_dangles,
}
use easyrpc.Router.Invoker.{InvokerFunction, InvokerFunctionRaw, Site, invoke, invoke_raw}

abbrev pub task_of : {p : EasyPack} {W C : Type 0} → Slot (InvokerFunction p W) → Bytes → C → Task C
task_of e body conn = record { callee = plain_at e.address; body = body; conn = conn }

abbrev pub raw_task_of : {W C : Type 0} → Slot (InvokerFunctionRaw W) → Bytes → C → Task C
raw_task_of e body conn = record { callee = raw_at e.address; body = body; conn = conn }

module _ {p : EasyPack} {W C : Type 0} where
  -- Whether a function is bound for a mode of call.
  abbrev pub is_bound : CallMode → Bytes → Router p W C → Bool
  is_bound non_raw protocol r = is_bind protocol r
  is_bound raw protocol r = is_bind_raw protocol r
  is_bound (unnamed w) protocol r = false

  -- The pool takes tasks without waiting.
  pub record HasRoom (r : Router p W C) : Type 0 where
    pub running : r.threadpool.is_stopped ≡ false
    pub room : length r.threadpool.task_queue ≢ max_task_queue_size

  abbrev pub enqueue : Task C → Router p W C → Router p W C
  enqueue task r = record r {
    threadpool = record r.threadpool { task_queue = r.threadpool.task_queue ++ task ∷ [] };
  }

  -- The map's elements, in the mode of a call.
  abbrev pub Names : CallMode → Bytes → Router p W C → Callee → Type 0
  Names non_raw protocol r callee =
      (e : Slot (InvokerFunction p W)) × (Slots.find protocol r.invoker_map ≡ some e)
      × (callee ≡ plain_at e.address)
  Names raw protocol r callee =
      (e : Slot (InvokerFunctionRaw W)) × (Slots.find protocol r.invoker_raw_map ≡ some e)
      × (callee ≡ raw_at e.address)
  Names (unnamed w) protocol r callee = ⊥

  add_task-room :
      (task : Task C) (r : Router p W C) → HasRoom r → add_task task r ≡ done (true, enqueue task r)
  unfolding add_task ThreadPool.add_task
  add_task-room task r h = ground arith

  full_or_stopped :
      (r : Router p W C)
      → ¬ HasRoom r
      → (r.threadpool.is_stopped ≡ true)
        ⊎ ((r.threadpool.is_stopped ≡ false)
            × (length r.threadpool.task_queue ≡ max_task_queue_size))
  full_or_stopped r full = elim (Bool-cases r.threadpool.is_stopped) [
    | inl stopped ↦ inl stopped
    | inr runs ↦ elim (ℕ_discrete (length r.threadpool.task_queue) max_task_queue_size) [
      | yes e ↦ inr (runs, e)
      | no ne ↦ absurd (full (record { running = runs; room = ne }))
    ]
  ]

  pub route_found :
      (conn : C) (protocol body : Bytes) (r : Router p W C) (e : Slot (InvokerFunction p W))
      → Slots.find protocol r.invoker_map ≡ some e
      → HasRoom r
      → route conn protocol body non_raw r ≡ done (true, enqueue (task_of e body conn) r)
  unfolding route
  route_found conn protocol body r e found room = rw (found, route_plain) (add_task-room _ r room)

  route_unbound :
      (conn : C) (protocol body : Bytes) (mode : CallMode) (r : Router p W C)
      → is_bound mode protocol r ≡ false
      → route conn protocol body mode r ≡ done (false, r)
  unfolding route is_bind is_bind_raw
  route_unbound conn protocol body raw r h = ground arith
  route_unbound conn protocol body non_raw r h = ground arith
  route_unbound conn protocol body (unnamed w) r h = refl

  -- A request whose name is bound in its mode of call is queued behind all others, with a reference
  -- to the element of that name, if the pool runs and has room.
  pub route_bound :
      (conn : C) (protocol body : Bytes) (mode : CallMode) (r : Router p W C)
      → is_bound mode protocol r ≡ true
      → HasRoom r
      → (callee : Callee) × Names mode protocol r callee
        × (route conn protocol body mode r
            ≡ done (true, enqueue (record { callee = callee; body = body; conn = conn }) r))
  unfolding route is_bind is_bind_raw
  route_bound conn protocol body raw r h room =
      elim (Option-cases (Slots.find protocol r.invoker_raw_map)) [
        | inl e ↦ absurd (cc)
        | inr (x, e) ↦ (raw_at x.address, (x, e, refl), rw (e, route_raw) (add_task-room _ r room))
      ]
  route_bound conn protocol body non_raw r h room =
      elim (Option-cases (Slots.find protocol r.invoker_map)) [
        | inl e ↦ absurd (ground arith)
        | inr (x, e) ↦
            (plain_at x.address, (x, e, refl), rw (e, route_plain) (add_task-room _ r room))
      ]
  route_bound conn protocol body (unnamed w) r h room = cc

  route_without_room :
      (conn : C) (protocol body : Bytes) (mode : CallMode) (r : Router p W C)
      → is_bound mode protocol r ≡ true
      → ¬ HasRoom r
      → route conn protocol body mode r
        ≡ (if r.threadpool.is_stopped then done (true, r) else waits)
  unfolding route is_bind is_bind_raw ThreadPool.add_task
  route_without_room conn protocol body raw r h full = ground (arith, full_or_stopped r full)
  route_without_room conn protocol body non_raw r h full = ground (arith, full_or_stopped r full)
  route_without_room conn protocol body (unnamed w) r h full = cc

  pub route_found_raw :
      (conn : C) (protocol body : Bytes) (r : Router p W C) (e : Slot (InvokerFunctionRaw W))
      → Slots.find protocol r.invoker_raw_map ≡ some e
      → HasRoom r
      → route conn protocol body raw r ≡ done (true, enqueue (raw_task_of e body conn) r)
  unfolding route
  route_found_raw conn protocol body r e found room = rw (found, route_raw) (add_task-room _ r room)

  -- A request that is not queued. If nothing is bound to its name in its mode of call, it is refused
  -- and the router stays as it is; a mode that has no enumerator is always refused. If its name is
  -- bound and the pool has no room, the calling thread waits while the pool runs; once the pool has
  -- stopped, the request is dropped, although it counts as routed.
  pub route_not_queued :
      (conn : C) (protocol body : Bytes) (mode : CallMode) (r : Router p W C)
      → (is_bound mode protocol r ≡ false) ⊎ (¬ HasRoom r)
      → route conn protocol body mode r ≡ (
          if is_bound mode protocol r
          then (if r.threadpool.is_stopped then done (true, r) else waits)
          else done (false, r))
  route_not_queued conn protocol body mode r why = elim (Bool-cases (is_bound mode protocol r)) [
    | inr e ↦ rw e (route_unbound conn protocol body mode r e)
    | inl e ↦ elim why [
      | inl e' ↦ absurd (cc)
      | inr full ↦ rw e (route_without_room conn protocol body mode r e full)
    ]
  ]

-- The router after functions were bound and unbound.
abbrev pub rebound :
    {p : EasyPack} {W C : Type 0} → List (Edit (InvokerFunction p W)) → Router p W C → Router p W C
rebound xs r = record r { invoker_map = edits xs r.invoker_map }

module _ {a : Asio} {p : EasyPack} {W C : Type 0} where
  pub run_task_found :
      (o : ByteOrder) (protocol body : Bytes) (conn : C) (e : Slot (InvokerFunction p W))
      (r : Router p W C) (s : Site a W)
      → IsMap r.invoker_map
      → Slots.find protocol r.invoker_map ≡ some e
      → run_task o (task_of e body conn) r s ≡ done (invoke o e.value body s)
  unfolding run_task
  run_task_found o protocol body conn e r s h f =
      rw (deref-find protocol e r.invoker_map h f, run_plain)

  pub run_task_found_raw :
      (o : ByteOrder) (protocol body : Bytes) (conn : C) (e : Slot (InvokerFunctionRaw W))
      (r : Router p W C) (s : Site a W)
      → IsMap r.invoker_raw_map
      → Slots.find protocol r.invoker_raw_map ≡ some e
      → run_task o (raw_task_of e body conn) r s ≡ done (invoke_raw o e.value body s)
  unfolding run_task
  run_task_found_raw o protocol body conn e r s h f =
      rw (deref-find protocol e r.invoker_raw_map h f, run_raw)

  -- A task that was queued for a name runs the function that is bound to the name when a worker
  -- takes it, whatever was bound or unbound in between, as long as the name itself was not unbound.
  -- This need not be the function that was bound when the request came.
  pub queued_task_runs :
      (o : ByteOrder) (protocol body : Bytes) (conn : C) (e : Slot (InvokerFunction p W))
      (r : Router p W C) (xs : List (Edit (InvokerFunction p W))) (s : Site a W)
      → IsMap r.invoker_map
      → Slots.find protocol r.invoker_map ≡ some e
      → All (Spares protocol) xs
      → (inv : InvokerFunction p W) × (value_of protocol (rebound xs r).invoker_map ≡ some inv)
        × (run_task o (task_of e body conn) (rebound xs r) s ≡ done (invoke o inv body s))
  unfolding run_task
  queued_task_runs o protocol body conn e r xs s h f spared =
      let (inv, read, now) = reference_follows protocol e r.invoker_map xs h f spared in
      (inv, now, rw (read, run_plain))

  -- A task that was queued for a name reads freed memory if the name is unbound before a worker
  -- takes it, whatever is bound or unbound after that, the same name included.
  pub queued_task_dangles :
      (o : ByteOrder) (protocol body : Bytes) (conn : C) (e : Slot (InvokerFunction p W))
      (r : Router p W C) (xs : List (Edit (InvokerFunction p W))) (s : Site a W)
      → IsMap r.invoker_map
      → Slots.find protocol r.invoker_map ≡ some e
      → run_task o (task_of e body conn) (rebound xs (unbind protocol r)) s ≡ fault
  unfolding run_task unbind
  queued_task_dangles o protocol body conn e r xs s h f =
      rw (reference_dangles protocol e r.invoker_map xs h f, run_plain)
