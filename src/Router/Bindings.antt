-- ===== src/Router/Bindings.antt =====
-- A router after a program has bound its functions and started its workers
-- (easyrpc/server/router.hpp, easyrpc/server/server.hpp).
use easyrpc.Prelude.{
  ◌<◌, ◌≤◌, ◌+◌, ℕ, ◌≡◌, refl, ap, sym, ◌∙◌, inl, inr, false, Option, none, some, List, [], ◌∷◌,
  Bytes, bytes_eq, length, arith, if◌then◌else◌, Option-cases, Bool-cases,
}
use easyrpc.ThreadPool.{max_thread_size, max_task_queue_size}
use mathlib.Core.Option
use easyrpc.EasyPack.{EasyPack}
use easyrpc.ThreadPool
use easyrpc.Router
use easyrpc.Router.{Router}
use easyrpc.Router.Slots
use easyrpc.Router.Slots.{Slot, SlotMap}
use easyrpc.Router.Slots.Laws.{IsMap, value_of, value_of-assign, assign-IsMap}
use easyrpc.Router.Routing.{HasRoom}
use easyrpc.Router.Invoker.{Function, InvokerFunction}
use easyrpc.Router.Invoker.Invoke.{bound}

module _ {p : EasyPack} {W : Type 0} where
  -- The function that is bound to a name by the last of some calls of `bind` that names it.
  abbrev pub last_bound : Bytes → List (Bytes × Function p W) → Option (Function p W)
  last_bound name [] = none
  last_bound name ((n, f) ∷ bs) = elim (last_bound name bs) [
    | some g ↦ some g
    | none ↦ if bytes_eq n name then some f else none
  ]

  -- What a name is bound to.
  after_binds : Option (Function p W) → Option (InvokerFunction p W) → Option (InvokerFunction p W)
  after_binds none before = before
  after_binds (some f) before = some (bound f)

  value_of-some :
      (name : Bytes) (m : SlotMap (InvokerFunction p W)) (v : InvokerFunction p W)
      → value_of name m ≡ some v
      → (e : Slot (InvokerFunction p W)) × (Slots.find name m ≡ some e) × (e.value ≡ v)
  value_of-some name m v h = elim (Option-cases (Slots.find name m)) [
    | inl e ↦ absurd (cc (sym (ap (Option.map (λ e. e.value)) e) ∙ h))
    | inr (slot, e) ↦ (slot, e, cc (sym (ap (Option.map (λ e. e.value)) e) ∙ h))
  ]

module _ {p : EasyPack} {W C : Type 0} where
  -- Calls of `bind`, one after the other.
  pub bind_all : List (Bytes × Function p W) → Router p W C → Router p W C
  bind_all [] r = r
  bind_all ((n, f) ∷ bs) r = bind_all bs (Router.bind n f r)

  -- The router after these calls, with its workers started.
  abbrev pub program : ℕ → List (Bytes × Function p W) → Router p W C
  program num bs = (Router.multithreaded num (bind_all bs Router.create)).1

  bind_all-IsMap :
      (bs : List (Bytes × Function p W)) (r : Router p W C)
      → IsMap r.invoker_map
      → IsMap (bind_all bs r).invoker_map × ((bind_all bs r).threadpool ≡ r.threadpool)
  unfolding bind_all Router.bind Router.bind_non_member_func
  bind_all-IsMap [] r v = (v, refl)
  bind_all-IsMap ((n, f) ∷ bs) r v =
      bind_all-IsMap bs (Router.bind n f r) (assign-IsMap n (bound f) r.invoker_map v)

  bind_all-value :
      (name : Bytes) (bs : List (Bytes × Function p W)) (r : Router p W C)
      → value_of name (bind_all bs r).invoker_map
        ≡ after_binds (last_bound name bs) (value_of name r.invoker_map)
  unfolding bind_all Router.bind Router.bind_non_member_func after_binds
  bind_all-value name [] r = refl
  bind_all-value name ((n, f) ∷ bs) r =
      bind_all-value name bs (Router.bind n f r) ∙ elim (Option-cases (last_bound name bs)) [
        | inr (g, e) ↦ rw (e, after_binds)
        | inl e ↦ elim (Bool-cases (bytes_eq n name)) [
          | inl same ↦ rw (e, value_of-assign name n (bound f) r.invoker_map, same)
          | inr other ↦ rw (e, value_of-assign name n (bound f) r.invoker_map, other)
        ]
      ]

  multithreaded_keeps :
      (num : ℕ) (r : Router p W C)
      → ((Router.multithreaded num r).1.threadpool.is_stopped ≡ r.threadpool.is_stopped)
        × ((Router.multithreaded num r).1.threadpool.task_queue ≡ r.threadpool.task_queue)
        × ((Router.multithreaded num r).1.invoker_map ≡ r.invoker_map)
  unfolding Router.multithreaded ThreadPool.init_thread_num
  multithreaded_keeps num r = ground arith

  started_threads :
      (num : ℕ) (r : Router p W C)
      → 0 < num
      → num ≤ max_thread_size
      → (Router.multithreaded num r).1.threadpool.threads ≡ r.threadpool.threads + num
  unfolding Router.multithreaded ThreadPool.init_thread_num
  started_threads num r lo hi = ground arith

module _ (p : EasyPack) (W C : Type 0) where
  created-IsMap : IsMap (Router.create {p = p} {W = W} {C = C}).invoker_map
  unfolding Router.create
  created-IsMap = record { distinct = tt; old = tt }

  created_threads : (Router.create {p = p} {W = W} {C = C}).threadpool.threads ≡ 0
  unfolding Router.create ThreadPool.create
  created_threads = refl

  created_pool :
      ((Router.create {p = p} {W = W} {C = C}).threadpool.is_stopped ≡ false)
      × ((Router.create {p = p} {W = W} {C = C}).threadpool.task_queue ≡ [])
  unfolding Router.create ThreadPool.create
  created_pool = (refl, refl)

  -- The program's pool runs, and has no task.
  pub program_pool :
      (num : ℕ) (bs : List (Bytes × Function p W))
      → ((program {C = C} num bs).threadpool.is_stopped ≡ false)
        × ((program {C = C} num bs).threadpool.task_queue ≡ [])
  program_pool num bs =
      let (_, same) = bind_all-IsMap bs Router.create created-IsMap in
      let (stopped, queue, _) = multithreaded_keeps {C = C} num (bind_all bs Router.create) in
      let (runs, empty) = created_pool in
      (stopped ∙ ap (λ q. q.is_stopped) same ∙ runs, queue ∙ ap (λ q. q.task_queue) same ∙ empty)

  -- The function that was bound to a name last is the one that the name is bound to.
  pub program_value :
      (num : ℕ) (bs : List (Bytes × Function p W)) (name : Bytes) (f : Function p W)
      → last_bound name bs ≡ some f
      → IsMap (program {C = C} num bs).invoker_map
        × (value_of name (program {C = C} num bs).invoker_map ≡ some (bound f))
  unfolding after_binds
  program_value num bs name f last =
      let (_, _, map) = multithreaded_keeps {C = C} num (bind_all bs Router.create) in
      (
        rw map ((bind_all-IsMap bs Router.create created-IsMap).0),
        rw map (bind_all-value name bs Router.create ∙ rw last),
      )

  pub program_slot :
      (num : ℕ) (bs : List (Bytes × Function p W)) (name : Bytes) (f : Function p W)
      → last_bound name bs ≡ some f
      → (slot : Slot (InvokerFunction p W)) × (Slots.find name (program {C = C} num bs).invoker_map
          ≡ some slot)
        × (slot.value ≡ bound f)
        × HasRoom (program {C = C} num bs)
  program_slot num bs name f last =
      let (slot, found, is_fn) = value_of-some name _ _ (program_value num bs name f last).1 in
      let (runs, empty) = program_pool num bs in
      let room : HasRoom (program {C = C} num bs) = record {
        running = runs;
        room = λ e. omega (arith, ap length empty);
      } in
      (slot, found, is_fn, room)

  pub program_threads :
      (num : ℕ) (bs : List (Bytes × Function p W))
      → 0 < num
      → num ≤ max_thread_size
      → (program {C = C} num bs).threadpool.threads ≡ num
  program_threads num bs lo hi =
      let (_, same) = bind_all-IsMap bs Router.create created-IsMap in
      let none_yet = ap (λ q. q.threads) same ∙ created_threads in
      let started : (program {C = C} num bs).threadpool.threads ≡ 0 + num =
        started_threads num (bind_all bs Router.create) lo hi ∙ ap (λ n. n + num) none_yet in
      omega arith
