-- ===== src/ThreadPool/Threads/Order.antt =====
-- The order of the tasks under all interleavings (easyrpc/base/thread_pool.hpp).
use easyrpc.Prelude.{
  ℕ, ◌<◌, ◌≤◌, ◌≡◌, ◌≢◌, ◌⊎◌, inl, inr, refl, sym, ap, ◌∙◌, Bool, true, false, List, [], ◌∷◌, ◌++◌,
  append_assoc, append-nil, length, length-append, Bool-cases, arith,
}
use easyrpc.ThreadPool.{max_task_queue_size}
use easyrpc.ThreadPool.Threads.{
  Worker, exited, Caller, Stopper, cleaning, stopped, Mem, System, WorkerMove, take_task, run,
  CallerMove, emplace, Step, works, calls, notifies_caller, notifies_no_caller, notifies_worker,
  notifies_no_worker, wakes, rouses, flags, notifies_all, joins, cleans, Steps, here, next, fresh,
}

-- `stop` has joined the workers.
abbrev pub is_past : Stopper → Bool
is_past cleaning = true
is_past stopped = true
is_past _ = false

module _ {T : Type 0} where
  pub record MemInv (m : Mem T) : Type 0 where
    pub in_order : m.queued ≡ m.taken ++ m.dropped ++ m.task_queue
    pub bounded : (m.is_stopped ≡ true) ⊎ (length m.task_queue ≤ max_task_queue_size)

  pub record Inv (n : ℕ) (s : System T) : Type 0 where
    pub mem : MemInv s.mem
    pub kept : (is_past s.stopper ≡ true) ⊎ (s.mem.dropped ≡ [])
    pub joined : is_past s.stopper ≡ true → (i : ℕ) → i < n → s.worker i ≡ exited

  take_order :
      (taken : List T) (task : T) (rest : List T)
      → taken ++ [] ++ task ∷ rest ≡ taken ++ task ∷ [] ++ [] ++ rest
  take_order taken task rest = simp (append-nil, append_assoc)

  clean_order :
      (taken dropped queue : List T) → taken ++ dropped ++ queue ≡ taken ++ (dropped ++ queue) ++ []
  clean_order taken dropped queue = simp (append-nil, append_assoc)

  WorkerMove-MemInv :
      {m m' : Mem T} {w w' : Worker T}
      → WorkerMove m w m' w'
      → MemInv m
      → m.dropped ≡ []
      → MemInv m' × (m'.dropped ≡ [])
  WorkerMove-MemInv {m} (take_task {task} {rest} runs e) v none_dropped = (
    record {
      in_order = v.in_order ∙ rw (none_dropped, e) (take_order m.taken task rest);
      bounded = ground (arith, v.bounded, ap length e);
    },
    none_dropped,
  )
  WorkerMove-MemInv mv v none_dropped = ground arith

  CallerMove-MemInv :
      {m m' : Mem T} {w w' : Caller T}
      → CallerMove m w m' w'
      → MemInv m
      → MemInv m' × (m'.dropped ≡ m.dropped)
  CallerMove-MemInv {m} (emplace {task} room) v = (
    record {
      in_order = rw (v.in_order, append_assoc (m.taken ++ m.dropped) m.task_queue (task ∷ []));
      bounded = ground (arith, room, v.bounded, length-append m.task_queue (task ∷ []));
    },
    refl,
  )
  CallerMove-MemInv mv v = ground arith

  not_exited : {m m' : Mem T} {w w' : Worker T} → WorkerMove m w m' w' → w ≢ exited
  not_exited run = λ e. cc
  not_exited mv = λ e. cc

  none_dropped :
      {n : ℕ} {s : System T} {m : Mem T} {w : Worker T} (i : ℕ)
      → i < n
      → WorkerMove s.mem (s.worker i) m w
      → Inv n s
      → (is_past s.stopper ≡ false) × (s.mem.dropped ≡ [])
  none_dropped {s} i lt mv v = elim (Bool-cases (is_past s.stopper)) [
    | inl past ↦ absurd (not_exited mv (v.joined past i lt))
    | inr before ↦ (before, ground (arith, v.kept))
  ]

  -- No worker moves once all were joined.
  still_joined :
      {n : ℕ} {s : System T} {w : Worker T} (i : ℕ)
      → i < n
      → s.worker i ≡ w
      → w ≢ exited
      → Inv n s
      → is_past s.stopper ≡ false
  still_joined {s} i lt e ne v = elim (Bool-cases (is_past s.stopper)) [
    | inl past ↦ absurd (ne (sym e ∙ v.joined past i lt))
    | inr before ↦ before
  ]

  Step-Inv : {sp : Bool} {n c : ℕ} {s t : System T} → Step sp n c s t → Inv n s → Inv n t
  Step-Inv (works i lt mv) v =
      let (before, none) = none_dropped i lt mv v in
      let (mem, none') = WorkerMove-MemInv mv v.mem none in
      record { mem = mem; kept = inr none'; joined = λ past. absurd (cc) }
  Step-Inv (calls j lt mv) v =
      let (mem, same) = CallerMove-MemInv mv v.mem in
      record { mem = mem; kept = ground (arith, v.kept); joined = v.joined }
  Step-Inv (notifies_caller i j li wi lj cj) v =
      let before = still_joined i li wi (λ e. cc) v in
      record { mem = v.mem; kept = v.kept; joined = λ past. absurd (cc) }
  Step-Inv (notifies_no_caller i lt e no_one) v =
      let before = still_joined i lt e (λ e. cc) v in
      record { mem = v.mem; kept = v.kept; joined = λ past. absurd (cc) }
  Step-Inv (notifies_worker j i lj cj li wi) v =
      let before = still_joined i li wi (λ e. cc) v in
      record { mem = v.mem; kept = v.kept; joined = λ past. absurd (cc) }
  Step-Inv (notifies_no_worker j lt e no_one) v = record {
    mem = v.mem;
    kept = v.kept;
    joined = v.joined;
  }
  Step-Inv (wakes i sp lt e) v =
      let before = still_joined i lt e (λ e. cc) v in
      record { mem = v.mem; kept = v.kept; joined = λ past. absurd (cc) }
  Step-Inv (rouses j sp lt e) v = record { mem = v.mem; kept = v.kept; joined = v.joined }
  Step-Inv (flags e) v = record {
    mem = record { in_order = v.mem.in_order; bounded = inl refl };
    kept = ground arith;
    joined = λ past. absurd (cc);
  }
  Step-Inv (notifies_all e) v = record {
    mem = v.mem;
    kept = ground arith;
    joined = λ past. absurd (cc);
  }
  Step-Inv (joins e all) v = record { mem = v.mem; kept = inl refl; joined = λ past. all }
  Step-Inv {s} (cleans e free) v = record {
    mem = record {
      in_order = v.mem.in_order ∙ clean_order s.mem.taken s.mem.dropped s.mem.task_queue;
      bounded = inr (omega arith);
    };
    kept = inl refl;
    joined = λ past. v.joined (rw e);
  }

  Steps-Inv :
      {sp : Bool} {n c : ℕ} {s : System T} {k : ℕ} {t : System T}
      → Steps sp n c s k t
      → Inv n s
      → Inv n t
  Steps-Inv here v = v
  Steps-Inv (next r st) v = Step-Inv st (Steps-Inv r v)

  fresh-Inv : (n : ℕ) → Inv n (fresh {T = T})
  fresh-Inv n = record {
    mem = record { in_order = refl; bounded = inr (omega arith) };
    kept = inr refl;
    joined = λ past. cc;
  }

  -- However workers, callers and `stop` interleave, and whether sleepers wake for no reason or not:
  -- the tasks that workers took, then those that `stop` threw away, then those that are in the queue
  -- are all the tasks that were queued, each once and in the order in which they were queued; unless
  -- the pool was stopped, at most `max_task_queue_size` are in the queue; and unless all workers have
  -- been joined, none was thrown away.
  pub tasks_in_order :
      {sp : Bool} {n c k : ℕ} {s : System T}
      → Steps sp n c fresh k s
      → (s.mem.queued ≡ s.mem.taken ++ s.mem.dropped ++ s.mem.task_queue)
        × ((s.mem.is_stopped ≡ true) ⊎ (length s.mem.task_queue ≤ max_task_queue_size))
        × ((is_past s.stopper ≡ true) ⊎ (s.mem.dropped ≡ []))
  tasks_in_order {n} r =
      let v = Steps-Inv r (fresh-Inv n) in (v.mem.in_order, v.mem.bounded, v.kept)
