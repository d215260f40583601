-- ===== src/ThreadPool/Threads/Refine.antt =====
-- The threads of the pool against its operations as single steps (easyrpc/base/thread_pool.hpp).
use easyrpc.Prelude.{
  ℕ, ◌≡◌, ◌⊎◌, inl, inr, refl, sym, ap, ◌∙◌, Bool, true, false, List, [], ◌∷◌, ◌++◌, arith,
}
use easyrpc.ThreadPool.Queue.{
  Event, adds, works as worker_event, History, happen_all, happen-adds, happen-works,
  happen_all_one, happen_all_none, happen_all-append,
}
use easyrpc.ThreadPool.Threads.{
  Worker, Caller, not_called, Mem, System, WorkerMove, take_task, run, CallerMove, emplace, sleep,
  Step, works, calls, notifies_caller, notifies_no_caller, notifies_worker, notifies_no_worker,
  wakes, rouses, flags, notifies_all, joins, cleans, Steps, here, next, fresh,
}
use easyrpc.ThreadPool.Threads.Hang.{WorkerMove-flag}

module _ {T : Type 0} where
  -- The pool of `n` workers, and its history, as one thread sees them between two operations.
  abbrev pub history : ℕ → Mem T → History T
  history n m = record {
    pool = record {
      threads = n;
      task_queue = m.task_queue;
      is_stopped = m.is_stopped;
      was_called = m.is_stopped;
    };
    queued = m.queued;
    taken = m.taken;
    dropped = m.dropped;
  }

  -- The operations that lead from one to the other.
  abbrev Events : ℕ → Mem T → Mem T → Type 0
  Events n m m' = (xs : List (Event T)) × (happen_all xs (history n m) ≡ history n m')

  CallerMove-flag :
      {m m' : Mem T} {w w' : Caller T} → CallerMove m w m' w' → m'.is_stopped ≡ m.is_stopped
  CallerMove-flag sleep = refl
  CallerMove-flag mv = refl

  WorkerMove-Events :
      {m m' : Mem T} {w w' : Worker T} (n : ℕ) → WorkerMove m w m' w' → Events n m m'
  WorkerMove-Events {m} n (take_task {task} {rest} runs e) = (
    worker_event ∷ [],
    happen_all_one worker_event (history n m) ∙ happen-works task rest (history n m) runs e,
  )
  WorkerMove-Events {m} n run = ([], happen_all_none (history n m))
  WorkerMove-Events {m} n mv = ([], happen_all_none (history n m))

  CallerMove-Events :
      {m m' : Mem T} {w w' : Caller T} (n : ℕ)
      → CallerMove m w m' w'
      → m.is_stopped ≡ false
      → Events n m m'
  CallerMove-Events {m} n (emplace {task} (inl room)) runs = (
    adds task ∷ [],
    happen_all_one (adds task) (history n m) ∙ happen-adds task (history n m) runs room,
  )
  CallerMove-Events {m} n (emplace {task} (inr flag)) runs = absurd (cc)
  CallerMove-Events {m} n sleep runs = ([], happen_all_none (history n m))
  CallerMove-Events {m} n mv runs = ([], happen_all_none (history n m))

  -- `stop` has not been called, or the flag is set.
  abbrev Flagged : System T → Type 0
  Flagged s = (s.stopper ≡ not_called) ⊎ (s.mem.is_stopped ≡ true)

  Step-Flagged : {sp : Bool} {n c : ℕ} {s t : System T} → Step sp n c s t → Flagged s → Flagged t
  Step-Flagged (works i lt mv) h = ground (arith, h, WorkerMove-flag mv)
  Step-Flagged (calls j lt mv) h = ground (arith, h, CallerMove-flag mv)
  Step-Flagged (flags e) h = inr refl
  Step-Flagged (notifies_all e) h = ground arith
  Step-Flagged (joins e all) h = ground arith
  Step-Flagged (cleans e free) h = ground arith
  Step-Flagged (notifies_caller i j li wi lj cj) h = h
  Step-Flagged (notifies_no_caller i li wi no_one) h = h
  Step-Flagged (notifies_worker j i lj cj li wi) h = h
  Step-Flagged (notifies_no_worker j lj cj no_one) h = h
  Step-Flagged (wakes i e li wi) h = h
  Step-Flagged (rouses j e lj cj) h = h

  Step-runs :
      {sp : Bool} {n c : ℕ} {s t : System T}
      → Step sp n c s t
      → t.mem.is_stopped ≡ false
      → s.mem.is_stopped ≡ false
  Step-runs (works i lt mv) e = sym (WorkerMove-flag mv) ∙ e
  Step-runs (calls j lt mv) e = sym (CallerMove-flag mv) ∙ e
  Step-runs (flags at) e = absurd (cc)
  Step-runs (notifies_caller i j li wi lj cj) e = e
  Step-runs st e = e

  Step-Events :
      {sp : Bool} {n c : ℕ} {s t : System T}
      → Step sp n c s t
      → Flagged s
      → t.mem.is_stopped ≡ false
      → Events n s.mem t.mem
  Step-Events {n} (works i lt mv) h runs = WorkerMove-Events n mv
  Step-Events {n} (calls j lt mv) h runs = CallerMove-Events n mv (sym (CallerMove-flag mv) ∙ runs)
  Step-Events (flags at) h runs = absurd (cc)
  Step-Events {s} (cleans at free) h runs = absurd (ground (arith, h))
  Step-Events {n} {s} (notifies_caller i j li wi lj cj) h runs =
      ([], happen_all_none (history n s.mem))
  Step-Events {n} {s} st h runs = ([], happen_all_none (history n s.mem))

  Steps-Flagged :
      {sp : Bool} {n c : ℕ} {s : System T} {k : ℕ} {t : System T}
      → Steps sp n c s k t
      → Flagged s
      → Flagged t
  Steps-Flagged here h = h
  Steps-Flagged (next r st) h = Step-Flagged st (Steps-Flagged r h)

  Steps-Events :
      {sp : Bool} {n c : ℕ} {s : System T} {k : ℕ} {t : System T}
      → Steps sp n c s k t
      → Flagged s
      → t.mem.is_stopped ≡ false
      → Events n s.mem t.mem
  Steps-Events {n} {s} here h runs = ([], happen_all_none (history n s.mem))
  Steps-Events {n} {s} (next r st) h runs =
      let (xs, before) = Steps-Events r h (Step-runs st runs) in
      let (ys, after) = Step-Events st (Steps-Flagged r h) runs in
      (xs ++ ys, happen_all-append xs ys (history n s.mem) ∙ ap (happen_all ys) before ∙ after)

  -- Until the flag of `stop` is set, the threads do nothing that the operations, each as one step,
  -- could not do: however the workers and the callers of a fresh pool have interleaved, some sequence
  -- of operations, one after the other, leads to the same queue, and has queued and taken the same
  -- tasks in the same order.
  pub threads_refine_operations :
      {sp : Bool} {n c k : ℕ} {s : System T}
      → Steps sp n c fresh k s
      → s.mem.is_stopped ≡ false
      → (xs : List (Event T)) × (happen_all xs (history n (fresh {T = T}).mem) ≡ history n s.mem)
  threads_refine_operations steps runs = Steps-Events steps (inl refl) runs
