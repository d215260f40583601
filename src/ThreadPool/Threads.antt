-- ===== src/ThreadPool/Threads.antt =====
-- easyrpc/base/thread_pool.hpp with its threads: workers in `run_task`, callers in `add_task`, and one
-- caller of `stop`, interleaved in any order. The mutex is held over several steps; the flag is read
-- and written without it; each condition variable has its sleepers.
pub mod Sums
pub mod Order
pub mod Hang
pub mod Rest
pub mod Lock
pub mod Progress
pub mod Return
pub mod Refine
use easyrpc.Prelude.{
  ℕ, suc, ◌+◌, ◌<◌, ◌≡◌, ◌≢◌, ◌⊎◌, Bool, true, false, List, [], ◌∷◌, ◌++◌, ◌==◌, if◌then◌else◌,
  length,
}
use easyrpc.ThreadPool.{max_task_queue_size}

-- Where a worker stands in `run_task`.
pub data Worker (T : Type 0) : Type 0 where
  outside : Worker T  -- head of the outer loop
  at_get : Worker T  -- holds the mutex, before the test of the inner loop
  about_to_wait : Worker T  -- holds the mutex, the test has seen an empty queue and no stop
  asleep : Worker T  -- in `task_get_.wait`
  woken : Worker T  -- in `task_get_.wait`, notified, without the mutex
  holding : Worker T  -- holds the mutex, behind the inner loop
  running : T → Worker T  -- before `task()`
  ran : Worker T  -- before `task_put_.notify_one()`
  exited : Worker T

-- Where a caller stands in `add_task`.
pub data Caller (T : Type 0) : Type 0 where
  idle : Caller T
  called : T → Caller T  -- has seen that the pool runs
  at_put : T → Caller T  -- holds the mutex, before the test of the loop
  about_to_sleep : T → Caller T  -- holds the mutex, the test has seen a full queue and no stop
  sleeping : T → Caller T  -- in `task_put_.wait`
  roused : T → Caller T  -- in `task_put_.wait`, notified, without the mutex
  put : Caller T  -- before `task_get_.notify_one()`

-- Where the caller of `stop` stands in `terminate_all`.
pub data Stopper : Type 0 where
  not_called : Stopper
  flagged : Stopper  -- before `task_get_.notify_all()`
  joining : Stopper
  cleaning : Stopper
  stopped : Stopper

-- The members of the pool, and all tasks that were queued, taken by workers and thrown away.
pub record Mem (T : Type 0) : Type 0 where
  pub task_queue : List T
  pub is_stopped : Bool
  pub is_locked : Bool
  pub queued : List T
  pub taken : List T
  pub dropped : List T

pub record System (T : Type 0) : Type 0 where
  pub mem : Mem T
  pub worker : ℕ → Worker T
  pub caller : ℕ → Caller T
  pub stopper : Stopper

abbrev pub update : {A : Type 0} → (ℕ → A) → ℕ → A → ℕ → A
update f i a j = if i == j then a else f j

module _ {T : Type 0} where
  abbrev pub lock : Mem T → Mem T
  lock m = record m { is_locked = true }

  abbrev pub unlock : Mem T → Mem T
  unlock m = record m { is_locked = false }

  -- `notify_all` of `task_get_`
  abbrev pub wake : Worker T → Worker T
  wake asleep = woken
  wake w = w

  pub data WorkerMove (m : Mem T) : Worker T → Mem T → Worker T → Type 0 where
    lock_get : m.is_locked ≡ false → WorkerMove m outside (lock m) at_get
    relock_get : m.is_locked ≡ false → WorkerMove m woken (lock m) at_get
    see_empty : m.task_queue ≡ [] → m.is_stopped ≡ false → WorkerMove m at_get m about_to_wait
    see_task : m.task_queue ≢ [] → WorkerMove m at_get m holding
    see_stop : m.task_queue ≡ [] → m.is_stopped ≡ true → WorkerMove m at_get m holding
    wait : WorkerMove m about_to_wait (unlock m) asleep
    leave : m.is_stopped ≡ true → WorkerMove m holding (unlock m) exited
    take_task :
        {task : T} {rest : List T}
        → m.is_stopped ≡ false
        → m.task_queue ≡ task ∷ rest
        → WorkerMove m holding
            (record m { task_queue = rest; taken = m.taken ++ task ∷ []; is_locked = false })
            (running task)
    take_none : m.is_stopped ≡ false → m.task_queue ≡ [] → WorkerMove m holding (unlock m) outside
    run : {task : T} → WorkerMove m (running task) m ran

  pub data CallerMove (m : Mem T) : Caller T → Mem T → Caller T → Type 0 where
    call : (task : T) → m.is_stopped ≡ false → CallerMove m idle m (called task)
    lock_put : {task : T} → m.is_locked ≡ false → CallerMove m (called task) (lock m) (at_put task)
    relock_put :
        {task : T} → m.is_locked ≡ false → CallerMove m (roused task) (lock m) (at_put task)
    see_full :
        {task : T}
        → length m.task_queue ≡ max_task_queue_size
        → m.is_stopped ≡ false
        → CallerMove m (at_put task) m (about_to_sleep task)
    sleep : {task : T} → CallerMove m (about_to_sleep task) (unlock m) (sleeping task)
    emplace :
        {task : T}
        → (length m.task_queue ≢ max_task_queue_size) ⊎ (m.is_stopped ≡ true)
        → CallerMove m
            (at_put task)
            (record m {
              task_queue = m.task_queue ++ task ∷ [];
              queued = m.queued ++ task ∷ [];
              is_locked = false;
            })
            put

  -- A step of one of `n` workers, of one of `c` callers, or of `stop`. A call that sees the flag
  -- returns and changes nothing, which is no step. Sleepers may wake for no reason if `spurious`.
  pub data Step (spurious : Bool) (n c : ℕ) (s : System T) : System T → Type 0 where
    works :
        (i : ℕ) {m : Mem T} {w : Worker T}
        → i < n
        → WorkerMove s.mem (s.worker i) m w
        → Step spurious n c s (record s { mem = m; worker = update s.worker i w })
    calls :
        (j : ℕ) {m : Mem T} {w : Caller T}
        → j < c
        → CallerMove s.mem (s.caller j) m w
        → Step spurious n c s (record s { mem = m; caller = update s.caller j w })
    notifies_caller :
        (i j : ℕ) {task : T}
        → i < n
        → s.worker i ≡ ran
        → j < c
        → s.caller j ≡ sleeping task
        → Step spurious n c s (record s {
          worker = update s.worker i outside;
          caller = update s.caller j (roused task);
        })
    notifies_no_caller :
        (i : ℕ)
        → i < n
        → s.worker i ≡ ran
        → ((j : ℕ) (task : T) → j < c → s.caller j ≢ sleeping task)
        → Step spurious n c s (record s { worker = update s.worker i outside })
    notifies_worker :
        (j i : ℕ)
        → j < c
        → s.caller j ≡ put
        → i < n
        → s.worker i ≡ asleep
        → Step spurious n c s
            (record s { worker = update s.worker i woken; caller = update s.caller j idle })
    notifies_no_worker :
        (j : ℕ)
        → j < c
        → s.caller j ≡ put
        → ((i : ℕ) → i < n → s.worker i ≢ asleep)
        → Step spurious n c s (record s { caller = update s.caller j idle })
    wakes :
        (i : ℕ)
        → spurious ≡ true
        → i < n
        → s.worker i ≡ asleep
        → Step spurious n c s (record s { worker = update s.worker i woken })
    rouses :
        (j : ℕ) {task : T}
        → spurious ≡ true
        → j < c
        → s.caller j ≡ sleeping task
        → Step spurious n c s (record s { caller = update s.caller j (roused task) })
    flags :
        s.stopper ≡ not_called
        → Step spurious n c s
            (record s { mem = record s.mem { is_stopped = true }; stopper = flagged })
    notifies_all :
        s.stopper ≡ flagged
        → Step spurious n c s (record s { worker = λ i. wake (s.worker i); stopper = joining })
    joins :
        s.stopper ≡ joining
        → ((i : ℕ) → i < n → s.worker i ≡ exited)
        → Step spurious n c s (record s { stopper = cleaning })
    cleans :
        s.stopper ≡ cleaning
        → s.mem.is_locked ≡ false
        → Step spurious n c s (record s {
          mem = record s.mem { task_queue = []; dropped = s.mem.dropped ++ s.mem.task_queue };
          stopper = stopped;
        })

  -- So many steps, one after the other.
  pub data Steps (spurious : Bool) (n c : ℕ) (s : System T) : ℕ → System T → Type 0 where
    here : Steps spurious n c s 0 s
    next :
        {k : ℕ} {t u : System T}
        → Steps spurious n c s k t
        → Step spurious n c t u
        → Steps spurious n c s (suc k) u

  -- A pool behind `init_thread_num`, which nobody has used yet.
  abbrev pub fresh : System T
  fresh = record {
    mem = record {
      task_queue = [];
      is_stopped = false;
      is_locked = false;
      queued = [];
      taken = [];
      dropped = [];
    };
    worker = λ i. outside;
    caller = λ j. idle;
    stopper = not_called;
  }
