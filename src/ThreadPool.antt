-- ===== src/ThreadPool.antt =====
-- easyrpc/base/thread_pool.hpp: the operations, each as one call with no other thread in between: the
-- test of the stop flag, and then what is done under the lock. In Threads these are steps of their
-- own. `T` stands for the closures that are queued.
pub mod Queue
pub mod Threads
use easyrpc.Prelude.{
  ℕ, ◌+◌, Bool, true, false, not, ◌&&◌, ◌||◌, List, [], ◌∷◌, ◌++◌, ltb, ◌==◌, if◌then◌else◌, length,
}
use easyrpc.Prelude.Exec.{Exec, ok, throw, invalid_argument}
use easyrpc.Prelude.Outcome.{Outcome, done, waits}

abbrev pub max_task_queue_size : ℕ
max_task_queue_size = 100000

abbrev pub max_thread_size : ℕ
max_thread_size = 30

pub record ThreadPool (T : Type 0) : Type 0 where
  pub threads : ℕ
  pub task_queue : List T
  pub is_stopped : Bool
  pub was_called : Bool

-- How a round of the loop of `run_task` ends that does not wait: it leaves the loop, or takes a task.
pub data Round (T : Type 0) : Type 0 where
  exits : Round T
  takes : T → ThreadPool T → Round T

module _ {T : Type 0} where
  unfoldable pub create : ThreadPool T
  create = record { threads = 0; task_queue = []; is_stopped = false; was_called = false }

  unfoldable pub init_thread_num : ℕ → Exec (ThreadPool T) Unit
  init_thread_num num p =
      if num == 0 || ltb max_thread_size num
      then (throw (invalid_argument "Number of threads in the range of 1 to 30"), p)
      else (ok tt, record p { threads = p.threads + num })

  -- The loop waits while the queue is full and the pool runs.
  unfoldable pub add_task_impl : T → ThreadPool T → Outcome (ThreadPool T)
  add_task_impl task p =
      if length p.task_queue == max_task_queue_size && not p.is_stopped
      then waits
      else done (record p { task_queue = p.task_queue ++ task ∷ [] })

  -- One call, with no other thread between the test of the flag and the lock.
  unfoldable pub add_task : T → ThreadPool T → Outcome (ThreadPool T)
  unfolding add_task_impl
  add_task task p = if p.is_stopped then done p else add_task_impl task p

  take_first : List T → ThreadPool T → Outcome (Round T)
  take_first [] p = waits
  take_first (task ∷ rest) p = done (takes task (record p { task_queue = rest }))

  unfoldable pub run_task : ThreadPool T → Outcome (Round T)
  unfolding take_first
  run_task p = if p.is_stopped then done exits else take_first p.task_queue p

  pub clean_task_queue : ThreadPool T → ThreadPool T
  clean_task_queue p = record p { task_queue = [] }

  -- The workers leave their loops once the flag is set; then the queue is cleaned.
  pub terminate_all : ThreadPool T → ThreadPool T
  unfolding clean_task_queue
  terminate_all p = clean_task_queue (record p { is_stopped = true; threads = 0 })

  -- `std::call_once`
  pub stop : ThreadPool T → ThreadPool T
  unfolding terminate_all
  stop p = if p.was_called then p else record (terminate_all p) { was_called = true }

  -- `~thread_pool`
  pub destroy : ThreadPool T → ThreadPool T
  unfolding stop
  destroy p = stop p
