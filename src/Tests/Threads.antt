-- ===== src/Tests/Threads.antt =====
-- Threads of a small pool.
use easyrpc.Prelude.{
  inr, List, ℕ, ◌+◌, ◌*◌, ◌≤◌, ◌≡◌, ◌⊎◌, refl, inl, true, false, [], ◌++◌, length, arith, ◌==◌,
  if◌then◌else◌,
}
use easyrpc.ThreadPool.{max_task_queue_size}
use easyrpc.ThreadPool.Threads.{
  outside, asleep, exited, about_to_wait, sleeping, joining, stopped, cleaning, cleans, System,
  Steps, here, next, fresh, works, calls, flags, lock_get, call, lock_put, emplace, lock,
}
use easyrpc.ThreadPool.Threads.Order.{is_past, tasks_in_order}
use easyrpc.ThreadPool.Threads.Hang.{
  IsHung, IsLeftOut, lost_wakeup, hung_for_ever, caller-IsLeftOut,
}
use easyrpc.ThreadPool.Queue.{Event, happen_all}
use easyrpc.ThreadPool.Threads.Refine.{history, threads_refine_operations}
use easyrpc.ThreadPool.Threads.Rest.{stop_comes_to_rest}
use easyrpc.ThreadPool.Threads.Return.{stop_returns}

-- One worker and one caller, after the caller has queued task 7.
abbrev queued : (s : System ℕ) × Steps false 1 1 fresh 3 s
queued = (
  _,
  next
      (next (next here (calls 0 (omega arith) (call 7 refl)))
        (calls 0 (omega arith) (lock_put refl)))
      (calls 0 (omega arith) (emplace (inl (λ e. omega arith)))),
)

tasks_in_order_example :
    (queued.0.mem.queued ≡ queued.0.mem.taken ++ queued.0.mem.dropped ++ queued.0.mem.task_queue)
    × ((queued.0.mem.is_stopped ≡ true) ⊎ (length queued.0.mem.task_queue ≤ max_task_queue_size))
    × ((is_past queued.0.stopper ≡ true) ⊎ (queued.0.mem.dropped ≡ []))
tasks_in_order_example = tasks_in_order queued.1

threads_refine_operations_example :
    (xs : List (Event ℕ)) × (happen_all xs (history 1 (fresh {T = ℕ}).mem) ≡ history 1 queued.0.mem)
threads_refine_operations_example = threads_refine_operations queued.1 refl

-- The worker has seen an empty queue.
abbrev about : System ℕ
about = record (fresh {T = ℕ}) { mem = lock (fresh {T = ℕ}).mem; worker = λ i. about_to_wait }

lost_wakeup_example : (t : System ℕ) × Steps false 1 1 about 3 t × IsHung 1 1 0 t
lost_wakeup_example = lost_wakeup 0 about (omega arith) refl refl (λ j lt. refl)

-- The first of two workers sleeps, and the other one has not yet seen that the pool is stopped.
abbrev hung : System ℕ
hung = record (fresh {T = ℕ}) {
  mem = record (fresh {T = ℕ}).mem { is_stopped = true };
  worker = λ i. if i == 0 then asleep else outside;
  stopper = joining;
}

hung-IsHung : IsHung 2 1 0 hung
hung-IsHung = record {
  worker = omega arith;
  sleeps = refl;
  flag = refl;
  joins = refl;
  no_caller = λ j lt. refl;
}

abbrev hung_later : (t : System ℕ) × Steps false 2 1 hung 1 t
hung_later = (_, next here (works 1 (omega arith) (lock_get refl)))

hung_for_ever_example : (hung_later.0.worker 0 ≡ asleep) × (hung_later.0.stopper ≡ joining)
hung_for_ever_example = hung_for_ever hung_later.1 hung-IsHung

stop_comes_to_rest_example : 1 ≤ 5 * 2 + 5 * 1 + 4
stop_comes_to_rest_example = stop_comes_to_rest hung_later.1 refl

-- A caller sleeps with task 7, and `stop` has joined the workers.
abbrev left : System ℕ
left = record (fresh {T = ℕ}) {
  mem = record (fresh {T = ℕ}).mem { is_stopped = true };
  worker = λ i. exited;
  caller = λ j. sleeping 7;
  stopper = cleaning;
}

abbrev left_later : (t : System ℕ) × Steps false 1 1 left 1 t
left_later = (_, next here (cleans refl refl))

caller-IsLeftOut_example : IsLeftOut 1 0 7 left_later.0
caller-IsLeftOut_example =
    caller-IsLeftOut left_later.1 (record { sleeps = refl; left = λ i lt. refl })

abbrev flag_set : (t : System ℕ) × Steps false 1 1 fresh 1 t
flag_set = (_, next here (flags refl))

stop_returns_example :
    (k : ℕ) × (t : System ℕ) × Steps false 1 1 flag_set.0 k t × (t.stopper ≡ stopped)
stop_returns_example = stop_returns flag_set.1 refl (inr (λ i lt. (λ e. cc, λ e. cc)))
