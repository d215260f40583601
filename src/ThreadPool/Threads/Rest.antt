-- ===== src/ThreadPool/Threads/Rest.antt =====
-- Once the flag is set: how many steps can follow (easyrpc/base/thread_pool.hpp).

use easyrpc.Prelude.{ℕ, ◌+◌, ◌*◌, ◌<◌, ◌≤◌, ◌≡◌, refl, ap, Bool, true, arith}
use easyrpc.ThreadPool.Threads.Sums.{total, total-update, total-le_mul, total-le}
use easyrpc.ThreadPool.Threads.{
  Worker, outside, at_get, about_to_wait, asleep, woken, holding, running, ran, exited, Caller,
  idle, called, at_put, about_to_sleep, sleeping, roused, put, Stopper, not_called, flagged,
  joining, cleaning, stopped, Mem, System, wake, WorkerMove, see_empty, take_task, take_none, run,
  CallerMove, call, see_full, sleep, Step, works, calls, notifies_caller, notifies_no_caller,
  notifies_worker, notifies_no_worker, wakes, rouses, flags, notifies_all, joins, cleans, Steps,
  here, next,
}

abbrev pub stopper_rank : Stopper → ℕ
stopper_rank stopped = 0
stopper_rank cleaning = 1
stopper_rank joining = 2
stopper_rank flagged = 3
stopper_rank not_called = 4

stopper_rank-le : (x : Stopper) → stopper_rank x ≤ 4
stopper_rank-le x = ground arith

module _ {T : Type 0} where
  -- How far a thread is from its end, once the flag is set.
  abbrev pub worker_rank : Worker T → ℕ
  worker_rank exited = 0
  worker_rank holding = 1
  worker_rank at_get = 2
  worker_rank outside = 3
  worker_rank woken = 3
  worker_rank asleep = 4
  worker_rank ran = 4
  worker_rank about_to_wait = 5
  worker_rank (running task) = 5

  abbrev pub caller_rank : Caller T → ℕ
  caller_rank idle = 0
  caller_rank put = 1
  caller_rank (at_put task) = 2
  caller_rank (called task) = 3
  caller_rank (roused task) = 3
  caller_rank (sleeping task) = 4
  caller_rank (about_to_sleep task) = 5

  abbrev pub rank : ℕ → ℕ → System T → ℕ
  rank n c s = total worker_rank n s.worker + total caller_rank c s.caller + stopper_rank s.stopper

  WorkerMove-rank :
      {m m' : Mem T} {w w' : Worker T}
      → WorkerMove m w m' w'
      → m.is_stopped ≡ true
      → (m'.is_stopped ≡ true) × (worker_rank w' < worker_rank w)
  WorkerMove-rank run e = (e, omega arith)
  WorkerMove-rank (see_empty empty runs) e = absurd (cc)
  WorkerMove-rank (take_task runs some_task) e = absurd (cc)
  WorkerMove-rank (take_none runs empty) e = absurd (cc)
  WorkerMove-rank mv e = ground arith

  CallerMove-rank :
      {m m' : Mem T} {w w' : Caller T}
      → CallerMove m w m' w'
      → m.is_stopped ≡ true
      → (m'.is_stopped ≡ true) × (caller_rank w' < caller_rank w)
  CallerMove-rank sleep e = (e, omega arith)
  CallerMove-rank (call task runs) e = absurd (cc)
  CallerMove-rank (see_full full runs) e = absurd (cc)
  CallerMove-rank mv e = ground arith

  wake-rank : (w : Worker T) → worker_rank (wake w) ≤ worker_rank w
  wake-rank w = ground arith

  pub Step-rank :
      {sp : Bool} {n c : ℕ} {s t : System T}
      → Step sp n c s t
      → s.mem.is_stopped ≡ true
      → (t.mem.is_stopped ≡ true) × (rank n c t < rank n c s)
  Step-rank {n} {s} (works i {m} {w} lt mv) e =
      let (flag, less) = WorkerMove-rank mv e in
      (flag, omega (arith, total-update worker_rank n s.worker i w lt))
  Step-rank {c} {s} (calls j {m} {w} lt mv) e =
      let (flag, less) = CallerMove-rank mv e in
      (flag, omega (arith, total-update caller_rank c s.caller j w lt))
  Step-rank {n} {c} {s} (notifies_caller i j {task} li wi lj cj) e = (
    e,
    omega (
      arith,
      total-update worker_rank n s.worker i outside li,
      total-update caller_rank c s.caller j (roused task) lj,
      ap worker_rank wi,
      ap caller_rank cj,
    ),
  )
  Step-rank {n} {s} (notifies_no_caller i lt wi no_one) e =
      (e, omega (arith, total-update worker_rank n s.worker i outside lt, ap worker_rank wi))
  Step-rank {n} {c} {s} (notifies_worker j i lj cj li wi) e = (
    e,
    omega (
      arith,
      total-update worker_rank n s.worker i woken li,
      total-update caller_rank c s.caller j idle lj,
      ap worker_rank wi,
      ap caller_rank cj,
    ),
  )
  Step-rank {c} {s} (notifies_no_worker j lt cj no_one) e =
      (e, omega (arith, total-update caller_rank c s.caller j idle lt, ap caller_rank cj))
  Step-rank {n} {s} (wakes i sp lt wi) e =
      (e, omega (arith, total-update worker_rank n s.worker i woken lt, ap worker_rank wi))
  Step-rank {c} {s} (rouses j {task} sp lt cj) e =
      (e, omega (arith, total-update caller_rank c s.caller j (roused task) lt, ap caller_rank cj))
  Step-rank (flags at) e = (refl, omega (arith, ap stopper_rank at))
  Step-rank {n} {s} (notifies_all at) e = (
    e,
    omega (
      arith,
      total-le worker_rank n s.worker (λ i. wake (s.worker i)) (λ i. wake-rank (s.worker i)),
      ap stopper_rank at,
    ),
  )
  Step-rank (joins at all) e = (e, omega (arith, ap stopper_rank at))
  Step-rank (cleans at free) e = (e, omega (arith, ap stopper_rank at))

  Steps-rank :
      {sp : Bool} {n c : ℕ} {s : System T} {k : ℕ} {t : System T}
      → Steps sp n c s k t
      → s.mem.is_stopped ≡ true
      → (t.mem.is_stopped ≡ true) × (k + rank n c t ≤ rank n c s)
  Steps-rank here e = (e, omega arith)
  Steps-rank (next r st) e =
      let (flag, few) = Steps-rank r e in
      let (flag', less) = Step-rank st flag in (flag', omega arith)

  -- Once the flag of `stop` is set, no more than five steps for each worker and for each caller and
  -- four of `stop` can follow: the pool comes to rest, whatever the order of the steps, and whether
  -- sleepers wake for no reason or not.
  pub stop_comes_to_rest :
      {sp : Bool} {n c : ℕ} {s : System T} {k : ℕ} {t : System T}
      → Steps sp n c s k t
      → s.mem.is_stopped ≡ true
      → k ≤ 5 * n + 5 * c + 4
  stop_comes_to_rest {n} {c} {s} r e = omega (
    arith,
    (Steps-rank r e).1,
    total-le_mul worker_rank 5 (λ w. ground arith) n s.worker,
    total-le_mul caller_rank 5 (λ w. ground arith) c s.caller,
    stopper_rank-le s.stopper,
  )
