-- ===== src/ThreadPool/Threads/Lock.antt =====
-- Who holds the mutex of the pool (easyrpc/base/thread_pool.hpp).
use easyrpc.Prelude.{ℕ, ◌+◌, ◌≤◌, ◌≡◌, refl, ap, Bool, if◌then◌else◌, arith}
use easyrpc.ThreadPool.Threads.Sums.{total, total-update, total-eq, total-eq_zero, le-total}
use easyrpc.ThreadPool.Threads.{
  Worker, outside, at_get, about_to_wait, woken, holding, Caller, idle, at_put, about_to_sleep,
  roused, Mem, System, wake, WorkerMove, lock_get, relock_get, CallerMove, lock_put, relock_put,
  Step, works, calls, notifies_caller, notifies_no_caller, notifies_worker, notifies_no_worker,
  wakes, rouses, flags, notifies_all, joins, cleans, Steps, here, next, fresh,
}

module _ {T : Type 0} where
  abbrev pub worker_holds : Worker T → ℕ
  worker_holds at_get = 1
  worker_holds about_to_wait = 1
  worker_holds holding = 1
  worker_holds _ = 0

  abbrev pub caller_holds : Caller T → ℕ
  caller_holds (at_put task) = 1
  caller_holds (about_to_sleep task) = 1
  caller_holds _ = 0

  abbrev pub lock_weight : Mem T → ℕ
  lock_weight m = if m.is_locked then 1 else 0

  -- The mutex is locked if and only if one thread holds it, and then no other does.
  abbrev pub LockInv : ℕ → ℕ → System T → Type 0
  LockInv n c s = total worker_holds n s.worker + total caller_holds c s.caller ≡ lock_weight s.mem

  WorkerMove-lock :
      {m m' : Mem T} {w w' : Worker T}
      → WorkerMove m w m' w'
      → worker_holds w ≤ lock_weight m
      → lock_weight m' + worker_holds w ≡ lock_weight m + worker_holds w'
  WorkerMove-lock (lock_get free) h = ground arith
  WorkerMove-lock (relock_get free) h = ground arith
  WorkerMove-lock mv h = ground arith

  CallerMove-lock :
      {m m' : Mem T} {w w' : Caller T}
      → CallerMove m w m' w'
      → caller_holds w ≤ lock_weight m
      → lock_weight m' + caller_holds w ≡ lock_weight m + caller_holds w'
  CallerMove-lock (lock_put free) h = ground arith
  CallerMove-lock (relock_put free) h = ground arith
  CallerMove-lock mv h = ground arith

  wake-holds : (w : Worker T) → worker_holds (wake w) ≡ worker_holds w
  wake-holds w = ground arith

  pub Step-LockInv :
      {sp : Bool} {n c : ℕ} {s t : System T} → Step sp n c s t → LockInv n c s → LockInv n c t
  Step-LockInv {n} {s} (works i {m} {w} lt mv) h = omega (
    arith,
    WorkerMove-lock mv (omega (arith, le-total worker_holds n s.worker i lt)),
    total-update worker_holds n s.worker i w lt,
  )
  Step-LockInv {c} {s} (calls j {m} {w} lt mv) h = omega (
    arith,
    CallerMove-lock mv (omega (arith, le-total caller_holds c s.caller j lt)),
    total-update caller_holds c s.caller j w lt,
  )
  Step-LockInv {n} {c} {s} (notifies_caller i j {task} li wi lj cj) e = omega (
    arith,
    total-update worker_holds n s.worker i outside li,
    total-update caller_holds c s.caller j (roused task) lj,
    ap worker_holds wi,
    ap caller_holds cj,
  )
  Step-LockInv {n} {s} (notifies_no_caller i lt wi no_one) e =
      omega (arith, total-update worker_holds n s.worker i outside lt, ap worker_holds wi)
  Step-LockInv {n} {c} {s} (notifies_worker j i lj cj li wi) e = omega (
    arith,
    total-update worker_holds n s.worker i woken li,
    total-update caller_holds c s.caller j idle lj,
    ap worker_holds wi,
    ap caller_holds cj,
  )
  Step-LockInv {c} {s} (notifies_no_worker j lt cj no_one) e =
      omega (arith, total-update caller_holds c s.caller j idle lt, ap caller_holds cj)
  Step-LockInv {n} {s} (wakes i sp lt wi) e =
      omega (arith, total-update worker_holds n s.worker i woken lt, ap worker_holds wi)
  Step-LockInv {c} {s} (rouses j {task} sp lt cj) e =
      omega (arith, total-update caller_holds c s.caller j (roused task) lt, ap caller_holds cj)
  Step-LockInv (flags at) e = e
  Step-LockInv {n} {s} (notifies_all at) e = omega (
    arith,
    total-eq worker_holds n s.worker (λ i. wake (s.worker i)) (λ i. wake-holds (s.worker i)),
  )
  Step-LockInv (joins at all) e = e
  Step-LockInv (cleans at free) e = e

  pub Steps-LockInv :
      {sp : Bool} {n c : ℕ} {s : System T} {k : ℕ} {t : System T}
      → Steps sp n c s k t
      → LockInv n c s
      → LockInv n c t
  Steps-LockInv here h = h
  Steps-LockInv (next r st) h = Step-LockInv st (Steps-LockInv r h)

pub fresh-LockInv : (T : Type 0) (n c : ℕ) → LockInv n c (fresh {T = T})
fresh-LockInv T n c = omega (
  arith,
  total-eq_zero {A = Worker T} worker_holds n (λ i. outside) (λ i. refl),
  total-eq_zero {A = Caller T} caller_holds c (λ j. idle) (λ j. refl),
)
