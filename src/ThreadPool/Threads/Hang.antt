-- ===== src/ThreadPool/Threads/Hang.antt =====
-- Wakeups that are lost (easyrpc/base/thread_pool.hpp): `terminate_all` sets the flag and notifies
-- without the mutex, and nobody notifies `task_put_` when the pool is stopped.
use easyrpc.Prelude.{ℕ, ◌<◌, ◌≡◌, ◌≢◌, refl, ap, ◌∙◌, true, false, ==_iff, arith}
use easyrpc.ThreadPool.Threads.{
  Worker, outside, about_to_wait, asleep, exited, Caller, idle, sleeping, not_called, flagged,
  joining, Mem, System, update, wake, unlock, WorkerMove, wait, run, CallerMove, call, sleep, Step,
  works, calls, notifies_caller, notifies_no_caller, notifies_worker, notifies_no_worker, wakes,
  rouses, flags, notifies_all, joins, cleans, Steps, here, next,
}

module _ {T : Type 0} where
  -- Worker `i` sleeps and nobody is left to notify it; `stop` waits for it.
  pub record IsHung (n c i : ℕ) (s : System T) : Type 0 where
    pub worker : i < n
    pub sleeps : s.worker i ≡ asleep
    pub flag : s.mem.is_stopped ≡ true
    pub joins : s.stopper ≡ joining
    pub no_caller : (j : ℕ) → j < c → s.caller j ≡ idle

  -- The states that `lost_wakeup` goes through.
  abbrev after_flag : System T → System T
  after_flag s = record s { mem = record s.mem { is_stopped = true }; stopper = flagged }

  abbrev after_notify : System T → System T
  after_notify s = record (after_flag s) { worker = λ k. wake (s.worker k); stopper = joining }

  abbrev after_wait : ℕ → System T → System T
  after_wait i s = record (after_notify s) {
    mem = unlock (after_notify s).mem;
    worker = update (after_notify s).worker i asleep;
  }

  -- A worker has seen an empty queue and no stop, and is about to wait, with the mutex locked; nobody
  -- calls `add_task`. If `stop` is called now, it may set the flag and notify before the worker
  -- sleeps: three steps later the pool hangs.
  pub lost_wakeup :
      {n c : ℕ} (i : ℕ) (s : System T)
      → i < n
      → s.worker i ≡ about_to_wait
      → s.stopper ≡ not_called
      → ((j : ℕ) → j < c → s.caller j ≡ idle)
      → (t : System T) × Steps false n c s 3 t × IsHung n c i t
  lost_wakeup i s lt e called_not no_caller = (
    after_wait i s,
    next (next (next here (flags called_not)) (notifies_all refl)) (works i lt (rw e wait)),
    record {
      worker = lt;
      sleeps = rw ((==_iff i i).1 refl);
      flag = refl;
      joins = refl;
      no_caller = no_caller;
    },
  )

  pub WorkerMove-flag :
      {m m' : Mem T} {w w' : Worker T} → WorkerMove m w m' w' → m'.is_stopped ≡ m.is_stopped
  WorkerMove-flag run = refl
  WorkerMove-flag mv = refl

  WorkerMove-ne-asleep : {m m' : Mem T} {w w' : Worker T} → WorkerMove m w m' w' → w ≢ asleep
  WorkerMove-ne-asleep run = λ e. cc
  WorkerMove-ne-asleep mv = λ e. cc

  -- Nobody begins a call once the flag is set.
  CallerMove-idle :
      {m m' : Mem T} {w w' : Caller T} → CallerMove m w m' w' → w ≡ idle → m.is_stopped ≡ false
  CallerMove-idle (call task runs) e = runs
  CallerMove-idle mv e = cc

  update-other :
      (f : ℕ → Worker T) (k i : ℕ) (w : Worker T)
      → f k ≢ asleep
      → f i ≡ asleep
      → update f k w i ≡ asleep
  update-other f k i w ne e = ground (arith, ap f)

  Step-IsHung : {n c i : ℕ} {s t : System T} → Step false n c s t → IsHung n c i s → IsHung n c i t
  Step-IsHung {i} {s} (works k {m} {w} lt mv) h = record {
    worker = h.worker;
    sleeps = update-other s.worker k i w (WorkerMove-ne-asleep mv) h.sleeps;
    flag = WorkerMove-flag mv ∙ h.flag;
    joins = h.joins;
    no_caller = h.no_caller;
  }
  Step-IsHung (calls j lt mv) h = absurd (cc (CallerMove-idle mv (h.no_caller j lt)))
  Step-IsHung (notifies_caller k j lk wk lj cj) h = absurd (cc (h.no_caller j lj))
  Step-IsHung {i} {s} (notifies_no_caller k lt e no_one) h = record {
    worker = h.worker;
    sleeps = update-other s.worker k i outside (λ z. cc) h.sleeps;
    flag = h.flag;
    joins = h.joins;
    no_caller = h.no_caller;
  }
  Step-IsHung (notifies_worker j k lj cj lk wk) h = absurd (cc (h.no_caller j lj))
  Step-IsHung (notifies_no_worker j lj cj no_one) h = absurd (cc (h.no_caller j lj))
  Step-IsHung (wakes k sp lt e) h = absurd (cc)
  Step-IsHung (rouses j sp lt e) h = absurd (cc)
  Step-IsHung (flags e) h = absurd (cc (h.joins))
  Step-IsHung (notifies_all e) h = absurd (cc (h.joins))
  Step-IsHung {i} (joins e all) h = absurd (cc (all i h.worker, h.sleeps))
  Step-IsHung (cleans e free) h = absurd (cc (h.joins))

  Steps-IsHung :
      {n c i : ℕ} {s : System T} {k : ℕ} {t : System T}
      → Steps false n c s k t
      → IsHung n c i s
      → IsHung n c i t
  Steps-IsHung here h = h
  Steps-IsHung (next r st) h = Step-IsHung st (Steps-IsHung r h)

  -- A pool that hangs so hangs for ever, unless sleepers wake for no reason: whatever follows, the
  -- worker sleeps and `stop` has not returned.
  pub hung_for_ever :
      {n c i : ℕ} {s : System T} {k : ℕ} {t : System T}
      → Steps false n c s k t
      → IsHung n c i s
      → (t.worker i ≡ asleep) × (t.stopper ≡ joining)
  hung_for_ever r h = let v = Steps-IsHung r h in (v.sleeps, v.joins)

  CallerMove-ne-sleeping :
      {m m' : Mem T} {w w' : Caller T} (task : T) → CallerMove m w m' w' → w ≢ sleeping task
  CallerMove-ne-sleeping task sleep = λ e. cc
  CallerMove-ne-sleeping task mv = λ e. cc

  update-other_caller :
      (f : ℕ → Caller T) (k j : ℕ) (w : Caller T) (task : T)
      → f k ≢ sleeping task
      → f j ≡ sleeping task
      → update f k w j ≡ sleeping task
  update-other_caller f k j w task ne e = ground (arith, ap f)

  -- A caller sleeps in `add_task`, and every worker has left.
  pub record IsLeftOut (n : ℕ) (j : ℕ) (task : T) (s : System T) : Type 0 where
    pub sleeps : s.caller j ≡ sleeping task
    pub left : (i : ℕ) → i < n → s.worker i ≡ exited

  WorkerMove-ne-exited : {m m' : Mem T} {w w' : Worker T} → WorkerMove m w m' w' → w ≢ exited
  WorkerMove-ne-exited run = λ e. cc
  WorkerMove-ne-exited mv = λ e. cc

  Step-IsLeftOut :
      {n c j : ℕ} {task : T} {s t : System T}
      → Step false n c s t
      → IsLeftOut n j task s
      → IsLeftOut n j task t
  Step-IsLeftOut (works k lt mv) h = absurd (WorkerMove-ne-exited mv (h.left k lt))
  Step-IsLeftOut {j} {task} {s} (calls k {m} {w} lt mv) h = record {
    sleeps = update-other_caller s.caller k j w task (CallerMove-ne-sleeping task mv) h.sleeps;
    left = h.left;
  }
  Step-IsLeftOut (notifies_caller k l lk wk ll cl) h = absurd (cc (h.left k lk))
  Step-IsLeftOut (notifies_no_caller k lt e no_one) h = absurd (cc (h.left k lt))
  Step-IsLeftOut (notifies_worker l k ll cl lk wk) h = absurd (cc (h.left k lk))
  Step-IsLeftOut {j} {task} {s} (notifies_no_worker k lt e no_one) h = record {
    sleeps = update-other_caller s.caller k j idle task (λ z. cc) h.sleeps;
    left = h.left;
  }
  Step-IsLeftOut (wakes k sp lt e) h = absurd (cc)
  Step-IsLeftOut (rouses k sp lt e) h = absurd (cc)
  Step-IsLeftOut (flags e) h = record { sleeps = h.sleeps; left = h.left }
  Step-IsLeftOut (notifies_all e) h = record {
    sleeps = h.sleeps;
    left = λ i lt. ap wake (h.left i lt);
  }
  Step-IsLeftOut (joins e all) h = record { sleeps = h.sleeps; left = h.left }
  Step-IsLeftOut (cleans e free) h = record { sleeps = h.sleeps; left = h.left }

  -- A caller that sleeps because the queue was full, when every worker has left, sleeps for ever,
  -- unless sleepers wake for no reason: stopping the pool does not notify it.
  pub caller-IsLeftOut :
      {n c j : ℕ} {task : T} {s : System T} {k : ℕ} {t : System T}
      → Steps false n c s k t
      → IsLeftOut n j task s
      → IsLeftOut n j task t
  caller-IsLeftOut here h = h
  caller-IsLeftOut (next r st) h = Step-IsLeftOut st (caller-IsLeftOut r h)
