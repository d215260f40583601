-- ===== src/ThreadPool/Threads/Progress.antt =====
-- What can step once the pool is stopped (easyrpc/base/thread_pool.hpp).
use easyrpc.Prelude.{
  ℕ, zero, suc, ◌<◌, ◌≡◌, ◌≢◌, ◌⊎◌, inl, inr, refl, Bool, true, false, ◌==◌, Bool-cases, arith,
}
use easyrpc.ThreadPool.Queue.{List-cases}
use native.Mathlib.Decide.{dec_lt}
use easyrpc.ThreadPool.Threads.{
  Worker, outside, at_get, about_to_wait, asleep, woken, holding, running, ran, exited, Caller,
  idle, at_put, about_to_sleep, sleeping, Stopper, not_called, flagged, joining, cleaning, stopped,
  Mem, System, update, wake, WorkerMove, lock_get, relock_get, see_empty, see_task, see_stop, wait,
  leave, run, CallerMove, sleep, emplace, Step, works, calls, notifies_caller, notifies_no_caller,
  notifies_worker, notifies_no_worker, wakes, rouses, flags, notifies_all, joins, cleans,
}
use easyrpc.ThreadPool.Threads.Sums.{total, total-lt}
use easyrpc.ThreadPool.Threads.Lock.{LockInv, worker_holds, caller_holds}

-- A thread of a kind, or all of the other.
find_or_all :
    {A : Type 0} (P Q : A → Type 0)
    → ((a : A) → P a ⊎ Q a)
    → (n : ℕ) (f : ℕ → A) → ((i : ℕ) × (i < n) × P (f i)) ⊎ ((i : ℕ) → i < n → Q (f i))
find_or_all P Q dec zero f = inr (λ i lt. absurd (omega arith))
find_or_all P Q dec (suc n) f = elim (dec (f n)) [
  | inl top ↦ inl (n, omega arith, top)
  | inr last ↦ elim (find_or_all P Q dec n f) [
    | inl (i, lt, low) ↦ inl (i, omega arith, low)
    | inr all ↦ inr (λ i lt. elim (dec_lt i n) [
      | yes below ↦ all i below
      | no high ↦ let e : i ≡ n = omega arith in rw e last
    ])
  ]
]

module _ {T : Type 0} where
  -- A worker that no notification is needed for.
  abbrev pub Awake : Worker T → Type 0
  Awake w = (w ≢ asleep) × (w ≢ about_to_wait)

  WorkerMove-Awake :
      {m m' : Mem T} {w w' : Worker T}
      → WorkerMove m w m' w'
      → m.is_stopped ≡ true
      → Awake w
      → Awake w'
  WorkerMove-Awake (see_empty empty runs) e a = absurd (cc)
  WorkerMove-Awake wait e a = absurd (a.1 refl)
  WorkerMove-Awake mv e a = (λ z. cc, λ z. cc)

  update-Awake :
      (f : ℕ → Worker T) (i k : ℕ) (w : Worker T) → Awake w → Awake (f k) → Awake (update f i w k)
  update-Awake f i k w a b = elim (Bool-cases (i == k)) [ inl e ↦ rw e a | inr e ↦ rw e b ]

  wake-Awake : (w : Worker T) → Awake w → Awake (wake w)
  wake-Awake asleep a = absurd (a.0 refl)
  wake-Awake outside a = a
  wake-Awake w a = a

  Step-Awake :
      {sp : Bool} {n c : ℕ} {s t : System T}
      → Step sp n c s t
      → s.mem.is_stopped ≡ true
      → ((i : ℕ) → i < n → Awake (s.worker i))
      → (i : ℕ) → i < n
      → Awake (t.worker i)
  Step-Awake {s} (works k {m} {w} lk mv) e a i lt =
      update-Awake s.worker k i w (WorkerMove-Awake mv e (a k lk)) (a i lt)
  Step-Awake (calls j lj mv) e a i lt = a i lt
  Step-Awake {s} (notifies_caller k j lk wk lj cj) e a i lt =
      update-Awake s.worker k i outside (λ z. cc, λ z. cc) (a i lt)
  Step-Awake {s} (notifies_no_caller k lk wk no_one) e a i lt =
      update-Awake s.worker k i outside (λ z. cc, λ z. cc) (a i lt)
  Step-Awake {s} (notifies_worker j k lj cj lk wk) e a i lt =
      update-Awake s.worker k i woken (λ z. cc, λ z. cc) (a i lt)
  Step-Awake (notifies_no_worker j lj cj no_one) e a i lt = a i lt
  Step-Awake {s} (wakes k sp lk wk) e a i lt =
      update-Awake s.worker k i woken (λ z. cc, λ z. cc) (a i lt)
  Step-Awake (rouses j sp lj cj) e a i lt = a i lt
  Step-Awake (flags at) e a i lt = a i lt
  Step-Awake {s} (notifies_all at) e a i lt = wake-Awake (s.worker i) (a i lt)
  Step-Awake (joins at all) e a i lt = a i lt
  Step-Awake (cleans at free) e a i lt = a i lt

  is_exited : (w : Worker T) → (w ≢ exited) ⊎ (w ≡ exited)
  is_exited exited = inr refl
  is_exited outside = inl (λ e. cc)
  is_exited w = inl (λ e. cc)

  is_sleeping :
      (w : Caller T) → ((task : T) × (w ≡ sleeping task)) ⊎ ((task : T) → w ≢ sleeping task)
  is_sleeping (sleeping task) = inl (task, refl)
  is_sleeping idle = inr (λ task e. cc)
  is_sleeping w = inr (λ task e. cc)

  worker-Step :
      {sp : Bool} {n c : ℕ} (s : System T) (i : ℕ) {w w' : Worker T} {m : Mem T}
      → i < n
      → s.worker i ≡ w
      → WorkerMove s.mem w m w'
      → (t : System T) × Step sp n c s t
  worker-Step s i {w} {w'} {m} lt e mv =
      (record s { mem = m; worker = update s.worker i w' }, works i {m = m} {w = w'} lt (rw e mv))

  caller-Step :
      {sp : Bool} {n c : ℕ} (s : System T) (j : ℕ) {w w' : Caller T} {m : Mem T}
      → j < c
      → s.caller j ≡ w
      → CallerMove s.mem w m w'
      → (t : System T) × Step sp n c s t
  caller-Step s j {w} {w'} {m} lt e mv =
      (record s { mem = m; caller = update s.caller j w' }, calls j {m = m} {w = w'} lt (rw e mv))

  -- After the flag a worker that is awake has a step, if it holds the mutex or the mutex is free.
  worker_can :
      {sp : Bool} {n c : ℕ} (s : System T) (i : ℕ) (w : Worker T)
      → i < n
      → s.worker i ≡ w
      → s.mem.is_stopped ≡ true
      → (sp ≡ true) ⊎ Awake w
      → w ≢ exited
      → (s.mem.is_locked ≡ false) ⊎ (0 < worker_holds w)
      → (t : System T) × Step sp n c s t
  worker_can s i outside lt e flag a ne (inl free) = worker-Step s i lt e (lock_get free)
  worker_can s i outside lt e flag a ne (inr h) = absurd (omega arith)
  worker_can s i woken lt e flag a ne (inl free) = worker-Step s i lt e (relock_get free)
  worker_can s i woken lt e flag a ne (inr h) = absurd (omega arith)
  worker_can s i at_get lt e flag a ne free = elim (List-cases s.mem.task_queue) [
    | inl empty ↦ worker-Step s i lt e (see_stop empty flag)
    | inr (task, rest, some_task) ↦ worker-Step s i lt e (see_task (λ z. cc))
  ]
  worker_can s i about_to_wait lt e flag a ne free = worker-Step s i lt e wait
  worker_can s i asleep lt e flag (inl any) ne free = (_, wakes i any lt e)
  worker_can s i asleep lt e flag (inr a) ne free = absurd (a.0 refl)
  worker_can s i holding lt e flag a ne free = worker-Step s i lt e (leave flag)
  worker_can s i (running task) lt e flag a ne free = worker-Step s i lt e run
  worker_can {c} s i ran lt e flag a ne free = elim (find_or_all _ _ is_sleeping c s.caller) [
    | inl (j, lj, (task, cj)) ↦ (_, notifies_caller i j lt e lj cj)
    | inr no_one ↦ (_, notifies_no_caller i lt e (λ j task lj. no_one j lj task))
  ]
  worker_can s i exited lt e flag a ne free = absurd (ne refl)

  caller_can :
      {sp : Bool} {n c : ℕ} (s : System T) (j : ℕ) (w : Caller T)
      → j < c
      → s.caller j ≡ w
      → s.mem.is_stopped ≡ true
      → 0 < caller_holds w
      → (t : System T) × Step sp n c s t
  caller_can s j (at_put task) lt e flag h = caller-Step s j lt e (emplace (inr flag))
  caller_can s j (about_to_sleep task) lt e flag h = caller-Step s j lt e sleep
  caller_can s j idle lt e flag h = absurd (omega arith)
  caller_can s j w lt e flag h = absurd (omega arith)

  stopper_can :
      {sp : Bool} {n c : ℕ} (s : System T) (x : Stopper)
      → s.stopper ≡ x
      → s.mem.is_locked ≡ false
      → ((i : ℕ) → i < n → s.worker i ≡ exited)
      → ((t : System T) × Step sp n c s t) ⊎ (x ≡ stopped)
  stopper_can s not_called e free all = inl (_, flags e)
  stopper_can s flagged e free all = inl (_, notifies_all e)
  stopper_can s joining e free all = inl (_, joins e all)
  stopper_can s cleaning e free all = inl (_, cleans e free)
  stopper_can s stopped e free all = inr refl

  holder-ne : (w : Worker T) → 0 < worker_holds w → w ≢ exited
  holder-ne w h e = ground arith

  -- What is known of worker `i`.
  worker_wakes :
      {sp : Bool} {n : ℕ} (workers : ℕ → Worker T) (i : ℕ)
      → i < n
      → (sp ≡ true) ⊎ ((i : ℕ) → i < n → Awake (workers i))
      → (sp ≡ true) ⊎ Awake (workers i)
  worker_wakes workers i lt (inl any) = inl any
  worker_wakes workers i lt (inr awake) = inr (awake i lt)

  pub Step-wakes :
      {sp : Bool} {n c : ℕ} {s t : System T}
      → Step sp n c s t
      → s.mem.is_stopped ≡ true
      → (sp ≡ true) ⊎ ((i : ℕ) → i < n → Awake (s.worker i))
      → (sp ≡ true) ⊎ ((i : ℕ) → i < n → Awake (t.worker i))
  Step-wakes st flag (inl any) = inl any
  Step-wakes st flag (inr awake) = inr (Step-Awake st flag awake)

  -- After the flag, if all workers are awake or may wake for no reason, something can step until
  -- `stop` has returned.
  pub progress :
      {sp : Bool} {n c : ℕ} (s : System T)
      → LockInv n c s
      → s.mem.is_stopped ≡ true
      → (sp ≡ true) ⊎ ((i : ℕ) → i < n → Awake (s.worker i))
      → ((t : System T) × Step sp n c s t) ⊎ (s.stopper ≡ stopped)
  progress {sp} {n} {c} s v flag awake = elim (Bool-cases s.mem.is_locked) [
    | inl locked ↦ inl (locked_can locked)
    | inr free ↦ elim (find_or_all _ _ is_exited n s.worker) [
      | inl (i, lt, ne) ↦ inl (
          worker_can s i (s.worker i) lt refl flag (worker_wakes s.worker i lt awake) ne (inl free))
      | inr all ↦ stopper_can s s.stopper refl free all
    ]
  ]
    where
      locked_can : s.mem.is_locked ≡ true → (t : System T) × Step sp n c s t
      locked_can locked = elim (dec_lt 0 (total worker_holds n s.worker)) [
        | yes some_worker ↦
            let (i, lt, h) = total-lt worker_holds n s.worker some_worker in
            worker_can s i (s.worker i) lt refl flag (worker_wakes s.worker i lt awake)
              (holder-ne (s.worker i) h) (inr h)
        | no none_ ↦
            let (j, lt, h) = total-lt caller_holds c s.caller (ground (arith, v)) in
            caller_can s j (s.caller j) lt refl flag h
      ]
