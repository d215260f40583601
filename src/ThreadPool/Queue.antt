-- ===== src/ThreadPool/Queue.antt =====
-- The queue of the pool and its history (easyrpc/base/thread_pool.hpp).
use easyrpc.Prelude.{
  ◌≡◌, ◌≢◌, refl, ◌⊎◌, inl, inr, false, List, [], ◌∷◌, ◌++◌, length, arith, if◌then◌else◌,
}
use easyrpc.Prelude.Outcome.{Outcome, done, waits, fault}
use easyrpc.ThreadPool.{
  ThreadPool, Round, exits, takes, add_task, run_task, stop, destroy, max_task_queue_size,
}

module _ {T : Type 0} where
  -- A running pool with tasks gives the first of them to a worker.
  pub run_task-takes :
      (p : ThreadPool T) (task : T) (rest : List T)
      → p.is_stopped ≡ false
      → p.task_queue ≡ task ∷ rest
      → run_task p ≡ done (takes task (record p { task_queue = rest }))
  unfolding run_task
  run_task-takes p task rest runs e = ground arith

  -- A running pool without tasks leaves the worker asleep.
  pub run_task-waits :
      (p : ThreadPool T) → p.is_stopped ≡ false → p.task_queue ≡ [] → run_task p ≡ waits
  unfolding run_task
  run_task-waits p runs e = ground arith

module _ {T : Type 0} where
  -- The destructor does nothing to a pool that was stopped by hand.
  destroy-stop : (p : ThreadPool T) → destroy (stop p) ≡ stop p
  unfolding destroy stop
  destroy-stop p = ground arith

pub List-cases : {A : Type 0} (xs : List A) → (xs ≡ []) ⊎ ((x : A) × (r : List A) × (xs ≡ x ∷ r))
List-cases [] = inl refl
List-cases (x ∷ xs) = inr (x, xs, refl)

-- What may happen to a pool: a caller adds a task, a worker asks for one, the pool is stopped. Each
-- is one whole operation here, with no other thread between its test of the flag and its lock; in
-- ThreadPool.Threads they are steps of their own.
pub data Event (T : Type 0) : Type 0 where
  adds : T → Event T
  works stops : Event T

-- A pool with its history: the tasks that were queued, that workers took, and that `stop` threw
-- away, each in order.
pub record History (T : Type 0) : Type 0 where
  pub pool : ThreadPool T
  pub queued : List T
  pub taken : List T
  pub dropped : List T

module _ {T : Type 0} where
  after_add : T → History T → Outcome (ThreadPool T) → History T
  after_add task h (done p) =
      if h.pool.is_stopped
      then record h { pool = p }
      else record h { pool = p; queued = h.queued ++ task ∷ [] }
  after_add task h waits = h
  after_add task h fault = h

  after_work : History T → Outcome (Round T) → History T
  after_work h (done (takes task p)) = record h { pool = p; taken = h.taken ++ task ∷ [] }
  after_work h (done exits) = h
  after_work h waits = h
  after_work h fault = h

  -- A caller or a worker that has to wait changes nothing.
  pub happen : Event T → History T → History T
  unfolding after_add after_work
  happen (adds task) h = after_add task h (add_task task h.pool)
  happen works h = after_work h (run_task h.pool)
  happen stops h = record h { pool = stop h.pool; dropped = h.dropped ++ h.pool.task_queue }

  pub happen_all : List (Event T) → History T → History T
  happen_all [] h = h
  happen_all (x ∷ xs) h = happen_all xs (happen x h)

  pub happen-adds :
      (task : T) (h : History T)
      → h.pool.is_stopped ≡ false
      → length h.pool.task_queue ≢ max_task_queue_size
      → happen (adds task) h ≡ record h {
        pool = record h.pool { task_queue = h.pool.task_queue ++ task ∷ [] };
        queued = h.queued ++ task ∷ [];
      }
  unfolding happen after_add add_task
  happen-adds task h runs room = ground arith

  pub happen-works :
      (task : T) (rest : List T) (h : History T)
      → h.pool.is_stopped ≡ false
      → h.pool.task_queue ≡ task ∷ rest
      → happen works h
        ≡ record h { pool = record h.pool { task_queue = rest }; taken = h.taken ++ task ∷ [] }
  unfolding happen after_work
  happen-works task rest h runs e = rw (run_task-takes h.pool task rest runs e)

  pub happen_all_one : (x : Event T) (h : History T) → happen_all (x ∷ []) h ≡ happen x h
  unfolding happen_all
  happen_all_one x h = refl

  pub happen_all_none : (h : History T) → happen_all [] h ≡ h
  unfolding happen_all
  happen_all_none h = refl

  pub happen_all-append :
      (xs ys : List (Event T)) (h : History T)
      → happen_all (xs ++ ys) h ≡ happen_all ys (happen_all xs h)
  unfolding happen_all
  happen_all-append [] ys h = refl
  happen_all-append (x ∷ xs) ys h = happen_all-append xs ys (happen x h)
