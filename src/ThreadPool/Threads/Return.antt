-- ===== src/ThreadPool/Threads/Return.antt =====
-- How `stop` comes to its end (easyrpc/base/thread_pool.hpp).
use easyrpc.Prelude.{ℕ, zero, suc, ◌<◌, ◌≤◌, ◌≡◌, ◌⊎◌, inl, inr, Bool, true, arith}
use easyrpc.ThreadPool.Threads.{stopped, System, Steps, here, next, fresh}
use easyrpc.ThreadPool.Threads.Lock.{LockInv, Step-LockInv, Steps-LockInv, fresh-LockInv}
use easyrpc.ThreadPool.Threads.Rest.{rank, Step-rank}
use easyrpc.ThreadPool.Threads.Progress.{Awake, Step-wakes, progress}

module _ {T : Type 0} where
  -- Steps are found, one after the other, until `stop` has returned; the rank goes down.
  return_steps :
      {sp : Bool} {n c : ℕ} (fuel : ℕ) {r : System T} {k : ℕ} (s : System T)
      → Steps sp n c r k s
      → rank n c s ≤ fuel
      → LockInv n c s
      → s.mem.is_stopped ≡ true
      → (sp ≡ true) ⊎ ((i : ℕ) → i < n → Awake (s.worker i))
      → (k' : ℕ) × (t : System T) × Steps sp n c r k' t × (t.stopper ≡ stopped)
  return_steps {sp} {n} {c} zero {r} {k} s steps few v flag awake =
      elim (progress {sp = sp} s v flag awake) [
        | inl (t, st) ↦ absurd (omega (arith, (Step-rank st flag).1))
        | inr e ↦ (k, s, steps, e)
      ]
  return_steps {sp} {n} {c} (suc fuel) {r} {k} s steps few v flag awake =
      elim (progress {sp = sp} s v flag awake) [
        | inl (t, st) ↦
            let (flag', less) = Step-rank st flag in
            return_steps fuel t (next steps st) (omega arith) (Step-LockInv st v) flag'
              (Step-wakes st flag awake)
        | inr e ↦ (k, s, steps, e)
      ]

  -- In any state that a fresh pool comes to, if the flag of `stop` is set, and if no worker sleeps in
  -- `task_get_.wait` or is about to, or sleepers may wake for no reason, `stop` can return: there are
  -- further steps, in the end of which it has. Nothing is asked of the callers.
  pub stop_returns :
      {sp : Bool} {n c k : ℕ} {s : System T}
      → Steps sp n c fresh k s
      → s.mem.is_stopped ≡ true
      → (sp ≡ true) ⊎ ((i : ℕ) → i < n → Awake (s.worker i))
      → (k' : ℕ) × (t : System T) × Steps sp n c s k' t × (t.stopper ≡ stopped)
  stop_returns {n} {c} {s} steps flag awake =
      return_steps (rank n c s) s here (omega arith) (Steps-LockInv steps (fresh-LockInv T n c))
        flag awake
