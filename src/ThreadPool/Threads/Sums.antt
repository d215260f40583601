-- ===== src/ThreadPool/Threads/Sums.antt =====
-- Sums over the threads of easyrpc/base/thread_pool.hpp.
use easyrpc.Prelude.{ℕ, zero, suc, ◌+◌, ◌*◌, ◌<◌, ◌≤◌, ◌≡◌, refl, arith}
use native.Mathlib.Decide.{dec_lt}
use easyrpc.ThreadPool.Threads.{update}

-- A weight, added up over the first threads, from thread 0 on.
module _ {A : Type 0} (w : A → ℕ) where
  pub total : ℕ → (ℕ → A) → ℕ
  total zero threads = 0
  total (suc rest) threads = w (threads 0) + total rest (λ k. threads (suc k))

  pub total-eq :
      (n : ℕ) (before after : ℕ → A)
      → ((k : ℕ) → w (after k) ≡ w (before k))
      → total n after ≡ total n before
  unfolding total
  total-eq zero before after same = refl
  total-eq (suc n) before after same =
      omega
        (arith, same 0, total-eq n (λ k. before (suc k)) (λ k. after (suc k)) (λ k. same (suc k)))

  -- A step of one thread changes the sum by what it changes the weight of this thread.
  pub total-update :
      (n : ℕ) (threads : ℕ → A) (i : ℕ) (moved : A)
      → i < n
      → w (threads i) + total n (update threads i moved) ≡ w moved + total n threads
  unfolding total
  total-update zero threads i moved lt = absurd (omega arith)
  total-update (suc n) threads zero moved lt = omega (
    arith,
    total-eq n (λ k. threads (suc k)) (λ k. update threads 0 moved (suc k)) (λ k. ground arith),
  )
  total-update (suc n) threads (suc i) moved lt =
      let front : w (update threads (suc i) moved 0) ≡ w (threads 0) = ground arith in
      omega (
        arith,
        total-update n (λ k. threads (suc k)) i moved (omega arith),
        total-eq n (update (λ k. threads (suc k)) i moved)
            (λ k. update threads (suc i) moved (suc k)) (λ k. ground arith),
      )

  pub total-le :
      (n : ℕ) (before after : ℕ → A)
      → ((k : ℕ) → w (after k) ≤ w (before k))
      → total n after ≤ total n before
  unfolding total
  total-le zero before after less = omega arith
  total-le (suc n) before after less =
      omega
        (arith, less 0, total-le n (λ k. before (suc k)) (λ k. after (suc k)) (λ k. less (suc k)))

  pub total-le_mul :
      (bound : ℕ)
      → ((a : A) → w a ≤ bound)
      → (n : ℕ) (threads : ℕ → A) → total n threads ≤ bound * n
  unfolding total
  total-le_mul bound small zero threads = omega arith
  total-le_mul bound small (suc n) threads =
      omega (arith, small (threads 0), total-le_mul bound small n (λ k. threads (suc k)))

  pub le-total : (n : ℕ) (threads : ℕ → A) (i : ℕ) → i < n → w (threads i) ≤ total n threads
  unfolding total
  le-total zero threads i lt = absurd (omega arith)
  le-total (suc n) threads zero lt = omega arith
  le-total (suc n) threads (suc i) lt =
      omega (arith, le-total n (λ k. threads (suc k)) i (omega arith))

  -- Where the sum is positive, some thread has a positive weight.
  pub total-lt :
      (n : ℕ) (threads : ℕ → A) → 0 < total n threads → (i : ℕ) × (i < n) × (0 < w (threads i))
  unfolding total
  total-lt zero threads positive = absurd (omega arith)
  total-lt (suc n) threads positive = elim (dec_lt 0 (w (threads 0))) [
    | yes front ↦ (0, omega arith, front)
    | no none ↦
        let (i, lt, later) = total-lt n (λ k. threads (suc k)) (omega arith) in
        (suc i, omega arith, later)
  ]

  pub total-eq_zero :
      (n : ℕ) (threads : ℕ → A) → ((k : ℕ) → w (threads k) ≡ 0) → total n threads ≡ 0
  unfolding total
  total-eq_zero zero threads light = refl
  total-eq_zero (suc n) threads light =
      omega (arith, light 0, total-eq_zero n (λ k. threads (suc k)) (λ k. light (suc k)))
