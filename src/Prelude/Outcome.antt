-- ===== src/Prelude/Outcome.antt =====
-- How a call ends that may wait for another thread, or leave the memory that it may touch.

-- `waits`: the caller sleeps on a condition variable. `fault`: undefined behaviour, such as a read
-- outside of a buffer or through a dangling reference, or a call of std::terminate.
pub data Outcome {ℓ} (A : Type ℓ) : Type ℓ where
  done : A → Outcome A
  waits fault : Outcome A

module _ {ℓ} {A B : Type ℓ} where
  infixl 10 ◌>>=◌
  abbrev pub ◌>>=◌ : Outcome A → (A → Outcome B) → Outcome B
  done a >>= f = f a
  waits >>= f = waits
  fault >>= f = fault
