-- ===== src/RpcSession/Threads.antt =====
-- The threads of a session (easyrpc/client/rpc_session.hpp, `run`), which no call touches.
use easyrpc.Prelude.{◌≡◌, ◌≢◌, refl, ◌∙◌, Bytes, arith, inl, inr, true}
use easyrpc.Prelude.Exec.{Exec, ◌>>=◌, Result-cases}
use easyrpc.Prelude.Outcome.{done, fault}
use easyrpc.Header.{ByteOrder, CallMode}
use easyrpc.Asio.{Asio, AsioLaws}
use easyrpc.RpcSession.{
  RpcSession, joinable, start_thread, run_timer, run, start_timer, stop_timer, disconnect, connect,
  write, write_impl, read, read_head, check_head, read_body, call,
}

module _ {a : Asio} where
  abbrev pub SameThreads : RpcSession a → RpcSession a → Type 0
  SameThreads s s' = (s'.thread ≡ s.thread) × (s'.timer_thread ≡ s.timer_thread)

  -- Whatever comes of it, the threads stay.
  abbrev pub Keeps : {A : Type 0} → Exec (RpcSession a) A → Type 0
  Keeps m = (s : RpcSession a) → SameThreads s (m s).1

  pub bind-Keeps :
      {A B : Type 0} (m : Exec (RpcSession a) A) (f : A → Exec (RpcSession a) B)
      → Keeps m
      → ((x : A) → Keeps (f x))
      → Keeps (m >>= f)
  bind-Keeps m f hm hf s = elim (Result-cases (m s).0) [
    | inr (x, e) ↦ rw e (hm s)
    | inl (x, e) ↦
        let (one, two) = hm s in let (three, four) = hf x (m s).1 in rw e (three ∙ one, four ∙ two)
  ]

  read-Keeps : (o : ByteOrder) → Keeps (read o)
  unfolding read read_head check_head read_body start_timer stop_timer
  read-Keeps o s = ground arith

  write-Keeps :
      (o : ByteOrder) (protocol : Bytes) (mode : CallMode) (body : Bytes)
      → Keeps (write {a = a} o protocol mode body)
  unfolding write write_impl
  write-Keeps o protocol mode body s = ground arith

  pub call-Keeps :
      (o : ByteOrder) (protocol : Bytes) (mode : CallMode) (body : Bytes)
      → Keeps (call {a = a} o protocol mode body)
  unfolding call
  call-Keeps o protocol mode body =
      bind-Keeps (write o protocol mode body) (λ u. read o) (write-Keeps o protocol mode body)
        (λ u. read-Keeps o)

  pub connect-Keeps : Keeps (connect {a = a})
  unfolding connect
  connect-Keeps s = (refl, refl)

  pub disconnect-SameThreads : (s : RpcSession a) → SameThreads s (disconnect s)
  unfolding disconnect
  disconnect-SameThreads s = ground arith

  -- A session without a timeout gets no thread for its timer.
  pub run_untimed :
      (s s' : RpcSession a)
      → s.timeout_milli ≡ 0
      → run s ≡ done s'
      → (s'.thread ≡ joinable) × (s'.timer_thread ≡ s.timer_thread)
  unfolding run run_timer start_thread
  run_untimed s s' untimed ran = ground arith

  pub run_twice : (s : RpcSession a) → s.thread ≡ joinable → run s ≡ fault
  unfolding run start_thread
  run_twice s e = rw e

  pub start_timer-is_armed :
      (laws : AsioLaws a) (s : RpcSession a)
      → s.timeout_milli ≢ 0
      → a.is_armed (start_timer s).timer.timer ≡ true
  unfolding start_timer
  start_timer-is_armed laws s h = ground (arith, laws.arm_arms s.timeout_milli s.timer.timer)
