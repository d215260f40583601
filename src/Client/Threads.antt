-- ===== src/Client/Threads.antt =====
-- A client whose timeout is set once it runs (easyrpc/client/client.hpp,
-- easyrpc/client/rpc_session.hpp).
use easyrpc.Prelude.{ℕ, ◌≡◌, ◌≢◌, refl, ◌∙◌, true, List, [], ◌∷◌, Bytes}
use easyrpc.Prelude.Exec.{Exec, Result, lift, pure, ◌>>=◌, ◌>>◌}
use easyrpc.Prelude.Outcome.{done, fault}
use easyrpc.Header.{ByteOrder, raw, non_raw}
use easyrpc.ScopeGuard.{make_guard, with_guard}
use easyrpc.Asio.{Asio, AsioLaws}
use easyrpc.EasyPack.{EasyPack}
use easyrpc.RpcSession
use easyrpc.RpcSession.{RpcSession, no_thread, start_timer}
use easyrpc.RpcSession.Threads.{
  SameThreads, Keeps, bind-Keeps, call-Keeps, connect-Keeps, disconnect-SameThreads, run_untimed,
  run_twice, start_timer-is_armed,
}
use easyrpc.Client.{
  ProtocolDefine, timeout, run, connected, call, call_void, call_raw, call_raw_one_way, pack,
  unpack,
}

-- What a program does with a client that runs: it sets a timeout, or calls.
pub data Use (p : EasyPack) : Type 0 where
  sets_timeout : ℕ → Use p
  calls : ProtocolDefine p → p.Ty → List p.Value → Use p
  calls_void : ProtocolDefine p → List p.Value → Use p
  calls_raw calls_raw_one_way : Bytes → Bytes → Use p

module _ {a : Asio} {p : EasyPack} where
  -- The program goes on after an exception.
  unfoldable pub use_client : ByteOrder → Use p → RpcSession a → RpcSession a
  use_client o (sets_timeout n) s = timeout n s
  use_client o (calls protocol ty args) s = (call o protocol ty args s).1
  use_client o (calls_void protocol args) s = (call_void o protocol args s).1
  use_client o (calls_raw protocol body) s = (call_raw o protocol body s).1
  use_client o (calls_raw_one_way protocol body) s = (call_raw_one_way o protocol body s).1

  unfoldable pub use_all : ByteOrder → List (Use p) → RpcSession a → RpcSession a
  use_all o [] s = s
  use_all o (x ∷ xs) s = use_all o xs (use_client o x s)

module _ {a : Asio} where
  connected-Keeps : {A : Type 0} (m : Exec (RpcSession a) A) → Keeps m → Keeps (connected m)
  unfolding connected
  connected-Keeps m h =
      bind-Keeps RpcSession.connect (λ u. with_guard (make_guard RpcSession.disconnect) m)
        connect-Keeps
        (λ u s.
          let (one, two) = h s in
          let (three, four) = disconnect-SameThreads (m s).1 in (three ∙ one, four ∙ two))

  -- A call of which only the packing of the arguments and the use of the answer are open.
  packed-Keeps :
      {A : Type 0} (o : ByteOrder) (name : Bytes) (packed : Result Bytes)
      (f : Bytes → Exec (RpcSession a) A)
      → ((ret : Bytes) → Keeps (f ret))
      → Keeps (do bytes ← lift packed; ret ← RpcSession.call o name non_raw bytes; f ret)
  packed-Keeps o name packed f h =
      bind-Keeps (lift packed) (λ bytes. RpcSession.call o name non_raw bytes >>= f)
        (λ s. (refl, refl))
        (λ bytes.
          bind-Keeps (RpcSession.call o name non_raw bytes) f (call-Keeps o name non_raw bytes) h)

module _ {a : Asio} {p : EasyPack} where
  use_client-SameThreads :
      (o : ByteOrder) (x : Use p) (s : RpcSession a) → SameThreads s (use_client o x s)
  unfolding use_client timeout RpcSession.timeout call call_void call_raw call_raw_one_way
  use_client-SameThreads o (sets_timeout n) s = (refl, refl)
  use_client-SameThreads o (calls protocol ty args) s =
      connected-Keeps
        (do
          packed ← lift (pack p args)
          ret ← RpcSession.call o protocol.name non_raw packed
          lift (unpack p ty ret))
        (packed-Keeps o protocol.name (pack p args) (λ ret. lift (unpack p ty ret))
          (λ ret s. (refl, refl)))
        s
  use_client-SameThreads o (calls_void protocol args) s =
      connected-Keeps
        (do packed ← lift (pack p args); RpcSession.call o protocol.name non_raw packed; pure tt)
        (packed-Keeps o protocol.name (pack p args) (λ ret. pure tt) (λ ret s. (refl, refl))) s
  use_client-SameThreads o (calls_raw protocol body) s =
      connected-Keeps (RpcSession.call o protocol raw body) (call-Keeps o protocol raw body) s
  use_client-SameThreads o (calls_raw_one_way protocol body) s =
      connected-Keeps (RpcSession.call o protocol raw body >> pure tt)
        (bind-Keeps (RpcSession.call o protocol raw body) (λ ret. pure tt)
          (call-Keeps o protocol raw body) (λ ret s. (refl, refl)))
        s

  use_all-SameThreads :
      (o : ByteOrder) (xs : List (Use p)) (s : RpcSession a) → SameThreads s (use_all o xs s)
  unfolding use_all
  use_all-SameThreads o [] s = (refl, refl)
  use_all-SameThreads o (x ∷ xs) s =
      let (one, two) = use_client-SameThreads o x s in
      let (three, four) = use_all-SameThreads o xs (use_client o x s) in (three ∙ one, four ∙ two)

  -- A session that has no timeout and no thread for its timer is run, and afterwards the client only
  -- sets timeouts and calls, in any order and whether the calls fail or not; it is not stopped. If the
  -- timeout in the end is not 0, then there is still no thread for the timer, a read arms a deadline
  -- that no thread waits for, and to run the client again ends the program.
  pub run_before_timeout :
      (laws : AsioLaws a) (o : ByteOrder) (xs : List (Use p)) (s s' : RpcSession a)
      → s.timeout_milli ≡ 0
      → s.timer_thread ≡ no_thread
      → run s ≡ done s'
      → (use_all o xs s').timeout_milli ≢ 0
      → ((use_all o xs s').timer_thread ≡ no_thread)
        × (a.is_armed (start_timer (use_all o xs s')).timer.timer ≡ true)
        × (run (use_all o xs s') ≡ fault)
  unfolding run
  run_before_timeout laws o xs s s' untimed none_ ran timed =
      let (started, kept) = run_untimed s s' untimed ran in
      let (same, same_timer) = use_all-SameThreads o xs s' in
      (
        same_timer ∙ kept ∙ none_,
        start_timer-is_armed laws (use_all o xs s') timed,
        run_twice (use_all o xs s') (same ∙ started),
      )
