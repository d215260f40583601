-- ===== src/Server/Run.antt =====
-- Starting a server (easyrpc/server/server.hpp, the constructor and `run`).
use easyrpc.Prelude.{
  ℕ, ◌+◌, ◌<◌, ◌≤◌, ◌≡◌, ◌⊎◌, refl, ap, inl, inr, some, ◌++◌, Bytes, length, arith, Option-cases,
  none, codes, ◌↔◌,
}
use easyrpc.Prelude.Exec.{Exception, invalid_argument, ok, throw, Result-cases}
use easyrpc.Asio.{Asio}
use easyrpc.EasyPack.{EasyPack}
use easyrpc.ThreadPool
use easyrpc.ThreadPool.{max_thread_size}
use easyrpc.Router
use easyrpc.Router.{Router}
use easyrpc.IoServicePool
use easyrpc.IoServicePool.{IoServicePool, get_io_service}
use easyrpc.IoServicePool.RoundRobin.{IsPool, create-IsPool, get_io_service-IsPool}
use native.Mathlib.Decide.{ℕ_discrete, dec_le}
use easyrpc.Server.{
  listen_ip_port, timeout, multithreaded, Server, App, create, open_acceptor, accept, run,
  make_connection,
}

-- How many workers a server asks for, within what the pool takes.
abbrev pub Takes : ℕ → Type 0
Takes num = (0 < num) × (num ≤ max_thread_size)

taken : (num : ℕ) → Takes num ⊎ ((num ≡ 0) ⊎ (max_thread_size < num))
taken num = elim (dec_le num max_thread_size) [
  | no many ↦ inr (inr (omega arith))
  | yes few ↦ elim (ℕ_discrete num 0) [ yes z ↦ inr (inl z) | no more ↦ inl (omega arith, few) ]
]

module _ {a : Asio} where
  -- A server is made, unless the machine reports no concurrency.
  created :
      (hardware : ℕ)
      → 0 < hardware
      → (s : Server a) × (create hardware ≡ ok s)
        × IsPool s.ios_pool
        × (s.acceptor ≡ a.new_acceptor)
        × (length s.ios_pool.ios_vec ≡ hardware)
  unfolding create get_io_service
  created hardware pos =
      let (pool, made, v, size) = create-IsPool (λ i. i) hardware pos in
      (
        record {
          ios_pool = (get_io_service pool).1;
          acceptor = a.new_acceptor;
          ip = codes "0.0.0.0";
          port = 50051;
          timeout_milli = 0;
          thread_num = 1;
          accepting = none;
        },
        rw (create, made),
        (get_io_service-IsPool pool v).0,
        refl,
        size,
      )

module _ {p : EasyPack} {W C : Type 0} where
  abbrev pub with_threads : ℕ → Router p W C → Router p W C
  with_threads num r = record r {
    threadpool = record r.threadpool { threads = r.threadpool.threads + num };
  }

  multithreaded_starts :
      (num : ℕ) (r : Router p W C)
      → 0 < num
      → num ≤ max_thread_size
      → Router.multithreaded num r ≡ (ok tt, with_threads num r)
  unfolding Router.multithreaded ThreadPool.init_thread_num
  multithreaded_starts num r lo hi = ground arith

  multithreaded_refuses :
      (num : ℕ) (r : Router p W C)
      → (num ≡ 0) ⊎ (max_thread_size < num)
      → Router.multithreaded num r
        ≡ (throw (invalid_argument "Number of threads in the range of 1 to 30"), r)
  unfolding Router.multithreaded ThreadPool.init_thread_num
  multithreaded_refuses num r why = ground arith

module _ {a : Asio} {p : EasyPack} {W C : Type 0} where
  -- A server after its `listen`, `timeout` and `multithreaded`.
  abbrev pub configured : ℕ → ℕ → ℕ → Bytes → Server a → Router p W C → App a p W C
  configured num port timeout_milli ip s r = record {
    server = multithreaded num (timeout timeout_milli (listen_ip_port ip port s));
    router = r;
  }

  -- The workers are started, the address is listened on, a connection is waited for, and every
  -- io_service of the pool is run.
  pub run_starts :
      (s : App a p W C) (acceptor : a.Acceptor)
      → IsPool s.server.ios_pool
      → 0 < s.server.thread_num
      → s.server.thread_num ≤ max_thread_size
      → a.listen s.server.ip s.server.port s.server.acceptor ≡ (ok tt, acceptor)
      → ((run s).0 ≡ ok tt)
        × ((run s).1.router ≡ with_threads s.server.thread_num s.router)
        × ((run s).1.server.ios_pool.ran ≡ s.server.ios_pool.ran ++ s.server.ios_pool.ios_vec)
        × ((ios : ℕ) × ((run s).1.server.accepting
              ≡ some (some ios, make_connection s.server.timeout_milli)))
  unfolding run open_acceptor accept IoServicePool.run get_io_service
  run_starts s acceptor v lo hi listens =
      rw (multithreaded_starts s.server.thread_num s.router lo hi, listens)
        (
          refl,
          refl,
          refl,
          elim (Option-cases (get_io_service s.server.ios_pool).0) [
            | inl e ↦ absurd ((get_io_service-IsPool s.server.ios_pool v).1 e)
            | inr (ios, e) ↦ (ios, ap (λ i. some (i, make_connection s.server.timeout_milli)) e)
          ],
        )

  run_returns :
      (s : App a p W C)
      → 0 < s.server.thread_num
      → s.server.thread_num ≤ max_thread_size
      → (a.listen s.server.ip s.server.port s.server.acceptor).0 ≡ ok tt
      → (run s).0 ≡ ok tt
  unfolding run open_acceptor
  run_returns s lo hi listens =
      rw (multithreaded_starts s.server.thread_num s.router lo hi, listens)

  -- A number of workers that the pool refuses: nothing is started, and nothing changes.
  pub run_refuses :
      (s : App a p W C)
      → (s.server.thread_num ≡ 0) ⊎ (max_thread_size < s.server.thread_num)
      → run s ≡ (throw (invalid_argument "Number of threads in the range of 1 to 30"), s)
  unfolding run
  run_refuses s why = rw (multithreaded_refuses s.server.thread_num s.router why)

  pub run_unheard :
      (s : App a p W C) (x : Exception)
      → 0 < s.server.thread_num
      → s.server.thread_num ≤ max_thread_size
      → (a.listen s.server.ip s.server.port s.server.acceptor).0 ≡ throw x
      → run s ≡ (
        throw x,
        record {
          server = record s.server {
            acceptor = (a.listen s.server.ip s.server.port s.server.acceptor).1;
          };
          router = with_threads s.server.thread_num s.router;
        },
      )
  unfolding run open_acceptor
  run_unheard s x lo hi fails = rw (multithreaded_starts s.server.thread_num s.router lo hi, fails)

  -- `run` throws an exception exactly when it refuses the number of workers, which is not between 1
  -- and 30, and the exception says so, or when it takes that number and the acceptor throws the
  -- exception.
  pub run_throws_iff :
      (s : App a p W C) (x : Exception)
      → ((run s).0 ≡ throw x) ↔ (
          (((s.server.thread_num ≡ 0) ⊎ (max_thread_size < s.server.thread_num))
            × (x ≡ invalid_argument "Number of threads in the range of 1 to 30"))
          ⊎ (Takes s.server.thread_num
              × ((a.listen s.server.ip s.server.port s.server.acceptor).0 ≡ throw x)))
  run_throws_iff s x = elim (taken s.server.thread_num) [
    | inr why ↦ rw (run_refuses s why) (
      λ e. inl (why, cc),
      λ either. elim either [ inl (_, e) ↦ rw e | inr ((lo, hi), _) ↦ absurd (omega arith) ],
    )
    | inl (lo, hi) ↦ elim (Result-cases (a.listen s.server.ip s.server.port s.server.acceptor).0) [
      | inl (u, e) ↦
          rw (run_returns s lo hi e, e)
            (
              λ never. absurd cc,
              λ either. elim either [
                | inl (why, _) ↦ absurd (omega arith)
                | inr (_, never) ↦ absurd cc
              ],
            )
      | inr (y, e) ↦
          rw (run_unheard s y lo hi e, e)
            (
              λ same. inr ((lo, hi), same),
              λ either. elim either [ inl (why, _) ↦ absurd (omega arith) | inr (_, same) ↦ same ],
            )
    ]
  ]

  -- On a machine that reports its concurrency, a server is made; given an address that the acceptor
  -- takes, a timeout and a number of workers between 1 and 30, its `run` returns, with that many
  -- workers started, with a thread for each io_service, one for each unit of concurrency, and with a
  -- connection of that timeout waited for on one of them.
  pub server_starts :
      (hardware num port timeout_milli : ℕ) (ip : Bytes) (r : Router p W C) (acceptor : a.Acceptor)
      → 0 < hardware
      → 0 < num
      → num ≤ max_thread_size
      → a.listen ip port a.new_acceptor ≡ (ok tt, acceptor)
      → (s : Server a) × (create hardware ≡ ok s)
        × (length s.ios_pool.ios_vec ≡ hardware)
        × ((run (configured num port timeout_milli ip s r)).0 ≡ ok tt)
        × ((run (configured num port timeout_milli ip s r)).1.router ≡ with_threads num r)
        × ((run (configured num port timeout_milli ip s r)).1.server.ios_pool.ran
            ≡ s.ios_pool.ran ++ s.ios_pool.ios_vec)
        × ((ios : ℕ) × ((run (configured num port timeout_milli ip s r)).1.server.accepting
              ≡ some (some ios, make_connection timeout_milli)))
  unfolding listen_ip_port timeout multithreaded
  server_starts hardware num port timeout_milli ip r acceptor some_ lo hi listens =
      let (s, made, v, fresh, size) = created hardware some_ in
      let (returns, workers, runs, accepts) =
        run_starts (configured num port timeout_milli ip s r) acceptor v lo hi (rw fresh listens) in
      (s, made, size, returns, workers, runs, accepts)
