-- ===== src/Server/Retry.antt =====
-- A server whose `run` is called again after the address could not be listened on
-- (easyrpc/server/server.hpp, easyrpc/base/thread_pool.hpp).
use easyrpc.Prelude.{ℕ, zero, suc, ◌*◌, ◌≡◌, ap, ◌∙◌, arith}
use easyrpc.Prelude.Exec.{Exception, throw}
use easyrpc.Asio.{Asio}
use easyrpc.EasyPack.{EasyPack}
use easyrpc.Router.{Router}
use easyrpc.Server.{App, run}
use easyrpc.Server.Run.{Takes, with_threads, run_unheard}

module _ {p : EasyPack} {W C : Type 0} where
  with_threads-more :
      (n num : ℕ) (r : Router p W C)
      → with_threads (n * num) (with_threads num r) ≡ with_threads (suc n * num) r
  with_threads-more n num r =
      ap (λ k. record r { threadpool = record r.threadpool { threads = k } }) (omega arith)

module _ {a : Asio} {p : EasyPack} {W C : Type 0} where
  -- The program catches what `run` throws, and calls it again, `n` times in all.
  pub runs : ℕ → App a p W C → App a p W C
  runs zero s = s
  runs (suc n) s = runs n (run s).1

  -- If the acceptor throws an exception whenever it is to listen on the address of the server, and
  -- the number of workers is between 1 and 30, then each `run` starts that many workers and leaves
  -- them behind: after `n` runs there are `n` times as many more than before, with no bound, and the
  -- next `run` throws the exception again.
  pub run_retried :
      (n : ℕ) (s : App a p W C) (x : Exception)
      → Takes s.server.thread_num
      → ((acceptor : a.Acceptor) → (a.listen s.server.ip s.server.port acceptor).0 ≡ throw x)
      → ((runs n s).router ≡ with_threads (n * s.server.thread_num) s.router)
        × ((run (runs n s)).0 ≡ throw x)
  unfolding runs
  run_retried zero s x (lo, hi) fails = (
    ap (λ k. record s.router { threadpool = record s.router.threadpool { threads = k } })
        (omega arith),
    rw (run_unheard s x lo hi (fails s.server.acceptor)),
  )
  run_retried (suc n) s x (lo, hi) fails =
      let s' : App a p W C = record {
        server = record s.server {
          acceptor = (a.listen s.server.ip s.server.port s.server.acceptor).1;
        };
        router = with_threads s.server.thread_num s.router;
      } in
      let (more, again) = run_retried n s' x (lo, hi) fails in
      rw (runs, run_unheard s x lo hi (fails s.server.acceptor))
        (more ∙ with_threads-more n s.server.thread_num s.router, again)
