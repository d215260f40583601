-- ===== src/IoServicePool.antt =====
-- easyrpc/server/io_service_pool.hpp: one io_service for each thread, handed out in turn.
-- `I` stands for the pointers to io_services.
pub mod RoundRobin
use easyrpc.Prelude.{
  ℕ, zero, suc, ◌+◌, Option, List, [], ◌∷◌, ◌++◌, ◌==◌, if◌then◌else◌, length, get_elem?,
}
use easyrpc.Prelude.Exec.{Result, ok, throw, runtime_error}

-- `ran` are the io_services that the threads of the pool run, `stopped` those that were stopped.
pub record IoServicePool (I : Type 0) : Type 0 where
  pub ios_vec : List I
  pub work_vec : List I
  pub ran : List I
  pub stopped : List I
  pub next_io_service : ℕ

module _ {I : Type 0} where
  -- The loop of the constructor; `make` gives the io_service of each round.
  add_services : (ℕ → I) → ℕ → ℕ → IoServicePool I → IoServicePool I
  add_services make i zero pool = pool
  add_services make i (suc rounds) pool = add_services make (suc i) rounds (record pool {
    ios_vec = pool.ios_vec ++ make i ∷ [];
    work_vec = pool.work_vec ++ make i ∷ [];
  })

  unfoldable pub create : (ℕ → I) → ℕ → Result (IoServicePool I)
  unfolding add_services
  create make pool_size =
      if pool_size == 0
      then throw (runtime_error "io server pool size is 0")
      else ok (
          add_services make 0 pool_size
            (record { ios_vec = []; work_vec = []; ran = []; stopped = []; next_io_service = 0 }))

  -- Each round starts a thread that runs one io_service.
  unfoldable pub run : IoServicePool I → IoServicePool I
  run pool = record pool { ran = pool.ran ++ pool.ios_vec }

  unfoldable stop_io_services : IoServicePool I → IoServicePool I
  stop_io_services pool = record pool { stopped = pool.stopped ++ pool.ios_vec }

  -- Each thread is joined: it has left the `run` of its io_service.
  unfoldable stop_threads : IoServicePool I → IoServicePool I
  stop_threads pool = record pool { ran = [] }

  unfoldable pub stop : IoServicePool I → IoServicePool I
  unfolding stop_io_services stop_threads
  stop pool = stop_threads (stop_io_services pool)

  -- `none`: the index is outside of the vector.
  unfoldable pub get_io_service : IoServicePool I → Option I × IoServicePool I
  get_io_service pool =
      let next = pool.next_io_service + 1 in
      (
        get_elem? pool.ios_vec pool.next_io_service,
        record pool { next_io_service = if next == length pool.ios_vec then 0 else next },
      )
