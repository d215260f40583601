-- ===== src/EndToEnd/Interleaved/Served.antt =====
-- Every request that has come is called once workers have gone on for long enough
-- (easyrpc/server/router.hpp, easyrpc/base/thread_pool.hpp).
use mathlib.Core.List.{Perm}
use easyrpc.Prelude.{◌≡◌, ◌<◌, ap, sym, ◌∙◌, false, List, [], ◌++◌, length, append-nil}
use easyrpc.Prelude.Outcome.{done}
use easyrpc.Header.{ByteOrder}
use easyrpc.Asio.{Asio}
use easyrpc.EasyPack.{EasyPack}
use easyrpc.Connection.{Connection}
use easyrpc.Router.{Router}
use easyrpc.EndToEnd.Sequence.{End}
use easyrpc.EndToEnd.Interleaved.{Event, steps}
use easyrpc.EndToEnd.Interleaved.Schedule.{arrivals, schedule, rebind, Admits, Called, calls}
use easyrpc.EndToEnd.Interleaved.Fifo.{arrivals_of, steps-calls}
use easyrpc.EndToEnd.Interleaved.Steps.{waiting_none}
use easyrpc.EndToEnd.Interleaved.Changes.{AreMaps}
use easyrpc.EndToEnd.Interleaved.Rounds.{
  drain, drain-AreRounds, arrivals-rounds, rebind-rounds, threadpool-rebind, Admits-rounds,
}
use easyrpc.EndToEnd.Interleaved.Drained.{unfinished-drain}

module _ {a : Asio} {p : EasyPack} {W C : Type 0} where
  -- Requests come, plain and raw ones, workers take them and are done with them, several at a time,
  -- and the program binds and unbinds names, in any order, from an idle pool that runs and has a
  -- worker; the maps of handlers are well formed, each request fits when it comes (its name is bound
  -- for its mode of call, it has at least one byte and less than `max_buffer_len`, and its connection
  -- is open), never more requests wait than the queue has room for, no name is unbound while a
  -- request for it waits, and what is bound to a name is neither unbound nor replaced while a request
  -- for it runs. If no more requests come, and the workers are done with the tasks that they have and
  -- then take the requests that wait and are done with them, one after the other, then every request
  -- that has come was called, once each; the tasks have ended, and have left the user's objects, as
  -- these calls do in the order in which they end; no task is left, and the router is what the binds
  -- and unbinds alone make of it, with an empty queue.
  pub requests_called :
      (o : ByteOrder) (xs : List (Event a p W C)) (conns : C → Connection a) (r : Router p W C)
      (w : W)
      → AreMaps r
      → r.threadpool.is_stopped ≡ false
      → r.threadpool.task_queue ≡ []
      → 0 < r.threadpool.threads
      → Admits r [] [] xs
      → let plan = schedule r [] [] xs in
        (called : List (Called a p W C)) × (ends : List (End a)) × (w' : W) × Perm
          (arrivals_of called)
          (arrivals xs)
        × (calls o called w ≡ done (ends, w'))
        × (steps o
              (xs ++ drain (length plan.running) (length plan.left) conns)
              (record { router = r; held = []; world = w })
            ≡ done (ends, record { router = rebind xs r; held = []; world = w' }))
  requests_called o xs conns r w v runs idle some_worker admitted =
      let plan = schedule r [] [] xs in
      let ys = drain (length plan.running) (length plan.left) conns in
      let only = drain-AreRounds p W (length plan.running) (length plan.left) conns in
      let over = unfinished-drain r [] [] xs conns some_worker in
      let none_runs = ap (λ u. u.0) over in
      let none_left = ap (λ u. u.1) over in
      let empty = ap (λ pool. pool.task_queue) (threadpool-rebind xs r) ∙ idle in
      let (order, same, (ends, w', called, stepped)) =
        steps-calls o (xs ++ ys) r w v runs idle (Admits-rounds r [] [] xs ys only admitted) in
      let all_taken : (schedule r [] [] (xs ++ ys)).taken ≡ arrivals xs =
        sym (append-nil _) ∙ rw none_left at order ∙ arrivals-rounds xs ys only in
      (
        (schedule r [] [] (xs ++ ys)).called,
        ends,
        w',
        rw (none_runs, append-nil (arrivals_of (schedule r [] [] (xs ++ ys)).called), all_taken) at
            same,
        called,
        rw (none_left, none_runs, rebind-rounds xs ys r only, waiting_none a (rebind xs r) empty) at
            stepped,
      )
