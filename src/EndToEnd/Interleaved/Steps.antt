-- ===== src/EndToEnd/Interleaved/Steps.antt =====
-- What a step does while requests wait (easyrpc/server/connection.hpp, easyrpc/server/router.hpp,
-- easyrpc/base/thread_pool.hpp).
use mathlib.Core.List.{map-append}
use easyrpc.Prelude.{
  ℕ, none, inl, inr, ltb, Bool-cases, ◌<◌, ◌≡◌, refl, ap, sym, true, false, List, [], ◌∷◌, ◌++◌,
  Bytes, length, suc, map, arith,
}
use easyrpc.Prelude.Exec.{Result}
use easyrpc.Prelude.Outcome.{done}
use easyrpc.Header.{ByteOrder, CallMode, raw, non_raw, unnamed}
use easyrpc.Header.Layout.{IsModeWord}
use easyrpc.Asio.{Asio}
use easyrpc.EasyPack.{EasyPack}
use easyrpc.Connection.{Connection}
use easyrpc.ThreadPool.{max_task_queue_size}
use easyrpc.ThreadPool.Queue.{run_task-takes, run_task-waits}
use easyrpc.Router.{Router, route, run_task}
use easyrpc.Router.Routing.{
  HasRoom, enqueue, route_found, route_found_raw, run_task_found, run_task_found_raw,
}
use easyrpc.Router.Invoker.{Site, invoke, invoke_raw}
use easyrpc.EndToEnd.{received_lem}
use easyrpc.EndToEnd.Interleaved.{
  Arrival, arrives, begins, finishes, take_round, finish_round, step,
}
use easyrpc.EndToEnd.Interleaved.Picks.{pick, Picked}
use easyrpc.EndToEnd.Interleaved.Schedule.{
  BoundIn, Fits, call_plain, call_raw, call_in, address_of, callee_of, queued, tasks, waiting,
  serving,
}
use easyrpc.EndToEnd.Interleaved.Changes.{AreMaps, IsBound}

pub waiting_none :
    (a : Asio) {p : EasyPack} {W C : Type 0} (r : Router p W C)
    → r.threadpool.task_queue ≡ []
    → waiting {a = a} [] r ≡ r
waiting_none a r idle =
    ap (λ queue. record r { threadpool = record r.threadpool { task_queue = queue } }) (sym idle)

module _ {p : EasyPack} {W C : Type 0} where
  BoundIn-IsModeWord :
      (mode : CallMode) (n : Bytes) (r : Router p W C) → BoundIn mode n r → IsModeWord mode
  BoundIn-IsModeWord non_raw n r h = tt
  BoundIn-IsModeWord raw n r h = tt
  BoundIn-IsModeWord (unnamed w) n r h = absurd h

module _ {a : Asio} {p : EasyPack} {W C : Type 0} where
  length-queued :
      (qs : List (Arrival a C)) (r : Router p W C) → length (map (queued r) qs) ≡ length qs
  length-queued [] r = refl
  length-queued (q ∷ qs) r = ap suc (length-queued qs r)

  waiting-HasRoom :
      (qs : List (Arrival a C)) (r : Router p W C)
      → r.threadpool.is_stopped ≡ false
      → length qs < max_task_queue_size
      → HasRoom (waiting qs r)
  waiting-HasRoom qs r runs room = record {
    running = runs;
    room = λ e. omega (arith, length-queued qs r);
  }

  waiting-arrives :
      (qs : List (Arrival a C)) (x : Arrival a C) (r : Router p W C)
      → enqueue (queued r x) (waiting qs r) ≡ waiting (qs ++ x ∷ []) r
  waiting-arrives qs x r =
      ap (λ queue. record r { threadpool = record r.threadpool { task_queue = queue } })
        (sym (map-append (queued r) qs (x ∷ [])))

  route-waiting :
      (self : C) (n text : Bytes) (mode : CallMode) (qs : List (Arrival a C)) (r : Router p W C)
      → BoundIn mode n r
      → HasRoom (waiting qs r)
      → route self n text mode (waiting qs r)
        ≡ done (
          true,
          enqueue (record { callee = callee_of mode n r; body = text; conn = self }) (waiting qs r),
        )
  unfolding callee_of address_of
  route-waiting self n text non_raw qs r (e, found) room =
      rw found (route_found self n text (waiting qs r) e found room)
  route-waiting self n text raw qs r (e, found) room =
      rw found (route_found_raw self n text (waiting qs r) e found room)
  route-waiting self n text (unnamed w) qs r h room = absurd h

  pub step-arrives :
      (o : ByteOrder) (hs qs : List (Arrival a C)) (x : Arrival a C) (r : Router p W C) (w : W)
      → r.threadpool.is_stopped ≡ false
      → length qs < max_task_queue_size
      → Fits r x
      → step o (arrives x) (serving hs qs r w) ≡ done ([], serving hs (qs ++ x ∷ []) r w)
  unfolding step
  step-arrives o hs qs x r w runs room h =
      let q = x.request in
      rw
        (received_lem o x.self q.name q.text x.mode q.conn (waiting qs r)
          (enqueue (queued r x) (waiting qs r)) (BoundIn-IsModeWord x.mode q.name r h.is_bound)
          h.is_open h.some_bytes h.few_bytes
          (route-waiting x.self q.name q.text x.mode qs r h.is_bound
            (waiting-HasRoom qs r runs room)))
        (ap (λ r'. done ([], record { router = r'; held = tasks hs r; world = w }))
          (waiting-arrives qs x r))

  -- A free worker takes the request that came first.
  pub step-begins :
      (o : ByteOrder) (hs : List (Arrival a C)) (x : Arrival a C) (qs : List (Arrival a C))
      (r : Router p W C) (w : W)
      → r.threadpool.is_stopped ≡ false
      → ltb (length hs) r.threadpool.threads ≡ true
      → step {a = a} o begins (serving hs (x ∷ qs) r w) ≡ done ([], serving (hs ++ x ∷ []) qs r w)
  unfolding step
  step-begins o hs x qs r w runs free = rw (
    length-queued hs r,
    free,
    run_task-takes (waiting (x ∷ qs) r).threadpool (queued r x) (map (queued r) qs) runs refl,
    take_round,
    map-append (queued r) hs (x ∷ []),
  )

  -- If each worker has a task, none takes another.
  pub step-begins_full :
      (o : ByteOrder) (hs qs : List (Arrival a C)) (r : Router p W C) (w : W)
      → ltb (length hs) r.threadpool.threads ≡ false
      → step {a = a} o begins (serving hs qs r w) ≡ done ([], serving hs qs r w)
  unfolding step
  step-begins_full o hs qs r w full = rw (length-queued hs r, full)

  -- If no request waits, none is taken.
  pub step-begins_idle :
      (o : ByteOrder) (hs : List (Arrival a C)) (r : Router p W C) (w : W)
      → r.threadpool.is_stopped ≡ false
      → step {a = a} o begins (serving hs [] r w) ≡ done ([], serving hs [] r w)
  unfolding step
  step-begins_idle o hs r w runs = elim (Bool-cases (ltb (length hs) r.threadpool.threads)) [
    | inl free ↦ rw (
      length-queued hs r,
      free,
      run_task-waits (waiting {a = a} [] r).threadpool runs refl,
      take_round,
    )
    | inr full ↦ step-begins_full o hs [] r w full
  ]

  -- The task of a request that was taken runs the invoker of its name.
  run_task-queued :
      (o : ByteOrder) (mode : CallMode) (n text : Bytes) (self : C) (qs : List (Arrival a C))
      (r : Router p W C) (s : Site a W)
      → AreMaps r
      → BoundIn mode n r
      → (result : Result (Unit {0})) × (site : Site a W) × (call_in o mode n text r s
          ≡ done (result, site))
        × (run_task o
              (record { callee = callee_of mode n r; body = text; conn = self })
              (waiting qs r)
              s
            ≡ done (result, site))
  unfolding call_in call_plain call_raw callee_of address_of
  run_task-queued o non_raw n text self qs r s (v, v') (e, found) =
      let (result, site) = invoke o e.value text s in
      (result, site, rw found, rw found (run_task_found o n text self e (waiting qs r) s v found))
  run_task-queued o raw n text self qs r s (v, v') (e, found) =
      let (result, site) = invoke_raw o e.value text s in
      (
        result,
        site,
        rw found,
        rw found (run_task_found_raw o n text self e (waiting qs r) s v' found),
      )
  run_task-queued o (unnamed w) n text self qs r s v h = absurd h

  -- A worker is done with a request: it was called on its connection, with what is bound then.
  pub step-finishes :
      (o : ByteOrder) (i : ℕ) (conns : C → Connection a) (hs qs : List (Arrival a C))
      (r : Router p W C) (w : W)
      → AreMaps r
      → (k : Picked (queued r) (IsBound r) i hs)
      → (result : Result (Unit {0})) × (site : Site a W) × (call_in o k.one.mode k.one.request.name
            k.one.request.text r
            (record { conn = conns k.one.self; world = w })
          ≡ done (result, site))
        × (step o (finishes i conns) (serving hs qs r w)
            ≡ done ((result, site.conn) ∷ [], serving k.others qs r site.world))
  unfolding step
  step-finishes o i conns hs qs r w v k =
      let (result, site, called, ran) =
        run_task-queued o k.one.mode k.one.request.name k.one.request.text k.one.self qs r
          (record { conn = conns k.one.self; world = w }) v k.holds in
      (result, site, called, rw (k.image, finish_round, ran))

  -- No worker has a task at this index.
  pub step-finishes_none :
      (o : ByteOrder) (i : ℕ) (conns : C → Connection a) (hs qs : List (Arrival a C))
      (r : Router p W C) (w : W)
      → pick i (tasks hs r) ≡ none
      → step o (finishes i conns) (serving hs qs r w) ≡ done ([], serving hs qs r w)
  unfolding step
  step-finishes_none o i conns hs qs r w missing = rw (missing, finish_round)
