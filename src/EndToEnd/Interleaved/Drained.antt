-- ===== src/EndToEnd/Interleaved/Drained.antt =====
-- Workers that go on alone until no request waits or runs (easyrpc/base/thread_pool.hpp).
use easyrpc.Prelude.{
  ◌≡◌, ◌<◌, refl, ◌∙◌, inl, inr, List, [], ◌∷◌, ◌++◌, length, ltb, Bool-cases, arith,
}
use easyrpc.Asio.{Asio}
use easyrpc.EasyPack.{EasyPack}
use easyrpc.Connection.{Connection}
use easyrpc.Router.{Router}
use easyrpc.EndToEnd.Interleaved.{Arrival, Event, arrives, begins, finishes, changes, change}
use easyrpc.EndToEnd.Interleaved.Picks.{pick, pick_cases}
use easyrpc.EndToEnd.Interleaved.Plans.{
  schedule-free, schedule-full, schedule-missing, schedule-found,
}
use easyrpc.EndToEnd.Interleaved.Schedule.{schedule, rebind, Plan}
use easyrpc.EndToEnd.Interleaved.Rounds.{turns, drain, threadpool-rebind}
use easyrpc.EndToEnd.Interleaved.Fifo.{Any, All-Any}

module _ {a : Asio} {p : EasyPack} {W C : Type 0} where
  -- The requests that run and those that wait in the end.
  abbrev pub unfinished : Plan a p W C → List (Arrival a C) × List (Arrival a C)
  unfinished plan = (plan.running, plan.left)

  unfinished-append :
      (r : Router p W C) (hs qs : List (Arrival a C)) (xs ys : List (Event a p W C))
      → unfinished (schedule r hs qs (xs ++ ys)) ≡ (
          let plan = schedule r hs qs xs in
          unfinished (schedule (rebind xs r) plan.running plan.left ys))
  unfolding schedule rebind
  unfinished-append r hs qs [] ys = refl
  unfinished-append r hs qs (arrives x ∷ xs) ys = unfinished-append r hs (qs ++ x ∷ []) xs ys
  unfinished-append r hs qs (changes x ∷ xs) ys = unfinished-append (change x r) hs qs xs ys
  unfinished-append r hs [] (begins ∷ xs) ys = unfinished-append r hs [] xs ys
  unfinished-append r hs (q ∷ qs) (begins ∷ xs) ys =
      elim (Bool-cases (ltb (length hs) r.threadpool.threads)) [
        | inl free ↦
            rw (schedule-free r hs q qs (xs ++ ys) free, schedule-free r hs q qs xs free)
              (unfinished-append r (hs ++ q ∷ []) qs xs ys)
        | inr full ↦
            rw (schedule-full r hs q qs (xs ++ ys) full, schedule-full r hs q qs xs full)
              (unfinished-append r hs (q ∷ qs) xs ys)
      ]
  unfinished-append r hs qs (finishes i conns ∷ xs) ys =
      elim (pick_cases (λ x. x) Any i hs (All-Any hs)) [
        | inl (missing, _) ↦
            rw
              (
                schedule-missing r hs i conns qs (xs ++ ys) missing,
                schedule-missing r hs i conns qs xs missing,
              )
              (unfinished-append r hs qs xs ys)
        | inr k ↦
            rw
              (
                schedule-found r hs i conns qs (xs ++ ys) k.one k.others k.found,
                schedule-found r hs i conns qs xs k.one k.others k.found,
              )
              (unfinished-append r k.others qs xs ys)
      ]

  unfinished-turns :
      (r : Router p W C) (qs : List (Arrival a C)) (conns : C → Connection a)
      → 0 < r.threadpool.threads
      → unfinished (schedule r [] qs (turns (length qs) conns)) ≡ ([], [])
  unfolding schedule pick
  unfinished-turns r [] conns some_worker = refl
  unfinished-turns r (q ∷ qs) conns some_worker =
      rw (schedule-free r [] q qs (finishes 0 conns ∷ turns (length qs) conns) (ground arith))
        (unfinished-turns r qs conns some_worker)

  unfinished-drain_alone :
      (r : Router p W C) (hs qs : List (Arrival a C)) (conns : C → Connection a)
      → 0 < r.threadpool.threads
      → unfinished (schedule r hs qs (drain (length hs) (length qs) conns)) ≡ ([], [])
  unfolding schedule pick
  unfinished-drain_alone r [] qs conns some_worker = unfinished-turns r qs conns some_worker
  unfinished-drain_alone r (h ∷ hs) qs conns some_worker =
      unfinished-drain_alone r hs qs conns some_worker

  -- Workers that go on for as many tasks as are unfinished leave none.
  pub unfinished-drain :
      (r : Router p W C) (hs qs : List (Arrival a C)) (xs : List (Event a p W C))
      (conns : C → Connection a)
      → 0 < r.threadpool.threads
      → let plan = schedule r hs qs xs in
        unfinished (schedule r hs qs (xs ++ drain (length plan.running) (length plan.left) conns))
        ≡ ([], [])
  unfinished-drain r hs qs xs conns some_worker =
      let plan = schedule r hs qs xs in
      unfinished-append r hs qs xs (drain (length plan.running) (length plan.left) conns)
      ∙ unfinished-drain_alone (rebind xs r) plan.running plan.left conns
          (rw (threadpool-rebind xs r) some_worker)
