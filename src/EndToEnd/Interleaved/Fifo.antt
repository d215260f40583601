-- ===== src/EndToEnd/Interleaved/Fifo.antt =====
-- Requests that come while workers run others are taken first come, first served, and each is called
-- once (easyrpc/server/connection.hpp, easyrpc/server/router.hpp, easyrpc/base/thread_pool.hpp).
use mathlib.Core.List.{Perm}
use mathlib.Core.List.Perm
use easyrpc.Prelude.{
  ◌≡◌, refl, ap, sym, ◌∙◌, inl, inr, false, List, [], ◌∷◌, ◌++◌, map, All, All-append, append_assoc,
  append-nil, ltb, length, Bool-cases,
}
use easyrpc.Prelude.Outcome.{done}
use easyrpc.Header.{ByteOrder}
use easyrpc.Asio.{Asio}
use easyrpc.EasyPack.{EasyPack}
use easyrpc.Router.{Router}
use easyrpc.EndToEnd.Sequence.{End}
use easyrpc.EndToEnd.Interleaved.{
  Arrival, Event, arrives, begins, finishes, changes, change, step, steps,
}
use easyrpc.EndToEnd.Interleaved.Picks.{pick_cases}
use easyrpc.EndToEnd.Interleaved.Plans.{
  schedule-free, schedule-full, schedule-missing, schedule-found, Admits-free, Admits-full,
  Admits-missing, Admits-found,
}
use easyrpc.EndToEnd.Interleaved.Schedule.{
  arrivals, schedule, rebind, Admits, Called, calls, queued, serving,
}
use easyrpc.EndToEnd.Interleaved.Steps.{
  waiting_none, step-arrives, step-begins, step-begins_full, step-begins_idle, step-finishes,
  step-finishes_none,
}
use easyrpc.EndToEnd.Interleaved.Changes.{
  AreMaps, IsBound, change-AreMaps, threadpool-change, change-queued, change-waiting,
  All-Untouched-Spared,
}

-- Nothing is claimed of each element.
abbrev pub Any : {A : Type 0} → A → Type 0
Any x = Unit

pub All-Any : {A : Type 0} (xs : List A) → All Any xs
All-Any [] = tt
All-Any (x ∷ xs) = (tt, All-Any xs)

abbrev pub arrivals_of :
    {a : Asio} {p : EasyPack} {W C : Type 0} → List (Called a p W C) → List (Arrival a C)
arrivals_of called = map (λ x. x.arrival) called

module _ {a : Asio} {p : EasyPack} {W C : Type 0} where
  -- Requests are taken in the order in which they came.
  schedule-order :
      (r : Router p W C) (hs qs : List (Arrival a C)) (xs : List (Event a p W C))
      → (schedule r hs qs xs).taken ++ (schedule r hs qs xs).left ≡ qs ++ arrivals xs
  unfolding schedule arrivals
  schedule-order r hs qs [] = sym (append-nil qs)
  schedule-order r hs qs (arrives x ∷ xs) =
      schedule-order r hs (qs ++ x ∷ []) xs ∙ append_assoc qs (x ∷ []) (arrivals xs)
  schedule-order r hs qs (changes x ∷ xs) = schedule-order (change x r) hs qs xs
  schedule-order r hs [] (begins ∷ xs) = schedule-order r hs [] xs
  schedule-order r hs (q ∷ qs) (begins ∷ xs) =
      elim (Bool-cases (ltb (length hs) r.threadpool.threads)) [
        | inl free ↦
            rw (schedule-free r hs q qs xs free)
              (ap (λ l. q ∷ l) (schedule-order r (hs ++ q ∷ []) qs xs))
        | inr full ↦ rw (schedule-full r hs q qs xs full) (schedule-order r hs (q ∷ qs) xs)
      ]
  schedule-order r hs qs (finishes i conns ∷ xs) =
      elim (pick_cases (λ h. h) Any i hs (All-Any hs)) [
        | inl (missing, _) ↦
            rw (schedule-missing r hs i conns qs xs missing) (schedule-order r hs qs xs)
        | inr k ↦
            rw (schedule-found r hs i conns qs xs k.one k.others k.found)
              (schedule-order r k.others qs xs)
      ]

  -- What was taken has been called, or still runs.
  schedule-Perm :
      (r : Router p W C) (hs qs : List (Arrival a C)) (xs : List (Event a p W C))
      → Perm
          (arrivals_of (schedule r hs qs xs).called ++ (schedule r hs qs xs).running)
          (hs ++ (schedule r hs qs xs).taken)
  unfolding schedule
  schedule-Perm r hs qs [] = rw (append-nil hs) (Perm.refl hs)
  schedule-Perm r hs qs (arrives x ∷ xs) = schedule-Perm r hs (qs ++ x ∷ []) xs
  schedule-Perm r hs qs (changes x ∷ xs) = schedule-Perm (change x r) hs qs xs
  schedule-Perm r hs [] (begins ∷ xs) = schedule-Perm r hs [] xs
  schedule-Perm r hs (q ∷ qs) (begins ∷ xs) =
      elim (Bool-cases (ltb (length hs) r.threadpool.threads)) [
        | inl free ↦ rw (schedule-free r hs q qs xs free) (
            rw (append_assoc hs (q ∷ []) (schedule r (hs ++ q ∷ []) qs xs).taken) at
              (schedule-Perm r (hs ++ q ∷ []) qs xs))
        | inr full ↦ rw (schedule-full r hs q qs xs full) (schedule-Perm r hs (q ∷ qs) xs)
      ]
  schedule-Perm r hs qs (finishes i conns ∷ xs) = elim (pick_cases (λ h. h) Any i hs (All-Any hs)) [
    | inl (missing, _) ↦ rw (schedule-missing r hs i conns qs xs missing) (schedule-Perm r hs qs xs)
    | inr k ↦ rw (schedule-found r hs i conns qs xs k.one k.others k.found) (
        Perm.trans (Perm.cons k.one (schedule-Perm r k.others qs xs))
          (Perm.append_right (schedule r k.others qs xs).taken k.same))
  ]

  -- Steps from requests that run and wait are their schedule.
  steps-serving :
      (o : ByteOrder) (hs qs : List (Arrival a C)) (xs : List (Event a p W C)) (r : Router p W C)
      (w : W)
      → AreMaps r
      → r.threadpool.is_stopped ≡ false
      → Admits r hs qs xs
      → All (IsBound r) hs
      → All (IsBound r) qs
      → (ends : List (End a)) × (w' : W) × (calls o (schedule r hs qs xs).called w
          ≡ done (ends, w'))
        × (steps o xs (serving hs qs r w)
            ≡ done (
              ends,
              serving (schedule r hs qs xs).running (schedule r hs qs xs).left (rebind xs r) w',
            ))
  unfolding steps step calls schedule rebind Admits
  steps-serving o hs qs [] r w v runs admitted bs cs = ([], w, refl, refl)
  steps-serving o hs qs (arrives x ∷ xs) r w v runs (h, room, later) bs cs =
      let (ends, w', called, stepped) =
        steps-serving o hs (qs ++ x ∷ []) xs r w v runs later bs
          (All-append _ qs (x ∷ []) cs (h.is_bound, tt)) in
      (ends, w', called, rw (step-arrives o hs qs x r w runs room h, stepped))
  steps-serving o hs qs (changes x ∷ xs) r w v runs (untouched, spared, admitted) bs cs =
      let (bs', same) = change-queued x hs r bs (All-Untouched-Spared x hs untouched) in
      let (cs', kept) = change-queued x qs r cs spared in
      let runs' = ap (λ pool. pool.is_stopped) (threadpool-change x r) ∙ runs in
      let (ends, w', called, stepped) =
        steps-serving o hs qs xs (change x r) w (change-AreMaps x r v) runs' admitted bs' cs' in
      (ends, w', called, rw (change-waiting x qs r kept, ← same, stepped))
  steps-serving o hs [] (begins ∷ xs) r w v runs admitted bs cs =
      let (ends, w', called, stepped) = steps-serving o hs [] xs r w v runs admitted bs cs in
      (ends, w', called, rw (step-begins_idle o hs r w runs, stepped))
  steps-serving o hs (q ∷ qs) (begins ∷ xs) r w v runs admitted bs (c, cs) =
      elim (Bool-cases (ltb (length hs) r.threadpool.threads)) [
        | inl free ↦
            let (ends, w', called, stepped) =
              steps-serving o (hs ++ q ∷ []) qs xs r w v runs
                (Admits-free r hs q qs xs free admitted) (All-append _ hs (q ∷ []) bs (c, tt)) cs in
            (
              ends,
              w',
              rw (schedule-free r hs q qs xs free) called,
              rw (step-begins o hs q qs r w runs free, schedule-free r hs q qs xs free, stepped),
            )
        | inr full ↦
            let (ends, w', called, stepped) =
              steps-serving o hs (q ∷ qs) xs r w v runs (Admits-full r hs q qs xs full admitted) bs
                (c, cs) in
            (
              ends,
              w',
              rw (schedule-full r hs q qs xs full) called,
              rw (
                step-begins_full o hs (q ∷ qs) r w full,
                schedule-full r hs q qs xs full,
                stepped,
              ),
            )
      ]
  steps-serving o hs qs (finishes i conns ∷ xs) r w v runs admitted bs cs =
      elim (pick_cases (queued r) (IsBound r) i hs bs) [
        | inl (missing, missing') ↦
            let (ends, w', called, stepped) =
              steps-serving o hs qs xs r w v runs
                (Admits-missing r hs i conns qs xs missing admitted) bs cs in
            (
              ends,
              w',
              rw (schedule-missing r hs i conns qs xs missing) called,
              rw (
                step-finishes_none o i conns hs qs r w missing',
                schedule-missing r hs i conns qs xs missing,
                stepped,
              ),
            )
        | inr k ↦
            let (result, site, one, took) = step-finishes o i conns hs qs r w v k in
            let (ends, w', called, stepped) =
              steps-serving o k.others qs xs r site.world v runs
                (Admits-found r hs i conns qs xs k.one k.others k.found admitted) k.hold cs in
            (
              (result, site.conn) ∷ ends,
              w',
              rw (schedule-found r hs i conns qs xs k.one k.others k.found, one, called),
              rw (took, schedule-found r hs i conns qs xs k.one k.others k.found, stepped),
            )
      ]

  -- Requests come, plain and raw ones, workers take them and are done with them, several at a time,
  -- and the program binds and unbinds names, in any order; meanwhile anything may happen to the
  -- connections. The maps of handlers are well formed, the pool runs and is idle at first, each
  -- request fits when it comes (its name is bound for its mode of call, it has at least one byte and
  -- less than `max_buffer_len`, and its connection is open), never more than `max_task_queue_size`
  -- requests wait, no name is unbound while a request for it waits, and what is bound to a name is
  -- neither unbound nor replaced while a request for it runs. Then the requests that workers have
  -- taken, and behind them those that wait, are the requests that have come, in the order in which
  -- they came; those that were called and those that still run are the ones that were taken, each
  -- once, in whatever order they end. The tasks that have ended have ended as the invokers that were
  -- bound to their names at the end of the call do on the bodies of these requests and on their
  -- connections by then, and the user's objects are what these calls make of them, in the order in
  -- which they end; the router is what the binds and unbinds make of it, with the queue.
  pub steps-calls :
      (o : ByteOrder) (xs : List (Event a p W C)) (r : Router p W C) (w : W)
      → AreMaps r
      → r.threadpool.is_stopped ≡ false
      → r.threadpool.task_queue ≡ []
      → Admits r [] [] xs
      → let plan = schedule r [] [] xs in
        (plan.taken ++ plan.left ≡ arrivals xs)
        × Perm (arrivals_of plan.called ++ plan.running) plan.taken
        × ((ends : List (End a)) × (w' : W) × (calls o plan.called w ≡ done (ends, w'))
            × (steps o xs (record { router = r; held = []; world = w })
                ≡ done (ends, serving plan.running plan.left (rebind xs r) w')))
  steps-calls o xs r w v runs idle admitted =
      let (ends, w', called, stepped) = steps-serving o [] [] xs r w v runs admitted tt tt in
      (
        schedule-order r [] [] xs,
        schedule-Perm r [] [] xs,
        (ends, w', called, rw (waiting_none a r idle) at stepped),
      )
