-- ===== src/Tests/Interleavings.antt =====
-- Requests that come, and functions that are bound, while workers run.
use easyrpc.Prelude.{
  ℕ, ap, false, ◌+◌, ◌≡◌, refl, List, [], ◌∷◌, ◌++◌, bytes_eq, codes, length, map, arith,
}
use easyrpc.Prelude.Exec.{ok}
use easyrpc.Prelude.Outcome.{done}
use easyrpc.Header.{little_endian, CallMode, raw, non_raw}
use easyrpc.Router.{Router, bind, bind_non_member_func, unbind, bind_raw, bind_non_member_func_raw}
use easyrpc.Router.Invoker.{Function, value_function, RawFunction, value_raw}
use easyrpc.Router.Invoker.Invoke.{bound, bound_raw}
use easyrpc.Router.Slots.{find, assign, erase}
use easyrpc.Router.Slots.Laws.{IsMap}
use easyrpc.EndToEnd.Sequence.{End}
use easyrpc.EndToEnd.Interleaved.{
  Arrival, Event, arrives, begins, finishes, changes, binds, unbinds, binds_raw, change, steps,
}
use easyrpc.EndToEnd.Interleaved.Schedule.{
  arrivals, schedule, rebind, Fits, Admits, Called, calls, serving,
}
use easyrpc.EndToEnd.Interleaved.Fifo.{arrivals_of, steps-calls}
use easyrpc.EndToEnd.Interleaved.Served.{requests_called}
use easyrpc.EndToEnd.Interleaved.Rounds.{drain}
use easyrpc.EndToEnd.Interleaved.Picks.{pick}
use mathlib.Core.List.{Perm}
use easyrpc.Tests.World.{pipes, bytes_pack, connection}
use easyrpc.Tests.Handlers.{handlers-IsMap, router, pair_types, adder_slot}

abbrev arrival : CallMode → ℕ → ℕ → Arrival pipes ℕ
arrival mode m n = record {
  self = m;
  mode = mode;
  request = record { name = codes "add"; text = m ∷ n ∷ []; conn = connection };
}

abbrev zeros : Function bytes_pack ℕ
zeros = value_function pair_types (λ vs calls. (ok 0, calls + 1))

abbrev echo : RawFunction ℕ
echo = value_raw (λ body calls. (ok body, calls + 1))

-- The same name for a raw call.
abbrev both : Router bytes_pack ℕ ℕ
both = change (binds_raw (codes "add") echo) (router false)

abbrev later : Router bytes_pack ℕ ℕ
later = change (binds (codes "add") zeros) (change (unbinds (codes "other")) both)

-- A worker finds nothing, a request comes, its name is bound for raw calls as well, a raw request
-- comes, two workers take the two requests, the second is done first, another name is unbound, the
-- first is done, `add` is bound to another function, and a third request comes.
abbrev events : List (Event pipes bytes_pack ℕ ℕ)
events =
    begins
    ∷ arrives (arrival non_raw 2 3)
    ∷ changes (binds_raw (codes "add") echo)
    ∷ arrives (arrival raw 4 1)
    ∷ begins
    ∷ begins
    ∷ finishes 1 (λ self. connection)
    ∷ changes (unbinds (codes "other"))
    ∷ finishes 0 (λ self. connection)
    ∷ changes (binds (codes "add") zeros)
    ∷ arrives (arrival non_raw 7 7)
    ∷ []

first-Fits : Fits (router false) (arrival non_raw 2 3)
unfolding find bytes_eq
first-Fits = record {
  is_bound = (adder_slot, refl);
  is_open = refl;
  some_bytes = omega arith;
  few_bytes = omega arith;
}

second-Fits : Fits both (arrival raw 4 1)
unfolding change bind_raw bind_non_member_func_raw find assign bytes_eq
second-Fits = record {
  is_bound = (record { address = 0; key = codes "add"; value = bound_raw echo }, refl);
  is_open = refl;
  some_bytes = omega arith;
  few_bytes = omega arith;
}

third-Fits : Fits later (arrival non_raw 7 7)
unfolding change unbind bind bind_non_member_func bind_raw bind_non_member_func_raw find assign
    erase bytes_eq
third-Fits = record {
  is_bound = (record adder_slot { value = bound zeros }, refl);
  is_open = refl;
  some_bytes = omega arith;
  few_bytes = omega arith;
}

empty-IsMap : IsMap (router false).invoker_raw_map
empty-IsMap = record { distinct = tt; old = tt }

admitted : Admits (router false) [] [] events
unfolding Admits pick change bind bind_non_member_func unbind bind_raw bind_non_member_func_raw
admitted = (
  first-Fits,
  omega arith,
  (
    tt,
    (tt, tt),
    (
      second-Fits,
      omega arith,
      (((λ e. omega (arith, ap length e)), tt), tt, (tt, tt, (third-Fits, omega arith, tt))),
    ),
  ),
)

steps-calls_example :
    let plan = schedule (router false) [] [] events in
    (plan.taken ++ plan.left ≡ arrivals events)
    × Perm (arrivals_of plan.called ++ plan.running) plan.taken
    × ((ends : List (End pipes)) × (w' : ℕ) × (calls little_endian plan.called 0 ≡ done (ends, w'))
        × (steps little_endian events (record { router = router false; held = []; world = 0 })
            ≡ done (ends, serving plan.running plan.left (rebind events (router false)) w')))
steps-calls_example =
    steps-calls little_endian events (router false) 0 (handlers-IsMap, empty-IsMap) refl refl
      admitted

-- One more turn calls the third.
requests_called_example :
    let plan = schedule (router false) [] [] events in
    (called : List (Called pipes bytes_pack ℕ ℕ)) × (ends : List (End pipes)) × (w' : ℕ) × Perm
      (arrivals_of called)
      (arrivals events)
    × (calls little_endian called 0 ≡ done (ends, w'))
    × (steps little_endian
          (events ++ drain (length plan.running) (length plan.left) (λ self. connection))
          (record { router = router false; held = []; world = 0 })
        ≡ done (ends, record { router = rebind events (router false); held = []; world = w' }))
requests_called_example =
    requests_called little_endian events (λ self. connection) (router false) 0
      (handlers-IsMap, empty-IsMap) refl refl (omega arith) admitted

-- Two workers run at once, and the request that was taken second is called first.
overtaken_test :
    map (λ x. x.arrival.self) (schedule (router false) [] [] events).called ≡ 4 ∷ 2 ∷ []
unfolding schedule pick change bind_raw bind_non_member_func_raw
overtaken_test = refl
