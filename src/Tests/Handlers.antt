-- ===== src/Tests/Handlers.antt =====
-- A router with handlers, and whole calls, at concrete inputs.
use easyrpc.Prelude.{
  inl, ℕ, ◌+◌, ◌<◌, ◌^◌, ◌≡◌, refl, Bool, true, false, some, List, [], ◌∷◌, Bytes, bytes_eq, codes,
  length, arith, if◌then◌else◌,
}
use easyrpc.Prelude.Exec.{Exec, ok}
use easyrpc.Prelude.Outcome.{done, waits, fault}
use easyrpc.Header.{little_endian, non_raw}
use easyrpc.ThreadPool.{ThreadPool}
use easyrpc.Router
use easyrpc.Router.{
  Router, Task, Callee, route, run_task, unbind, bind, bind_member, bind_raw, bind_member_raw,
}
use easyrpc.Router.Invoker.{
  value_function, value_raw, InvokerFunction, InvokerFunctionRaw, Site, apply, apply_raw, invoke,
  invoke_raw, run_func_raw, run_func, get, got, call as invoker_call, call_raw,
}
use easyrpc.Router.Slots.{Slot, SlotMap, find}
use easyrpc.Router.Slots.Laws.{IsMap, value_of}
use easyrpc.Router.Slots.References.{assigns, erases}
use easyrpc.Router.Routing.{
  is_bound, HasRoom, task_of, rebound, route_not_queued, queued_task_runs, queued_task_dangles,
}
use easyrpc.Router.Invoker.Invoke.{bound, result_of, Ends, invoke-Ends, invoke_raw-Ends}
use easyrpc.Tests.World.{pipes, pipes_laws, bytes_pack, connection}

-- Adds its arguments, and counts its calls.
abbrev sum : List ℕ → ℕ
sum [] = 0
sum (v ∷ vs) = v + sum vs

abbrev pub add : List ℕ → Exec ℕ ℕ
add vs calls = (ok (sum vs), calls + 1)

abbrev pub pair_types : List (Unit {0})
pair_types = tt ∷ tt ∷ []

abbrev adder : InvokerFunction bytes_pack ℕ
adder = bound (value_function pair_types add)

abbrev echo : InvokerFunctionRaw ℕ
echo = record { func = some (apply_raw (value_raw (λ body calls. (ok body, calls + 1)))) }

abbrev pub adder_slot : Slot (InvokerFunction bytes_pack ℕ)
adder_slot = record { address = 0; key = codes "add"; value = adder }

abbrev handlers : SlotMap (InvokerFunction bytes_pack ℕ)
handlers = record { elements = adder_slot ∷ []; fresh = 1 }

abbrev pool : Bool → ThreadPool (Task ℕ)
pool is_stopped = record {
  threads = 4;
  task_queue = [];
  is_stopped = is_stopped;
  was_called = is_stopped;
}

-- `is_stopped` says whether the pool was stopped.
abbrev pub router : Bool → Router bytes_pack ℕ ℕ
router is_stopped = record {
  threadpool = pool is_stopped;
  invoker_map = handlers;
  invoker_raw_map = record { elements = []; fresh = 0 };
}

abbrev site : Site pipes ℕ
site = record { conn = connection; world = 0 }

pub handlers-IsMap : IsMap handlers
handlers-IsMap = record { distinct = (tt, tt); old = (omega arith, tt) }

pub router_room : HasRoom (router false)
router_room = record { running = refl; room = λ e. omega arith }

pub found : find (codes "add") handlers ≡ some adder_slot
unfolding find bytes_eq
found = refl

queued_task_runs_example :
    (inv : InvokerFunction bytes_pack ℕ) × (value_of
        (codes "add")
        (rebound (erases (codes "other") ∷ []) (router false)).invoker_map
      ≡ some inv)
    × (run_task little_endian
          (task_of adder_slot (1 ∷ 2 ∷ []) 7)
          (rebound (erases (codes "other") ∷ []) (router false))
          site
        ≡ done (invoke little_endian inv (1 ∷ 2 ∷ []) site))
queued_task_runs_example =
    queued_task_runs little_endian (codes "add") (1 ∷ 2 ∷ []) 7 adder_slot (router false)
      (erases (codes "other") ∷ []) site handlers-IsMap found ((λ e. cc), tt)

queued_task_dangles_example :
    run_task little_endian
      (task_of adder_slot (1 ∷ 2 ∷ []) 7)
      (rebound (assigns (codes "add") adder ∷ []) (unbind (codes "add") (router false)))
      site
    ≡ fault
queued_task_dangles_example =
    queued_task_dangles little_endian (codes "add") (1 ∷ 2 ∷ []) 7 adder_slot (router false)
      (assigns (codes "add") adder ∷ []) site handlers-IsMap found

route_not_queued_example : route 7 (codes "sub") (1 ∷ []) non_raw (router false) ≡ (
    if is_bound non_raw (codes "sub") (router false)
    then (if (router false).threadpool.is_stopped then done (true, router false) else waits)
    else done (false, router false))
unfolding Router.is_bind find bytes_eq
route_not_queued_example =
    route_not_queued 7 (codes "sub") (1 ∷ []) non_raw (router false) (inl refl)

ok_small :
    (bytes result : Bytes) → length bytes < 2 ^ 32 → ok bytes ≡ ok result → length result < 2 ^ 32
ok_small bytes result h e = ground arith

small_results :
    (result : Bytes) → (result_of adder (1 ∷ 2 ∷ []) site).0 ≡ ok result → length result < 2 ^ 32
unfolding run_func apply get got invoker_call
small_results result e = ok_small (3 ∷ []) result (omega arith) e

small_echoes :
    (result : Bytes)
    → (run_func_raw echo.func (codes "hi") site).0 ≡ ok result
    → length result < 2 ^ 32
unfolding run_func_raw apply_raw call_raw
small_echoes result e = ok_small (codes "hi") result (omega arith) e

invoke-Ends_example : Ends little_endian site (invoke little_endian adder (1 ∷ 2 ∷ []) site)
invoke-Ends_example = invoke-Ends pipes_laws little_endian adder (1 ∷ 2 ∷ []) site small_results

invoke_raw-Ends_example : Ends little_endian site (invoke_raw little_endian echo (codes "hi") site)
invoke_raw-Ends_example =
    invoke_raw-Ends pipes_laws little_endian echo (codes "hi") site small_echoes
