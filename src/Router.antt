-- ===== src/Router.antt =====
-- easyrpc/server/router.hpp: handlers by protocol name, and the tasks that run them. The router is
-- the one object of its class; the references of a task are addresses of elements of its maps.
pub mod Slots
pub mod Invoker
pub mod Routing
pub mod Members
pub mod Bindings
use easyrpc.Prelude.{ℕ, Bool, true, false, Option, none, some, [], Bytes, length}
use easyrpc.Prelude.Exec.{Exec, Result, ◌>>=◌}
use easyrpc.Prelude.Outcome.{Outcome, done, waits, fault}
use easyrpc.Header.{ByteOrder, CallMode, raw, non_raw, unnamed}
use easyrpc.Asio.{Asio}
use easyrpc.EasyPack.{EasyPack}
use easyrpc.ThreadPool
use easyrpc.ThreadPool.{ThreadPool}
use Slots
use Slots.{SlotMap, Slot}
use Invoker
use Invoker.{
  Function, MemberFunction, RawFunction, RawMemberFunction, InvokerFunction, InvokerFunctionRaw,
  Site,
}

-- `[&func, body, conn]{ return func(body, conn); }`, with the map that `func` stands in.
pub data Callee : Type 0 where
  plain_at raw_at : ℕ → Callee

pub record Task (C : Type 0) : Type 0 where
  pub callee : Callee
  pub body : Bytes
  pub conn : C

-- `C` stands for the shared pointers to connections.
pub record Router (p : EasyPack) (W C : Type 0) : Type 0 where
  pub threadpool : ThreadPool (Task C)
  pub invoker_map : SlotMap (InvokerFunction p W)
  pub invoker_raw_map : SlotMap (InvokerFunctionRaw W)

abbrev is_some : {A : Type 0} → Option A → Bool
is_some none = false
is_some (some a) = true

module _ {p : EasyPack} {W C : Type 0} where
  pub create : Router p W C
  create = record {
    threadpool = ThreadPool.create;
    invoker_map = Slots.empty;
    invoker_raw_map = Slots.empty;
  }

  unfoldable pub multithreaded : ℕ → Exec (Router p W C) Unit
  multithreaded num r =
      let (result, pool) = ThreadPool.init_thread_num num r.threadpool in
      (result, record r { threadpool = pool })

  pub stop : Router p W C → Router p W C
  stop r = record r { threadpool = ThreadPool.stop r.threadpool }

  pub destroy : Router p W C → Router p W C
  destroy r = stop r

  unfoldable pub bind_non_member_func : Bytes → Function p W → Router p W C → Router p W C
  bind_non_member_func protocol f r = record r {
    invoker_map =
        Slots.assign protocol
          (record {
            func = some (Invoker.apply f (Invoker.param_types f) []);
            param_size = length (Invoker.param_types f);
          })
          r.invoker_map;
  }

  unfoldable pub bind : Bytes → Function p W → Router p W C → Router p W C
  bind protocol f r = bind_non_member_func protocol f r

  pub bind_member_func :
      {Self : Type 0} → Bytes → MemberFunction p Self W → Self → Router p W C → Router p W C
  bind_member_func protocol f self r = record r {
    invoker_map =
        Slots.assign protocol
          (record {
            func = some (Invoker.apply_member f self (Invoker.member_types f) []);
            param_size = length (Invoker.member_types f);
          })
          r.invoker_map;
  }

  unfoldable pub bind_member :
      {Self : Type 0} → Bytes → MemberFunction p Self W → Self → Router p W C → Router p W C
  bind_member protocol f self r = bind_member_func protocol f self r

  unfoldable pub unbind : Bytes → Router p W C → Router p W C
  unbind protocol r = record r { invoker_map = Slots.erase protocol r.invoker_map }

  unfoldable pub is_bind : Bytes → Router p W C → Bool
  is_bind protocol r = is_some (Slots.find protocol r.invoker_map)

  unfoldable pub bind_non_member_func_raw : Bytes → RawFunction W → Router p W C → Router p W C
  bind_non_member_func_raw protocol f r = record r {
    invoker_raw_map =
        Slots.assign protocol (record { func = some (Invoker.apply_raw f) }) r.invoker_raw_map;
  }

  unfoldable pub bind_raw : Bytes → RawFunction W → Router p W C → Router p W C
  bind_raw protocol f r = bind_non_member_func_raw protocol f r

  pub bind_member_func_raw :
      {Self : Type 0} → Bytes → RawMemberFunction Self W → Self → Router p W C → Router p W C
  bind_member_func_raw protocol f self r = record r {
    invoker_raw_map =
        Slots.assign protocol (record { func = some (Invoker.apply_member_raw f self) })
          r.invoker_raw_map;
  }

  unfoldable pub bind_member_raw :
      {Self : Type 0} → Bytes → RawMemberFunction Self W → Self → Router p W C → Router p W C
  bind_member_raw protocol f self r = bind_member_func_raw protocol f self r

  unfoldable pub unbind_raw : Bytes → Router p W C → Router p W C
  unbind_raw protocol r = record r { invoker_raw_map = Slots.erase protocol r.invoker_raw_map }

  unfoldable pub is_bind_raw : Bytes → Router p W C → Bool
  is_bind_raw protocol r = is_some (Slots.find protocol r.invoker_raw_map)

  -- `threadpool_.add_task(iter->second, body, conn)`, and `return true` behind it
  add_task : Task C → Router p W C → Outcome (Bool × Router p W C)
  add_task task r = elim (ThreadPool.add_task task r.threadpool) [
    | done pool ↦ done (true, record r { threadpool = pool })
    | waits ↦ waits
    | fault ↦ fault
  ]

  route_plain :
      Option (Slot (InvokerFunction p W)) → Bytes → C → Router p W C → Outcome (Bool × Router p W C)
  unfolding add_task
  route_plain none body conn r = done (false, r)
  route_plain (some e) body conn r =
      add_task (record { callee = plain_at e.address; body = body; conn = conn }) r

  route_raw :
      Option (Slot (InvokerFunctionRaw W))
      → Bytes
      → C
      → Router p W C
      → Outcome (Bool × Router p W C)
  unfolding add_task
  route_raw none body conn r = done (false, r)
  route_raw (some e) body conn r =
      add_task (record { callee = raw_at e.address; body = body; conn = conn }) r

  unfoldable pub route : C → Bytes → Bytes → CallMode → Router p W C → Outcome (Bool × Router p W C)
  unfolding route_plain route_raw
  route conn protocol body non_raw r = route_plain (Slots.find protocol r.invoker_map) body conn r
  route conn protocol body raw r = route_raw (Slots.find protocol r.invoker_raw_map) body conn r
  route conn protocol body (unnamed w) r = done (false, r)

-- A task run by a worker, on the connection that it names. `fault`: the element that the task refers
-- to is gone.
module _ {a : Asio} {W : Type 0} where
  run_raw :
      ByteOrder
      → Option (InvokerFunctionRaw W)
      → Bytes
      → Site a W
      → Outcome (Result (Unit {0}) × Site a W)
  run_raw o none body s = fault
  run_raw o (some inv) body s = done (Invoker.invoke_raw o inv body s)

module _ {a : Asio} {p : EasyPack} {W : Type 0} where
  run_plain :
      ByteOrder
      → Option (InvokerFunction p W)
      → Bytes
      → Site a W
      → Outcome (Result (Unit {0}) × Site a W)
  run_plain o none body s = fault
  run_plain o (some inv) body s = done (Invoker.invoke o inv body s)

module _ {a : Asio} {p : EasyPack} {W C : Type 0} where
  run_callee :
      ByteOrder → Callee → Bytes → Router p W C → Site a W → Outcome (Result (Unit {0}) × Site a W)
  unfolding run_plain run_raw
  run_callee o (plain_at i) body r s = run_plain o (Slots.deref i r.invoker_map) body s
  run_callee o (raw_at i) body r s = run_raw o (Slots.deref i r.invoker_raw_map) body s

  unfoldable pub run_task :
      ByteOrder → Task C → Router p W C → Site a W → Outcome (Result (Unit {0}) × Site a W)
  unfolding run_callee
  run_task o task r s = run_callee o task.callee task.body r s
