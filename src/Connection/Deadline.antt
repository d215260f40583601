-- ===== src/Connection/Deadline.antt =====
-- The deadline of a connection (easyrpc/server/connection.hpp, `start_timer`, and
-- easyrpc/base/atimer.hpp, the handler of `async_wait`).
use easyrpc.Prelude.{◌≡◌, ◌≢◌, refl, Bool, true, false, [], ◌∷◌, ◌++◌, arith}
use easyrpc.Asio.{Asio, AsioLaws}
use easyrpc.Timer.{on_wait, run_all, run_all_append}
use easyrpc.Connection.{Connection, Callback, disconnects, run_callback, start_timer, disconnect}
use easyrpc.Connection.Head.{disconnect-closed}

module _ {a : Asio} where
  -- The deadline of the connection passes, and `failed` is the error of the wait.
  abbrev pub deadline : Bool → Connection a → Connection a
  deadline failed c =
      on_wait run_callback (λ c. c.timer) (λ t c. record c { timer = t }) c.timeout_milli failed c

  disconnect_twice :
      (laws : AsioLaws a) (c : Connection a) → disconnect (disconnect c) ≡ disconnect c
  unfolding disconnect
  disconnect_twice laws c = ground (arith, laws.close_shuts (a.shutdown c.socket))

  run_callback-disconnect : (f : Callback) (c : Connection a) → run_callback f c ≡ disconnect c
  unfolding run_callback
  run_callback-disconnect disconnects c = refl

  single_shot : (c : Connection a) → (disconnect c).timer ≡ c.timer
  unfolding disconnect
  single_shot c = ground arith

  -- `start_timer`, where there is a timeout.
  abbrev armed : Connection a → Connection a
  armed c = record c {
    timer = record {
      timer = a.arm c.timeout_milli c.timer.timer;
      func_vec = c.timer.func_vec ++ disconnects ∷ [];
      is_single_shot = true;
    };
  }

  start_timer-armed : (c : Connection a) → c.timeout_milli ≢ 0 → start_timer c ≡ armed c
  unfolding start_timer
  start_timer-armed c h = ground arith

  run_all-armed :
      (laws : AsioLaws a) (c : Connection a)
      → run_all run_callback (armed c).timer.func_vec (armed c) ≡ disconnect (armed c)
  run_all-armed laws c =
      run_all_append run_callback disconnect run_callback-disconnect (disconnect_twice laws)
        c.timer.func_vec disconnects (armed c)

  deadline-armed :
      (laws : AsioLaws a) (c : Connection a) → deadline false (armed c) ≡ disconnect (armed c)
  unfolding on_wait
  deadline-armed laws c = rw (run_all-armed laws c, single_shot (armed c))

  -- If the deadline passes that `start_timer` has set, the connection is disconnected, once, however
  -- many callbacks were bound, its socket is closed, and the deadline is not set again; if the
  -- deadline was cancelled, nothing happens.
  deadline_disconnects :
      (laws : AsioLaws a) (c : Connection a)
      → c.timeout_milli ≢ 0
      → (deadline false (start_timer c) ≡ disconnect (start_timer c))
        × (a.is_open (deadline false (start_timer c)).socket ≡ false)
        × (deadline true (start_timer c) ≡ start_timer c)
  unfolding on_wait
  deadline_disconnects laws c h =
      rw (start_timer-armed c h, deadline-armed laws c)
        (refl, disconnect-closed laws (armed c), refl)
