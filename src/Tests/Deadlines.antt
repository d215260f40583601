-- ===== src/Tests/Deadlines.antt =====
-- Deadlines that pass while a client reads.
use easyrpc.Prelude.{◌≡◌, ◌⊎◌, ◌↔◌, true, false, [], ◌∷◌, Bytes, codes, arith, refl, List}
use easyrpc.Prelude.Exec.{Exception, ok, throw, modify, ◌>>◌}
use easyrpc.Header.{little_endian, raw}
use easyrpc.RpcSession.{
  RpcSession, Moments, passes, read, read_during, connect, call, disconnect, start_timer, no_thread,
  joinable,
}
use easyrpc.RpcSession.Interrupted.{read_during_iff, late_deadline_breaks_call}
use easyrpc.Prelude.Outcome.{fault}
use easyrpc.RpcSession
use easyrpc.Client
use easyrpc.Client.{run}
use easyrpc.Client.Threads.{Use, sets_timeout, calls_raw, use_client, use_all, run_before_timeout}
use easyrpc.Tests.World.{bytes_pack, pipes, pipes_laws, pipes_closed, session, open_pipe}

-- The length 2, and the two bytes.
abbrev reply : Bytes
reply = 2 ∷ 0 ∷ 0 ∷ 0 ∷ 1 ∷ 9 ∷ []

abbrev answer : Bytes
answer = 1 ∷ 9 ∷ []

-- A session that has connected, with a deadline.
abbrev reading : RpcSession pipes
reading = record (session reply) { socket = open_pipe reply; timeout_milli = 5 }

-- The deadline passes between the two reads.
abbrev between : Moments
between = record { before_head = false; before_body = true; after_body = false }

read_during_iff_example : ((read_during between little_endian reading).0 ≡ ok answer) ↔ (
    (false ≡ false)
    × ((true ≡ false) ⊎ (answer ≡ []))
    × ((read little_endian reading).0 ≡ ok answer))
read_during_iff_example =
    read_during_iff pipes_laws pipes_closed between little_endian reading answer (λ e. omega arith)

late_deadline_breaks_call_example :
    (x : Exception) × (((connect
          >> (modify (passes true) >> call little_endian (codes "e") raw (9 ∷ [])))
        (disconnect (read little_endian reading).1)).0
      ≡ throw x)
late_deadline_breaks_call_example =
    late_deadline_breaks_call pipes_laws pipes_closed little_endian (codes "e") raw (9 ∷ []) reading
      (λ e. omega arith)

-- A client that is run, is given a timeout, and calls.
abbrev untimed : RpcSession pipes
untimed = record (session reply) { timeout_milli = 0 }

abbrev uses : List (Use bytes_pack)
uses = sets_timeout 3000 ∷ calls_raw (codes "e") (9 ∷ []) ∷ sets_timeout 50 ∷ []

keeps_timeout :
    (use_all little_endian uses (record untimed { thread = joinable })).timeout_milli ≡ 50
unfolding use_all use_client Client.timeout RpcSession.timeout
keeps_timeout = refl

run_before_timeout_example :
    ((use_all little_endian uses (record untimed { thread = joinable })).timer_thread ≡ no_thread)
    × (pipes.is_armed
          (start_timer
            (use_all little_endian uses (record untimed { thread = joinable }))).timer.timer
        ≡ true)
    × (run (use_all little_endian uses (record untimed { thread = joinable })) ≡ fault)
unfolding run RpcSession.run
run_before_timeout_example =
    run_before_timeout pipes_laws little_endian uses untimed (record untimed { thread = joinable })
      refl refl refl (λ e. omega (arith, keeps_timeout))
