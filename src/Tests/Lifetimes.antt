-- ===== src/Tests/Lifetimes.antt =====
-- Connections that are accepted, with a timeout and without one.
use easyrpc.Prelude.{ℕ, ◌+◌, ◌≤◌, ◌≡◌, ◌↔◌, refl, ap, true, false, none, some, [], codes, arith}
use easyrpc.Prelude.Exec.{ok}
use easyrpc.Prelude.Outcome.{done}
use easyrpc.Header.{RequestHeader, raw, little_endian, request_bytes, request_header_len}
use easyrpc.Connection
use easyrpc.Connection.{
  Connection, on_head, on_body, head_bytes, body_bytes, head_accepted, request_len, nothing,
}
use easyrpc.Connection.Head.{on_head_accepts}
use easyrpc.Connection.Body.{body_read, on_body_delivers}
use easyrpc.Connection.Deadline.{deadline}
use easyrpc.Router.Invoker.{value_raw, InvokerFunctionRaw, invoke_raw}
use easyrpc.Router.Invoker.Invoke.{bound_raw}
use easyrpc.EndToEnd.{head_read}
use easyrpc.Server.{make_connection}
use easyrpc.Lifetime.{
  Life, Rests, queued, verdict, start, next, head_done, body_done, raw_task_ends, wait_ends,
  destroyed, accepted, owners, readers,
}
use easyrpc.Lifetime.Ends.{IsIdle, IsIdle-Step}
use easyrpc.Lifetime.Accepted.{timed_never_destroyed, untimed_destroyed}
use easyrpc.Tests.World.{pipes, pipes_laws, bytes_pack, open_pipe}

abbrev echo : InvokerFunctionRaw ℕ
echo = bound_raw (value_raw (λ body calls. (ok body, calls + 1)))

abbrev head : RequestHeader
head = record { protocol_len = 1; body_len = 1; mode = raw }

head_fits : head_accepted head ≡ true
unfolding head_accepted
head_fits = refl

-- A connection with a deadline of five milliseconds, through a raw call.
abbrev begun : Life pipes
begun = accepted 5 (open_pipe [])

pending_begun : begun.conn.pending ≡ head_bytes request_header_len
unfolding accepted Connection.start
pending_begun = refl

open_begun : begun.conn.socket.is_open ≡ true
unfolding accepted Connection.start make_connection Connection.set_no_delay Connection.start_timer
open_begun = refl

abbrev asked : Life pipes
asked = record begun {
  conn = on_head little_endian none (request_bytes little_endian head) begun.conn;
}

asked_lem : asked.conn ≡ head_read little_endian head begun.conn
asked_lem = on_head_accepts little_endian head begun.conn (omega arith) open_begun head_fits

abbrev routed : Life pipes
routed = record asked { conn = body_read (codes "eb") asked.conn; tasks = 1 }

routed_lem : on_body (verdict queued) none (codes "eb") asked.conn 0 ≡ done (routed.conn, 1)
unfolding verdict
routed_lem = rw asked_lem (
    on_body_delivers (verdict queued) (codes "e") (codes "b")
      (head_read little_endian head begun.conn) 0 1 true open_begun refl refl refl)

abbrev answered : Life pipes
answered = record routed {
  conn =
      (invoke_raw little_endian echo (codes "b") (record { conn = routed.conn; world = 0 })).1.conn;
  tasks = 0;
}

abbrev cancelled : Life pipes
cancelled = record answered { conn = deadline true answered.conn; waits = 0 }

waits_begun : begun.waits ≡ 1
unfolding accepted
waits_begun = refl

timed_never_destroyed_example :
    (4 ≤ 4)
    × (cancelled.is_destroyed ≡ false)
    × (Rests bytes_pack ℕ little_endian cancelled ↔ IsIdle cancelled)
unfolding accepted
timed_never_destroyed_example =
    timed_never_destroyed little_endian 5 4 (open_pipe []) cancelled (λ e. omega arith)
      (next
        (next
          (next
            (next start
              (head_done request_header_len none (request_bytes little_endian head) pending_begun))
            (body_done 2 queued none (codes "eb") routed.conn 1 (ap (λ c. c.pending) asked_lem)
              routed_lem))
          (raw_task_ends echo (codes "b") 0 0 refl))
        (wait_ends true 0 waits_begun))

-- A connection without a deadline, whose first read fails.
abbrev opened : Life pipes
opened = accepted 0 (open_pipe [])

abbrev failed : Life pipes
failed = record opened { conn = on_head little_endian (some "reset") [] opened.conn }

abbrev freed : Life pipes
freed = record failed { conn = Connection.destroy failed.conn; is_destroyed = true }

pending_opened : opened.conn.pending ≡ head_bytes request_header_len
unfolding accepted Connection.start
pending_opened = refl

unowned_failed : owners failed ≡ 0
unfolding owners readers accepted on_head Connection.start make_connection
unowned_failed = refl

freed-IsIdle : IsIdle freed
unfolding accepted on_head Connection.destroy Connection.start make_connection
freed-IsIdle = record { reads = refl; tasks = refl; waits = refl }

freed-Rests : Rests bytes_pack ℕ little_endian freed
freed-Rests l' step = let (_, alive) = IsIdle-Step little_endian freed l' freed-IsIdle step in cc

untimed_destroyed_example :
    (2 ≤ 4) × (freed.is_destroyed ≡ true) × (freed.conn.socket.is_open ≡ false)
unfolding accepted
untimed_destroyed_example =
    untimed_destroyed {p = bytes_pack} {W = ℕ} pipes_laws little_endian 2 (open_pipe []) freed
      (next (next start (head_done request_header_len (some "reset") [] pending_opened))
        (destroyed unowned_failed refl))
      freed-Rests
