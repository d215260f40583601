-- ===== src/Tests/RawCalls.antt =====
-- A raw call.
use easyrpc.Prelude.{
  ℕ, ◌+◌, ◌≡◌, refl, true, false, List, [], ◌∷◌, ◌++◌, Bytes, bytes_eq, codes, arith,
}
use easyrpc.Prelude.Exec.{ok}
use easyrpc.Prelude.Outcome.{done}
use easyrpc.Header.{little_endian, raw, request_bytes, response_bytes}
use easyrpc.Asio.{Buffer, in_memory}
use easyrpc.Connection
use easyrpc.Router.{Router}
use easyrpc.Router.Slots.{Slot, find}
use easyrpc.Router.Invoker.{RawFunction, value_raw, InvokerFunctionRaw}
use easyrpc.Router.Invoker.Invoke.{bound_raw}
use easyrpc.RpcSession
use easyrpc.RpcSession.Exchange.{Answers, request_head, response_head}
use easyrpc.Client.{call_raw, call_raw_one_way}
use easyrpc.EndToEnd.{received}
use easyrpc.EndToEnd.Serve.{serve}
use easyrpc.EndToEnd.Raw.{ReadyRaw, raw_call_runs_function}
use easyrpc.Tests.World.{pipes, bytes_pack, session, connection, open_pipe}

-- Sends its body back behind a byte, and counts.
abbrev echo : RawFunction ℕ
echo = value_raw (λ body calls. (ok (1 ∷ body), calls + 1))

abbrev echo_slot : Slot (InvokerFunctionRaw ℕ)
echo_slot = record { address = 0; key = codes "e"; value = bound_raw echo }

abbrev router : Router bytes_pack ℕ ℕ
router = record {
  threadpool = record { threads = 4; task_queue = []; is_stopped = false; was_called = false };
  invoker_map = record { elements = []; fresh = 0 };
  invoker_raw_map = record { elements = echo_slot ∷ []; fresh = 1 };
}

abbrev answer : Bytes
answer = 1 ∷ 9 ∷ []

abbrev server_ready :
    ReadyRaw pipes bytes_pack ℕ ℕ (codes "e") echo little_endian answer connection router
unfolding find bytes_eq
server_ready = record {
  slot = echo_slot;
  map = record { distinct = (tt, tt); old = (omega arith, tt) };
  found = refl;
  is_bound = refl;
  room = record { running = refl; room = λ e. omega arith };
  idle = refl;
  is_open = refl;
  after =
      (pipes.write
        (in_memory pipes (Connection.get_buffer little_endian (response_head answer) answer))
        connection.socket).1;
  writes = refl;
}

abbrev sent : List Buffer
sent =
    RpcSession.get_buffer little_endian (request_head (codes "e") raw (9 ∷ [])) (codes "e") (9 ∷ [])

-- The length 2, and the two bytes.
abbrev reply : Bytes
reply = 2 ∷ 0 ∷ 0 ∷ 0 ∷ 1 ∷ 9 ∷ []

abbrev answers :
    Answers pipes
      (open_pipe reply)
      sent
      (response_bytes little_endian (response_head answer))
      answer
unfolding response_bytes
answers = record {
  k₁ = record { is_open = true; written = in_memory pipes sent ∷ []; incoming = reply };
  wrote = refl;
  k₂ = record { is_open = true; written = in_memory pipes sent ∷ []; incoming = answer };
  read_first = refl;
  k₃ = record { is_open = true; written = in_memory pipes sent ∷ []; incoming = [] };
  read_rest = refl;
}

raw_call_runs_function_example :
    ((call_raw little_endian (codes "e") (9 ∷ []) (session reply)).0 ≡ ok answer)
    × ((call_raw_one_way little_endian (codes "e") (9 ∷ []) (session reply)).0 ≡ ok tt)
    × (serve little_endian 7
          (request_bytes little_endian (request_head (codes "e") raw (9 ∷ [])))
          (codes "e" ++ 9 ∷ [])
          connection
          router
          0
        ≡ done (
          ok tt,
          record {
            conn =
                record (received little_endian
                  (request_head (codes "e") raw (9 ∷ []))
                  (codes "e" ++ 9 ∷ [])
                  connection) { socket = server_ready.after };
            world = 1;
          },
        ))
raw_call_runs_function_example =
    raw_call_runs_function pipes pipes bytes_pack ℕ ℕ little_endian 7 (codes "e") (9 ∷ []) answer
      echo 0 1 (session reply) (open_pipe reply) connection router server_ready refl refl refl
      answers refl (omega arith) (omega arith) (omega arith)
