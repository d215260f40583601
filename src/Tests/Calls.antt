-- ===== src/Tests/Calls.antt =====
-- A call of a bound function, and a whole server program.
use easyrpc.Prelude.{
  ℕ, ◌≡◌, refl, true, false, some, List, [], ◌∷◌, ◌++◌, Bytes, bytes_eq, codes, arith, ◌<◌, length,
}
use easyrpc.Prelude.Exec.{ok}
use easyrpc.Prelude.Outcome.{done}
use easyrpc.Header.{little_endian, non_raw, request_bytes, response_bytes}
use easyrpc.EasyPack.{Packs, PacksOne}
use easyrpc.Asio.{Buffer, in_memory}
use easyrpc.Connection
use easyrpc.Connection.{Connection}
use easyrpc.Router.Invoker.{value_function, Function}
use easyrpc.RpcSession
use easyrpc.RpcSession.{RpcSession}
use easyrpc.RpcSession.Exchange.{Answers, request_head, response_head}
use easyrpc.Client.{ProtocolDefine, call}
use easyrpc.EndToEnd.{received}
use easyrpc.EndToEnd.Serve.{serve}
use easyrpc.EndToEnd.Call.{Ready, call_runs_function}
use easyrpc.EndToEnd.Program.{started, program_answers}
use easyrpc.Router.Bindings.{program}
use easyrpc.EndToEnd.Sequence.{Fits}
use easyrpc.Tests.World.{pipes, bytes_pack, open_pipe, session, connection}
use easyrpc.Tests.Handlers.{pair_types, add, adder_slot, handlers-IsMap, found, router_room, router}

-- A client that calls `add` on 2 and 3, and its server.
abbrev protocol : ProtocolDefine bytes_pack
protocol = record { name = codes "add"; arg_types = pair_types; return_type = some tt }

abbrev request : Packs bytes_pack pair_types (2 ∷ 3 ∷ [])
request = record {
  text = 2 ∷ 3 ∷ [];
  packed = refl;
  reader = 2 ∷ 3 ∷ [];
  opened = refl;
  yields = (3 ∷ [], refl, ([], refl, tt));
}

abbrev answer : PacksOne bytes_pack tt 5
answer = record { text = 5 ∷ []; packed = refl; reader = 5 ∷ []; opened = refl; unpacked = refl }

abbrev server_ready :
    Ready pipes bytes_pack ℕ ℕ
      (codes "add")
      (value_function pair_types add)
      little_endian
      (5 ∷ [])
      connection
      (router false)
server_ready = record {
  slot = adder_slot;
  map = handlers-IsMap;
  found = found;
  is_bound = refl;
  room = router_room;
  idle = refl;
  is_open = refl;
  after =
      (pipes.write
        (in_memory pipes (Connection.get_buffer little_endian (response_head (5 ∷ [])) (5 ∷ [])))
        connection.socket).1;
  writes = refl;
}

-- What the server writes: the length and the number.
abbrev reply : Bytes
reply = 1 ∷ 0 ∷ 0 ∷ 0 ∷ 5 ∷ []

abbrev sent : List Buffer
sent =
    RpcSession.get_buffer little_endian (request_head (codes "add") non_raw (2 ∷ 3 ∷ []))
      (codes "add") (2 ∷ 3 ∷ [])

abbrev answers :
    Answers pipes
      (open_pipe reply)
      sent
      (response_bytes little_endian (response_head (5 ∷ [])))
      (5 ∷ [])
unfolding response_bytes
answers = record {
  k₁ = record { is_open = true; written = in_memory pipes sent ∷ []; incoming = reply };
  wrote = refl;
  k₂ = record { is_open = true; written = in_memory pipes sent ∷ []; incoming = 5 ∷ [] };
  read_first = refl;
  k₃ = record { is_open = true; written = in_memory pipes sent ∷ []; incoming = [] };
  read_rest = refl;
}

call_runs_function_example :
    ((call little_endian protocol tt (2 ∷ 3 ∷ []) (session reply)).0 ≡ ok 5)
    × (serve {C = ℕ} little_endian 7
          (request_bytes little_endian (request_head (codes "add") non_raw (2 ∷ 3 ∷ [])))
          (codes "add" ++ 2 ∷ 3 ∷ [])
          connection
          (router false)
          0
        ≡ done (
          ok tt,
          record {
            conn =
                record (received little_endian
                  (request_head (codes "add") non_raw (2 ∷ 3 ∷ []))
                  (codes "add" ++ 2 ∷ 3 ∷ [])
                  connection) { socket = server_ready.after };
            world = 1;
          },
        ))
call_runs_function_example =
    call_runs_function pipes pipes bytes_pack ℕ ℕ little_endian 7 protocol pair_types tt add
      (2 ∷ 3 ∷ []) 5 0 1 (session reply) (open_pipe reply) connection (router false) request answer
      server_ready refl refl refl answers refl (omega arith) (omega arith) (omega arith)

-- A program that binds `add` twice, and another name in between.
abbrev bindings : List (Bytes × Function bytes_pack ℕ)
bindings =
    (codes "add", value_function pair_types (λ vs calls. (ok 0, calls)))
    ∷ (codes "sub", value_function pair_types add)
    ∷ (codes "add", value_function pair_types add)
    ∷ []

abbrev answered : pipes.Socket
answered =
    (pipes.write
      (in_memory pipes (Connection.get_buffer little_endian (response_head (5 ∷ [])) (5 ∷ [])))
      (open_pipe [])).1

program_answers_example :
    ((program {C = ℕ} 10 bindings).threadpool.threads ≡ 10)
    × ((call little_endian protocol tt (2 ∷ 3 ∷ []) (session reply)).0 ≡ ok 5)
    × (serve {C = ℕ} little_endian 7
          (request_bytes little_endian (request_head (codes "add") non_raw (2 ∷ 3 ∷ [])))
          (codes "add" ++ 2 ∷ 3 ∷ [])
          (started {b = pipes} 100 (open_pipe []))
          (program 10 bindings)
          0
        ≡ done (
          ok tt,
          record {
            conn =
                record (received little_endian
                  (request_head (codes "add") non_raw (2 ∷ 3 ∷ []))
                  (codes "add" ++ 2 ∷ 3 ∷ [])
                  (started {b = pipes} 100 (open_pipe []))) { socket = answered };
            world = 1;
          },
        ))
unfolding bytes_eq
program_answers_example =
    program_answers pipes pipes bytes_pack ℕ ℕ little_endian 7 protocol pair_types tt add
      (2 ∷ 3 ∷ []) 5 0 1 (session reply) (open_pipe reply) request answer 10 100 bindings
      (open_pipe []) answered (omega arith) (omega arith) refl refl refl refl refl refl answers refl
      (omega arith) (omega arith) (omega arith)

-- A request for `add`.
pub small-Fits :
    (text : Bytes)
    → length text < 100
    → Fits (router false) (record { name = codes "add"; text = text; conn = connection })
small-Fits text h = record {
  slot = adder_slot;
  found = found;
  is_open = refl;
  some_bytes = omega arith;
  few_bytes = omega arith;
}
