-- ===== src/Tests/Failures.antt =====
-- A call of a function that throws.
use easyrpc.Prelude.{
  ℕ, ◌+◌, ◌≡◌, refl, true, false, none, List, [], ◌∷◌, ◌++◌, Bytes, bytes_eq, codes, arith,
}
use easyrpc.Prelude.Exec.{ok, throw, runtime_error}
use easyrpc.Prelude.Outcome.{done}
use easyrpc.Header.{little_endian, non_raw, request_bytes, response_bytes}
use easyrpc.EasyPack.{Packs}
use easyrpc.Asio.{Buffer, in_memory}
use easyrpc.Connection
use easyrpc.Router.{Router}
use easyrpc.Router.Slots.{Slot, find}
use easyrpc.Router.Invoker.{Function, void_function, InvokerFunction}
use easyrpc.Router.Invoker.Invoke.{bound}
use easyrpc.RpcSession
use easyrpc.RpcSession.Exchange.{Answers, request_head, response_head}
use easyrpc.Client.{ProtocolDefine, call, call_void, unpack}
use easyrpc.EndToEnd.{received}
use easyrpc.EndToEnd.Serve.{serve}
use easyrpc.EndToEnd.Call.{Ready}
use easyrpc.EndToEnd.Failure.{failure_is_not_sent}
use easyrpc.Tests.World.{pipes, bytes_pack, session, connection, open_pipe}

-- Has no result, and throws after it has counted.
abbrev failing : Function bytes_pack ℕ
failing = void_function (tt ∷ []) (λ vs calls. (throw (runtime_error "no"), calls + 1))

abbrev failing_slot : Slot (InvokerFunction bytes_pack ℕ)
failing_slot = record { address = 0; key = codes "f"; value = bound failing }

abbrev router : Router bytes_pack ℕ ℕ
router = record {
  threadpool = record { threads = 4; task_queue = []; is_stopped = false; was_called = false };
  invoker_map = record { elements = failing_slot ∷ []; fresh = 1 };
  invoker_raw_map = record { elements = []; fresh = 0 };
}

abbrev protocol : ProtocolDefine bytes_pack
protocol = record { name = codes "f"; arg_types = tt ∷ []; return_type = none }

abbrev request : Packs bytes_pack (tt ∷ []) (9 ∷ [])
request = record {
  text = 9 ∷ [];
  packed = refl;
  reader = 9 ∷ [];
  opened = refl;
  yields = ([], refl, tt);
}

abbrev server_ready :
    Ready pipes bytes_pack ℕ ℕ (codes "f") failing little_endian [] connection router
unfolding find bytes_eq
server_ready = record {
  slot = failing_slot;
  map = record { distinct = (tt, tt); old = (omega arith, tt) };
  found = refl;
  is_bound = refl;
  room = record { running = refl; room = λ e. omega arith };
  idle = refl;
  is_open = refl;
  after =
      (pipes.write (in_memory pipes (Connection.get_buffer little_endian (response_head []) []))
        connection.socket).1;
  writes = refl;
}

abbrev sent : List Buffer
sent =
    RpcSession.get_buffer little_endian (request_head (codes "f") non_raw (9 ∷ [])) (codes "f")
      (9 ∷ [])

-- The length 0.
abbrev reply : Bytes
reply = 0 ∷ 0 ∷ 0 ∷ 0 ∷ []

abbrev answers :
    Answers pipes (open_pipe reply) sent (response_bytes little_endian (response_head [])) []
unfolding response_bytes
answers = record {
  k₁ = record { is_open = true; written = in_memory pipes sent ∷ []; incoming = reply };
  wrote = refl;
  k₂ = record { is_open = true; written = in_memory pipes sent ∷ []; incoming = [] };
  read_first = refl;
  k₃ = record { is_open = true; written = in_memory pipes sent ∷ []; incoming = [] };
  read_rest = refl;
}

failure_is_not_sent_example :
    ((call_void little_endian protocol (9 ∷ []) (session reply)).0 ≡ ok tt)
    × ((call little_endian protocol tt (9 ∷ []) (session reply)).0 ≡ unpack bytes_pack tt [])
    × (serve little_endian 7
          (request_bytes little_endian (request_head (codes "f") non_raw (9 ∷ [])))
          (codes "f" ++ 9 ∷ [])
          connection
          router
          0
        ≡ done (
          ok tt,
          record {
            conn =
                record (received little_endian
                  (request_head (codes "f") non_raw (9 ∷ []))
                  (codes "f" ++ 9 ∷ [])
                  connection) { socket = server_ready.after };
            world = 1;
          },
        ))
failure_is_not_sent_example =
    failure_is_not_sent pipes pipes bytes_pack ℕ ℕ little_endian 7 protocol tt failing (9 ∷ [])
      (runtime_error "no") 0 1 (session reply) (open_pipe reply) connection router request
      server_ready refl refl refl answers refl (omega arith) (omega arith)
