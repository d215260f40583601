-- ===== src/Tests/Wire.antt =====
-- The wire format and the sessions of a client at concrete inputs.
use easyrpc.Prelude.{
  ℕ, ◌+◌, ◌≤◌, ◌≡◌, ◌↔◌, ◌⊎◌, refl, true, false, none, List, [], ◌∷◌, Bytes, codes, length, arith,
  replicate, length-replicate,
}
use easyrpc.Prelude.Exec.{ok, throw_on}
use easyrpc.Header.{
  little_endian, big_endian, raw, unnamed, RequestHeader, request_bytes, request_of_bytes,
  response_bytes, request_header_len, max_buffer_len,
}
use easyrpc.Header.Layout.{request_round_trip}
use easyrpc.RpcSession.{RpcSession, call, write, get_buffer}
use easyrpc.RpcSession.Exchange.{Answers, request_head, response_head, call-Answers, call_bounds}
use easyrpc.Asio.{Buffer, in_memory}
use easyrpc.Connection.{head_accepted}
use easyrpc.Client.{ProtocolDefine, call as client_call, call_void, call_raw, call_raw_one_way}
use easyrpc.Client.Calls.{calls_disconnect}
use easyrpc.EndToEnd.Bounds.{sent_but_refused}
use easyrpc.Tests.World.{pipes, pipes_laws, bytes_pack, session}

abbrev echo_head : RequestHeader
echo_head = record { protocol_len = 4; body_len = 300; mode = unnamed 7 }

request_round_trip_example :
    (length (request_bytes big_endian echo_head) ≡ request_header_len)
    × (request_of_bytes big_endian (request_bytes big_endian echo_head) ≡ echo_head)
request_round_trip_example = request_round_trip big_endian echo_head (omega arith)

-- A header that is read in the other byte order announces another length.
other_order :
    (request_of_bytes big_endian (request_bytes little_endian echo_head)).protocol_len ≡ 67108864
unfolding request_of_bytes request_bytes
other_order = refl

-- A response of two bytes.
abbrev reply : Bytes
reply = 2 ∷ 0 ∷ 0 ∷ 0 ∷ codes "ok"

abbrev answered : RpcSession pipes
answered = session reply

abbrev sent : List Buffer
sent =
    get_buffer little_endian (request_head (codes "echo") raw (codes "hi")) (codes "echo")
      (codes "hi")

abbrev reply_head : Bytes
reply_head = response_bytes little_endian (response_head (codes "ok"))

reply_answers : Answers pipes answered.socket sent reply_head (codes "ok")
unfolding response_bytes
reply_answers = record {
  k₁ = record { is_open = true; written = in_memory pipes sent ∷ []; incoming = reply };
  wrote = refl;
  k₂ = record { is_open = true; written = in_memory pipes sent ∷ []; incoming = codes "ok" };
  read_first = refl;
  k₃ = record { is_open = true; written = in_memory pipes sent ∷ []; incoming = [] };
  read_rest = refl;
}

call_example : (call little_endian (codes "echo") raw (codes "hi") answered).0 ≡ ok (codes "ok")
call_example =
    (call-Answers little_endian (codes "echo") raw (codes "hi") (codes "ok") answered (omega arith)
      (omega arith) reply_answers).0

call_bounds_example :
    (length (codes "ok")
      ≡ (call little_endian (codes "echo") raw (codes "hi") answered).1.res_head.body_len)
    × (length (codes "ok") ≤ max_buffer_len)
call_bounds_example =
    call_bounds pipes_laws little_endian (codes "echo") raw (codes "hi") answered (codes "ok")
      call_example

-- A body of a given length.
zeros : ℕ → Bytes
zeros n = replicate n 0

length-zeros : (n : ℕ) → length (zeros n) ≡ n
unfolding zeros
length-zeros n = length-replicate n 0

abbrev adder : ProtocolDefine bytes_pack
adder = record { name = codes "add"; arg_types = tt ∷ []; return_type = none }

calls_disconnect_example :
    (pipes.is_open (client_call little_endian adder tt (1 ∷ []) answered).1.socket ≡ false)
    × (pipes.is_open (call_void little_endian adder (1 ∷ []) answered).1.socket ≡ false)
    × (pipes.is_open (call_raw little_endian (codes "hi") [] answered).1.socket ≡ false)
    × (pipes.is_open (call_raw_one_way little_endian (codes "hi") [] answered).1.socket ≡ false)
calls_disconnect_example =
    calls_disconnect pipes_laws little_endian bytes_pack adder tt (1 ∷ []) (codes "hi") [] answered
      answered.socket refl

sent_but_refused_example :
    (write little_endian [] raw [] answered ≡ (
      let head = pipes.expired (request_bytes little_endian (request_head [] raw [])) in
      let (ec, socket) = pipes.write (head ∷ [] ∷ [] ∷ []) answered.socket in
      throw_on ec (record answered { socket = socket })))
    × ((head_accepted (request_head [] raw []) ≡ false) ↔ ((0 + 0 ≡ 0) ⊎ (0 + 0 ≡ max_buffer_len)))
sent_but_refused_example = sent_but_refused little_endian [] raw [] answered (omega arith)
