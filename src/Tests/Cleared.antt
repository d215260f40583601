-- ===== src/Tests/Cleared.antt =====
-- A program that clears the memory of headers, at concrete inputs.
use easyrpc.Prelude.{◌≡◌, refl, true, false, none, [], ◌∷◌, codes, length, replicate, arith}
use easyrpc.Prelude.Exec.{ok, throw_on}
use easyrpc.Header.{
  little_endian, big_endian, raw, request_bytes, response_bytes, request_header_len,
  response_header_len,
}
use easyrpc.Asio.{Asio, AsioLaws}
use easyrpc.Connection
use easyrpc.Connection.{Connection, nothing, on_head}
use easyrpc.Connection.Head.{IsDropped}
use easyrpc.RpcSession.{RpcSession, no_thread, call, write, get_buffer}
use easyrpc.RpcSession.Exchange.{Answers, request_head}
use easyrpc.EndToEnd.Zeroed.{zeroed_request-IsDropped, zeroed_answer_lost}
use easyrpc.Tests.World.{pipes, pipes_laws, open_pipe}

-- A program that clears the memory of strings whose lifetime ends.
abbrev clearing : Asio
clearing = record pipes { expired = λ bytes. replicate (length bytes) 0 }

clearing_laws : AsioLaws clearing
clearing_laws = record {
  close_shuts = pipes_laws.close_shuts;
  read_fills = pipes_laws.read_fills;
  arm_arms = pipes_laws.arm_arms;
  cancel_disarms = pipes_laws.cancel_disarms;
}

abbrev clearing_session : RpcSession clearing
clearing_session = record {
  ios_stopped = false;
  socket = open_pipe (0 ∷ 0 ∷ 0 ∷ 0 ∷ codes "ok");
  endpoint_iter = none;
  thread = no_thread;
  head = [];
  res_head = record { body_len = 0 };
  body = [];
  timer_ios_stopped = false;
  timer_thread = no_thread;
  timer = record { timer = false; func_vec = []; is_single_shot = false };
  timeout_milli = 3000;
}

abbrev clearing_connection : Connection clearing
clearing_connection = record {
  socket = open_pipe [];
  head = [];
  req_head = record { protocol_len = 0; body_len = 0; mode = raw };
  protocol_and_body = [];
  timer = record { timer = true; func_vec = []; is_single_shot = true };
  timeout_milli = 3000;
  pending = nothing;
}

zeroed_request-IsDropped_example :
    (write little_endian (codes "echo") raw (codes "hi") clearing_session ≡ (
      let (ec, socket) =
        clearing.write
          (replicate request_header_len 0 ∷ codes "echo" ∷ codes "hi" ∷ [])
          clearing_session.socket in
      throw_on ec (record clearing_session { socket = socket })))
    × IsDropped (on_head big_endian none (replicate request_header_len 0) clearing_connection)
unfolding request_bytes
zeroed_request-IsDropped_example =
    zeroed_request-IsDropped clearing clearing clearing_laws little_endian big_endian (codes "echo")
      raw (codes "hi") clearing_session clearing_connection refl (omega arith)

-- The client leaves the two bytes of the response unread.
zero_answers :
    Answers clearing clearing_session.socket
      (get_buffer little_endian
        (request_head (codes "echo") raw (codes "hi"))
        (codes "echo")
        (codes "hi"))
      (replicate response_header_len 0)
      []
unfolding request_bytes get_buffer
zero_answers = record {
  k₁ = record {
    is_open = true;
    written = (replicate request_header_len 0 ∷ codes "echo" ∷ codes "hi" ∷ []) ∷ [];
    incoming = 0 ∷ 0 ∷ 0 ∷ 0 ∷ codes "ok";
  };
  wrote = refl;
  k₂ = record {
    is_open = true;
    written = (replicate request_header_len 0 ∷ codes "echo" ∷ codes "hi" ∷ []) ∷ [];
    incoming = codes "ok";
  };
  read_first = refl;
  k₃ = record {
    is_open = true;
    written = (replicate request_header_len 0 ∷ codes "echo" ∷ codes "hi" ∷ []) ∷ [];
    incoming = codes "ok";
  };
  read_rest = refl;
}

zeroed_answer_lost_example :
    (Connection.write little_endian (codes "ok") clearing_connection ≡ (
      let (ec, socket) =
        clearing.write
          (replicate response_header_len 0 ∷ codes "ok" ∷ [])
          clearing_connection.socket in
      throw_on ec (record clearing_connection { socket = socket })))
    × ((call little_endian (codes "echo") raw (codes "hi") clearing_session).0 ≡ ok [])
unfolding response_bytes
zeroed_answer_lost_example =
    zeroed_answer_lost clearing clearing little_endian little_endian (codes "echo") raw (codes "hi")
      (codes "ok") clearing_session clearing_connection refl (omega arith) (omega arith)
      zero_answers
