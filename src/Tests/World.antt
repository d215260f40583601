-- ===== src/Tests/World.antt =====
-- A small socket library and a small serialisation library that behave as documented.
use easyrpc.Prelude.{
  ℕ, ◌≡◌, refl, Bool, true, false, Option, none, some, String, List, [], ◌∷◌, Bytes, length, take,
  drop, replicate, leb, if◌then◌else◌, arith, length-take, length-replicate, Bool-cases, inl, inr,
  ◌==◌, ◌||◌, ◌&&◌,
}
use easyrpc.Prelude.Exec.{Result, ok, throw, library}
use easyrpc.Header.{raw}
use easyrpc.Asio.{Asio, AsioLaws, ClosedFails}
use easyrpc.EasyPack.{EasyPack}
use easyrpc.Connection.{Connection, nothing}
use easyrpc.RpcSession.{RpcSession, no_thread}

-- A socket has what was written to it, and the bytes that its peer will have sent.
pub record Pipe : Type 0 where
  pub is_open : Bool
  pub written : List (List Bytes)
  pub incoming : Bytes

abbrev pub write : List Bytes → Pipe → Option String × Pipe
write buffers s =
    if s.is_open
    then (none, record s { written = buffers ∷ s.written })
    else (some "Bad file descriptor", s)

abbrev pub read : ℕ → Pipe → Option String × Bytes × Pipe
read n s =
    if n == 0 || (s.is_open && leb n (length s.incoming))
    then (none, take n s.incoming, record s { incoming = drop n s.incoming })
    else (some "End of file", replicate n 0, s)

abbrev pub pipes : Asio
pipes = record {
  Socket = Pipe;
  Endpoints = Option Bytes;
  Deadline = Bool;
  Acceptor = Unit {0};
  new_socket = record { is_open = false; written = []; incoming = [] };
  new_deadline = false;
  new_acceptor = tt;
  listen = λ ip port acceptor. (ok tt, acceptor);
  no_endpoints = none;
  resolve = λ ip port. ok (some ip);
  connect = λ endpoints s. (ok tt, record s { is_open = true });
  is_open = λ s. s.is_open;
  shutdown = λ s. s;
  close = λ s. record s { is_open = false };
  set_no_delay = λ s. s;
  write = write;
  read = read;
  arm = λ d t. true;
  cancel = λ t. false;
  is_armed = λ t. t;
  expired = λ bytes. bytes;
}

length-read : (n : ℕ) (s : Pipe) → length (read n s).1 ≡ n
length-read n s = elim (Bool-cases (n == 0 || (s.is_open && leb n (length s.incoming)))) [
  | inl e ↦ rw e (ground (arith, length-take n s.incoming))
  | inr e ↦ rw e (length-replicate n 0)
]

pub pipes_laws : AsioLaws pipes
pipes_laws = record {
  close_shuts = λ s. refl;
  read_fills = length-read;
  arm_arms = λ d t. refl;
  cancel_disarms = λ t. refl;
}

pub pipes_closed : ClosedFails pipes
pipes_closed = record {
  write_closed = λ buffers s shut. ground arith;
  read_closed = λ n s more shut. ground arith;
  read_empty = λ s. refl;
}

-- Values are bytes, and a text is the bytes of its values.
abbrev first : Bytes → Result (ℕ × Bytes)
first [] = throw (library "insufficient bytes")
first (v ∷ u) = ok (v, u)

abbrev first_value : Bytes → Result ℕ
first_value [] = throw (library "insufficient bytes")
first_value (v ∷ u) = ok v

abbrev pub bytes_pack : EasyPack
bytes_pack = record {
  Ty = Unit {0};
  Value = ℕ;
  Unpacker = Bytes;
  pack_args = λ vs. ok vs;
  unpack = λ s. ok s;
  unpack_top = λ t. first;
  unpack_args = λ t. first_value;
}

abbrev pub open_pipe : Bytes → Pipe
open_pipe incoming = record { is_open = true; written = []; incoming = incoming }

abbrev pub session : Bytes → RpcSession pipes
session incoming = record {
  ios_stopped = false;
  socket = open_pipe incoming;
  endpoint_iter = none;
  thread = no_thread;
  head = [];
  res_head = record { body_len = 0 };
  body = [];
  timer_ios_stopped = false;
  timer_thread = no_thread;
  timer = record { timer = false; func_vec = []; is_single_shot = false };
  timeout_milli = 3000;
}

abbrev pub connection : Connection pipes
connection = record {
  socket = open_pipe [];
  head = [];
  req_head = record { protocol_len = 0; body_len = 0; mode = raw };
  protocol_and_body = [];
  timer = record { timer = true; func_vec = []; is_single_shot = true };
  timeout_milli = 3000;
  pending = nothing;
}
