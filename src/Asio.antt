-- ===== src/Asio.antt =====
-- What the program uses of boost::asio, which is not part of the repository: sockets, name
-- resolution and deadline timers, as an interface with the documented behaviour that is relied on.
use easyrpc.Prelude.{
  ℕ, ◌≡◌, ◌≢◌, Bool, true, false, Option, none, String, List, [], ◌∷◌, Bytes, length,
}
use easyrpc.Prelude.Exec.{Result}

-- The address of a string, as a buffer holds it: of one that is alive, or of one that held these
-- bytes and whose lifetime has ended.
pub data Buffer : Type 0 where
  alive ended : Bytes → Buffer

pub record Asio : Type 1 where
  pub Socket : Type 0
  pub Endpoints : Type 0
  pub Deadline : Type 0
  pub Acceptor : Type 0
  -- a socket, a timer and an acceptor as they are constructed
  pub new_socket : Socket
  pub new_deadline : Deadline
  pub new_acceptor : Acceptor
  -- `address_v4::from_string(ip)`, and the acceptor's `open`, `set_option`, `bind` and `listen`
  pub listen : Bytes → ℕ → Acceptor → Result (Unit {0}) × Acceptor
  -- the default-constructed resolver iterator
  pub no_endpoints : Endpoints
  -- `resolver.resolve(query(tcp::v4(), ip, port))`
  pub resolve : Bytes → Bytes → Result Endpoints
  -- `boost::asio::connect(socket, endpoints)`
  pub connect : Endpoints → Socket → Result (Unit {0}) × Socket
  pub is_open : Socket → Bool
  pub shutdown : Socket → Socket
  pub close : Socket → Socket
  pub set_no_delay : Socket → Socket
  -- `boost::asio::write(socket, buffers, ec)`: the error's message, if any
  pub write : List Bytes → Socket → Option String × Socket
  -- `boost::asio::read(socket, buffer of n bytes, ec)`: the error's message, and the buffer then
  pub read : ℕ → Socket → Option String × Bytes × Socket
  -- `expires_from_now(milliseconds(d))` with `async_wait`, and `cancel`
  pub arm : ℕ → Deadline → Deadline
  pub cancel : Deadline → Deadline
  pub is_armed : Deadline → Bool
  -- what is read at the address of a string that held these bytes and whose lifetime has ended: C++
  -- leaves it undefined, and the compiled program decides it
  pub expired : Bytes → Bytes

-- What is found at an address.
abbrev pub bytes_at : (a : Asio) → Buffer → Bytes
bytes_at a (alive bytes) = bytes
bytes_at a (ended bytes) = a.expired bytes

abbrev pub in_memory : (a : Asio) → List Buffer → List Bytes
in_memory a [] = []
in_memory a (b ∷ buffers) = bytes_at a b ∷ in_memory a buffers

-- The memory of a string whose lifetime has ended still holds its bytes.
abbrev pub IsKept : (a : Asio) → Bytes → Type 0
IsKept a bytes = a.expired bytes ≡ bytes

-- The behaviour that the documentation of boost::asio states.
pub record AsioLaws (a : Asio) : Type 0 where
  pub close_shuts : (s : a.Socket) → a.is_open (a.close s) ≡ false
  pub read_fills : (n : ℕ) (s : a.Socket) → length (a.read n s).1 ≡ n
  pub arm_arms : (d : ℕ) (t : a.Deadline) → a.is_armed (a.arm d t) ≡ true
  pub cancel_disarms : (t : a.Deadline) → a.is_armed (a.cancel t) ≡ false

-- What the documentation says of a socket that was closed: an operation on it fails. A read into an
-- empty buffer completes at once.
pub record ClosedFails (a : Asio) : Type 0 where
  pub write_closed :
      (buffers : List Bytes) (s : a.Socket) → a.is_open s ≡ false → (a.write buffers s).0 ≢ none
  pub read_closed : (n : ℕ) (s : a.Socket) → n ≢ 0 → a.is_open s ≡ false → (a.read n s).0 ≢ none
  pub read_empty : (s : a.Socket) → (a.read 0 s).0 ≡ none
