-- ===== src/Server.antt =====
-- easyrpc/server/server.hpp: the address, the accept loop, and the delegation to the router, which
-- is the one object of its class and stands beside the server in the state.
pub mod Address
pub mod Ports
pub mod Retry
pub mod Accept
pub mod Run
pub mod Reuse
use easyrpc.Prelude.{ℕ, Bool, Option, none, some, List, [], ◌∷◌, Bytes, codes, if◌then◌else◌}
use easyrpc.Prelude.Exec.{
  Exec, Result, ok, throw, invalid_argument, lift, raise, modify, ◌>>=◌, ◌>>◌,
}
use easyrpc.Header.{raw}
use easyrpc.Asio.{Asio}
use easyrpc.Timer
use easyrpc.EasyPack.{EasyPack}
use easyrpc.StringUtil
use easyrpc.Number.{stoi, to_u16}
use easyrpc.Connection
use easyrpc.Connection.{Connection, nothing}
use easyrpc.Router
use easyrpc.Router.{Router}
use easyrpc.Router.Invoker.{Function, MemberFunction, RawFunction, RawMemberFunction}
use easyrpc.IoServicePool
use easyrpc.IoServicePool.{IoServicePool}

-- An io_service is named by its place in the pool. `accepting` is the io_service and the
-- connection that wait in `async_accept`.
pub record Server (a : Asio) : Type 0 where
  pub ios_pool : IoServicePool ℕ
  pub acceptor : a.Acceptor
  pub ip : Bytes
  pub port : ℕ
  pub timeout_milli : ℕ
  pub thread_num : ℕ
  pub accepting : Option (Option ℕ × Connection a)

module _ {a : Asio} where
  -- The constructor, where `hardware` is what `std::thread::hardware_concurrency` returns. The
  -- acceptor takes the first io_service.
  pub create : ℕ → Result (Server a)
  create hardware = elim (IoServicePool.create (λ i. i) hardware) [
    | throw e ↦ throw e
    | ok pool ↦ ok (record {
      ios_pool = (IoServicePool.get_io_service pool).1;
      acceptor = a.new_acceptor;
      ip = codes "0.0.0.0";
      port = 50051;
      timeout_milli = 0;
      thread_num = 1;
      accepting = none;
    })
  ]

  unfoldable pub listen_port : ℕ → Server a → Server a
  listen_port port s = record s { ip = codes "0.0.0.0"; port = port }

  unfoldable pub listen_ip_port : Bytes → ℕ → Server a → Server a
  listen_ip_port ip port s = record s { ip = ip; port = port }

  -- `listen(ip, port)` with the port as text
  unfoldable pub listen_texts : Bytes → Bytes → Exec (Server a) Unit
  unfolding listen_ip_port
  listen_texts ip port = do n ← lift (stoi port); modify (listen_ip_port ip (to_u16 n))

  -- `listen(address)` once the address is cut at its colons
  listen_tokens : List Bytes → Exec (Server a) Unit
  unfolding listen_texts
  listen_tokens (host ∷ port ∷ []) =
      if StringUtil.equals_ignore_case host (codes "localhost")
      then listen_texts (codes "127.0.0.1") port
      else listen_texts host port
  listen_tokens tokens = raise (invalid_argument "Address format error")

  unfoldable pub listen : Bytes → Exec (Server a) Unit
  unfolding listen_tokens
  listen address =
      if StringUtil.contains address (codes ":")
      then listen_tokens (StringUtil.split address (codes ":"))
      else listen_texts (codes "0.0.0.0") address

  unfoldable pub timeout : ℕ → Server a → Server a
  timeout timeout_milli s = record s { timeout_milli = timeout_milli }

  unfoldable pub multithreaded : ℕ → Server a → Server a
  multithreaded num s = record s { thread_num = num }

  -- The private `listen()`.
  open_acceptor : Exec (Server a) Unit
  open_acceptor s =
      let (r, acceptor) = a.listen s.ip s.port s.acceptor in (r, record s { acceptor = acceptor })

  -- `make_shared<connection>(ios_pool_.get_io_service(), timeout_milli_)`
  unfoldable pub make_connection : ℕ → Connection a
  make_connection timeout_milli = record {
    socket = a.new_socket;
    head = [];
    req_head = record { protocol_len = 0; body_len = 0; mode = raw };
    protocol_and_body = [];
    timer = Timer.create;
    timeout_milli = timeout_milli;
    pending = nothing;
  }

  unfoldable pub accept : Server a → Server a
  unfolding make_connection
  accept s =
      let (ios, pool) = IoServicePool.get_io_service s.ios_pool in
      record s { ios_pool = pool; accepting = some (ios, make_connection s.timeout_milli) }

  -- The handler of `async_accept`: the connection, started unless there was an error, and the
  -- server, which accepts again.
  unfoldable pub on_accept : Bool → Connection a → Server a → Connection a × Server a
  unfolding accept
  on_accept failed conn s = (if failed then conn else Connection.start conn, accept s)

  unfoldable pub stop : Server a → Server a
  stop s = record s { ios_pool = IoServicePool.stop s.ios_pool }

  destroy : Server a → Server a
  unfolding stop
  destroy s = stop s

-- The server and the router.
pub record App (a : Asio) (p : EasyPack) (W C : Type 0) : Type 0 where
  pub server : Server a
  pub router : Router p W C

module _ {a : Asio} {p : EasyPack} {W C : Type 0} where
  abbrev on_server : {A : Type 0} → Exec (Server a) A → Exec (App a p W C) A
  on_server m s = let (r, server) = m s.server in (r, record s { server = server })

  abbrev on_router : {A : Type 0} → Exec (Router p W C) A → Exec (App a p W C) A
  on_router m s = let (r, router) = m s.router in (r, record s { router = router })

  unfoldable pub run : Exec (App a p W C) Unit
  unfolding open_acceptor accept
  run s =
      (do
        on_router (Router.multithreaded s.server.thread_num)
        on_server open_acceptor
        on_server (modify accept)
        on_server (modify (λ s. record s { ios_pool = IoServicePool.run s.ios_pool })))
        s

  abbrev pub bind : Bytes → Function p W → App a p W C → App a p W C
  bind protocol f s = record s { router = Router.bind protocol f s.router }

  abbrev pub bind_member :
      {Self : Type 0} → Bytes → MemberFunction p Self W → Self → App a p W C → App a p W C
  bind_member protocol f self s = record s { router = Router.bind_member protocol f self s.router }

  abbrev pub unbind : Bytes → App a p W C → App a p W C
  unbind protocol s = record s { router = Router.unbind protocol s.router }

  abbrev pub is_bind : Bytes → App a p W C → Bool
  is_bind protocol s = Router.is_bind protocol s.router

  abbrev pub bind_raw : Bytes → RawFunction W → App a p W C → App a p W C
  bind_raw protocol f s = record s { router = Router.bind_raw protocol f s.router }

  abbrev pub bind_member_raw :
      {Self : Type 0} → Bytes → RawMemberFunction Self W → Self → App a p W C → App a p W C
  bind_member_raw protocol f self s = record s {
    router = Router.bind_member_raw protocol f self s.router;
  }

  abbrev pub unbind_raw : Bytes → App a p W C → App a p W C
  unbind_raw protocol s = record s { router = Router.unbind_raw protocol s.router }

  abbrev pub is_bind_raw : Bytes → App a p W C → Bool
  is_bind_raw protocol s = Router.is_bind_raw protocol s.router
