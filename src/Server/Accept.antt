-- ===== src/Server/Accept.antt =====
-- The accept loop (easyrpc/server/server.hpp, easyrpc/server/io_service_pool.hpp).
use easyrpc.Prelude.{ℕ, ◌≡◌, refl, Bool, true, false, some, inl, inr, Option-cases, if◌then◌else◌}
use easyrpc.Header.{request_header_len}
use easyrpc.Asio.{Asio}
use easyrpc.Connection
use easyrpc.Connection.{Connection, head_bytes}
use easyrpc.IoServicePool.{get_io_service}
use easyrpc.IoServicePool.RoundRobin.{IsPool, get_io_service-IsPool}
use easyrpc.Server.{Server, accept, on_accept, make_connection}

module _ {a : Asio} where
  pub accept_waits :
      (s : Server a)
      → IsPool s.ios_pool
      → (ios : ℕ) × ((accept s).accepting ≡ some (some ios, make_connection s.timeout_milli))
  unfolding accept
  accept_waits s v = elim (Option-cases (get_io_service s.ios_pool).0) [
    | inl e ↦ absurd ((get_io_service-IsPool s.ios_pool v).1 e)
    | inr (ios, e) ↦ (ios, rw e)
  ]

  start-pending :
      (conn : Connection a) → (Connection.start conn).pending ≡ head_bytes request_header_len
  unfolding Connection.start
  start-pending conn = refl

  -- Whether an accept failed or not, the server accepts again, with a new connection on an io_service
  -- of its pool, whose index stays inside of the vector. The connection that was accepted reads a
  -- request header next; one that failed is left as it was.
  on_accept_accepts :
      (failed : Bool) (conn : Connection a) (s : Server a)
      → IsPool s.ios_pool
      → IsPool (on_accept failed conn s).1.ios_pool
        × ((ios : ℕ) × ((on_accept failed conn s).1.accepting
              ≡ some (some ios, make_connection s.timeout_milli)))
        × ((on_accept failed conn s).0.pending
            ≡ (if failed then conn.pending else head_bytes request_header_len))
  unfolding on_accept
  on_accept_accepts true conn s v =
      (unfold accept in (get_io_service-IsPool s.ios_pool v).0, accept_waits s v, refl)
  on_accept_accepts false conn s v = (
    unfold accept in (get_io_service-IsPool s.ios_pool v).0,
    accept_waits s v,
    start-pending conn,
  )
