-- ===== src/Tests/Servers.antt =====
-- A server that starts, one that does not, and an address that is used twice.
use easyrpc.Prelude.{
  ℕ, ◌<◌, ◌≡◌, ◌⊎◌, ◌↔◌, refl, false, none, some, [], ◌∷◌, ◌++◌, codes, length, arith, ltb,
  if◌then◌else◌, ◌*◌,
}
use easyrpc.Prelude.Exec.{Exception, invalid_argument, ok, throw, out_of_range, library}
use easyrpc.Router.{Router}
use easyrpc.ThreadPool.{max_thread_size}
use easyrpc.StringUtil.{mem_byte, split_text}
use easyrpc.Number.{to_string}
use easyrpc.Server.{Server, App, create, run, listen, listen_texts, make_connection}
use easyrpc.Server.Address.{colon}
use easyrpc.Server.Run.{configured, with_threads, Takes, server_starts, run_throws_iff}
use easyrpc.Asio.{Asio}
use easyrpc.Number.Wrap.{int_limit, wrapped}
use easyrpc.Number.Value.{Numeral, decimal}
use easyrpc.Server.Ports.{listen_texts_wraps}
use easyrpc.Server.Retry.{runs, run_retried}
use easyrpc.Server.Reuse.{listen_twice}
use easyrpc.Tests.World.{pipes, bytes_pack}

abbrev router : Router bytes_pack ℕ ℕ
router = record {
  threadpool = record { threads = 0; task_queue = []; is_stopped = false; was_called = false };
  invoker_map = record { elements = []; fresh = 0 };
  invoker_raw_map = record { elements = []; fresh = 0 };
}

server_starts_example :
    (s : Server pipes) × (create 2 ≡ ok s)
    × (length s.ios_pool.ios_vec ≡ 2)
    × ((run (configured 10 50051 3000 (codes "127.0.0.1") s router)).0 ≡ ok tt)
    × ((run (configured 10 50051 3000 (codes "127.0.0.1") s router)).1.router
        ≡ with_threads 10 router)
    × ((run (configured 10 50051 3000 (codes "127.0.0.1") s router)).1.server.ios_pool.ran
        ≡ s.ios_pool.ran ++ s.ios_pool.ios_vec)
    × ((ios : ℕ) × ((run (configured 10 50051 3000 (codes "127.0.0.1") s router)).1.server.accepting
          ≡ some (some ios, make_connection 3000)))
server_starts_example =
    server_starts {a = pipes} 2 10 50051 3000 (codes "127.0.0.1") router tt (omega arith)
      (omega arith) (omega arith) refl

abbrev workers : ℕ
workers = 31

-- A server that asks for 31 workers.
abbrev crowded : App pipes bytes_pack ℕ ℕ
crowded = record {
  server = record {
    ios_pool = record {
      ios_vec = 0 ∷ [];
      work_vec = 0 ∷ [];
      ran = [];
      stopped = [];
      next_io_service = 0;
    };
    acceptor = tt;
    ip = codes "0.0.0.0";
    port = 50051;
    timeout_milli = 0;
    thread_num = workers;
    accepting = none;
  };
  router = router;
}

abbrev refusal : Exception
refusal = invalid_argument "Number of threads in the range of 1 to 30"

run_throws_iff_example : ((run crowded).0 ≡ throw refusal) ↔ (
    (((workers ≡ 0) ⊎ (max_thread_size < workers)) × (refusal ≡ refusal))
    ⊎ (Takes workers × ((pipes.listen (codes "0.0.0.0") 50051 tt).0 ≡ throw refusal)))
run_throws_iff_example = run_throws_iff crowded refusal

listen_twice_example :
    listen (split_text (codes "h" ++ b':' ∷ to_string 50051) colon) crowded.server
    ≡ listen_texts (codes "0.0.0.0") (codes "h" ++ 0 ∷ to_string 50051) crowded.server
unfolding mem_byte
listen_twice_example =
    listen_twice (codes "h") 50051 crowded.server ((λ e. cc), (refl, tt)) ((λ e. omega arith), tt)

-- A port of five digits that are more than 2^16, behind a blank and in front of a letter.
listen_texts_wraps_example :
    ((n : Numeral (codes " 70000x")) × (listen_texts (codes "h") (codes " 70000x") crowded.server
        ≡ (if ltb (int_limit n.negative) (decimal n.digits)
            then (throw (out_of_range "stoi"), crowded.server)
            else (
              ok tt,
              record crowded.server {
                ip = codes "h";
                port = wrapped n.negative (decimal n.digits);
              },
            ))))
    ⊎ ((¬ Numeral (codes " 70000x"))
        × (listen_texts (codes "h") (codes " 70000x") crowded.server
            ≡ (throw (invalid_argument "stoi"), crowded.server)))
listen_texts_wraps_example = listen_texts_wraps (codes "h") (codes " 70000x") crowded.server

-- An address that is in use.
abbrev in_use : Asio
in_use = record pipes {
  listen = λ ip port acceptor. (throw (library "bind: Address already in use"), acceptor);
}

abbrev unheard : App in_use bytes_pack ℕ ℕ
unheard = record {
  server = record {
    ios_pool = crowded.server.ios_pool;
    acceptor = tt;
    ip = codes "0.0.0.0";
    port = 50051;
    timeout_milli = 0;
    thread_num = 20;
    accepting = none;
  };
  router = router;
}

run_retried_example :
    ((runs 2 unheard).router ≡ with_threads (2 * 20) router)
    × ((run (runs 2 unheard)).0 ≡ throw (library "bind: Address already in use"))
run_retried_example =
    run_retried 2 unheard (library "bind: Address already in use") (omega arith, omega arith)
      (λ acceptor. refl)
