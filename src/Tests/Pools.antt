-- ===== src/Tests/Pools.antt =====
-- The thread pool and the pool of io_services at concrete inputs.
use easyrpc.Prelude.{ℕ, ◌+◌, ◌%◌, ◌≡◌, ◌≢◌, refl, none, [], ◌∷◌, length, get_elem?, arith}
use easyrpc.IoServicePool.{IoServicePool, get_io_service}
use easyrpc.IoServicePool.RoundRobin.{IsPool, taken_from, round_robin}

abbrev three : IoServicePool ℕ
three = record {
  ios_vec = 10 ∷ 11 ∷ 12 ∷ [];
  work_vec = 10 ∷ 11 ∷ 12 ∷ [];
  ran = [];
  stopped = [];
  next_io_service = 0;
}

three-IsPool : IsPool three
three-IsPool = record { inside = omega arith; kept_busy = refl }

round_robin_example :
    ((get_io_service (taken_from 4 three)).0
      ≡ get_elem? three.ios_vec ((three.next_io_service + 4) % length three.ios_vec))
    × ((get_io_service (taken_from 4 three)).0 ≢ none)
round_robin_example = round_robin 4 three three-IsPool
