-- ===== src/IoServicePool/RoundRobin.antt =====
-- The order of the io_services (easyrpc/server/io_service_pool.hpp).
use easyrpc.Prelude.{
  ℕ, zero, suc, ◌+◌, ◌%◌, ◌≤◌, ◌<◌, ◌≡◌, ◌≢◌, refl, ap, sym, ◌∙◌, none, List, [], ◌∷◌, ◌++◌, length,
  get_elem?, length-append, arith, ◌==◌, if◌then◌else◌,
}
use native.Mathlib.Nat.{mod-eq_of_lt, add-mod_left, mod-lt}
use native.Mathlib.Decide.{ℕ_discrete}
use easyrpc.Prelude.Exec.{ok}
use easyrpc.IoServicePool.{IoServicePool, add_services, create, get_io_service}

next_inside : (i n : ℕ) → i ≤ n → 0 < n → (if i == n then 0 else i) < n
next_inside i n le pos = ground arith

-- The index after a step, and after `n` more.
next_mod : (i k n : ℕ) → i < k → ((if i + 1 == k then 0 else i + 1) + n) % k ≡ (i + suc n) % k
next_mod i k n h = elim (ℕ_discrete (i + 1) k) [
  | yes e ↦
      let there : (i + suc n) % k ≡ (k + n) % k = ap (λ m. m % k) (omega arith) in
      rw (there, add-mod_left k n) (ground arith)
  | no ne ↦ let same : i + suc n ≡ i + 1 + n = omega arith in rw same (ground arith)
]

module _ {I : Type 0} where
  -- The index of the next io_service is one of the vector.
  pub record IsPool (pool : IoServicePool I) : Type 0 where
    pub inside : pool.next_io_service < length pool.ios_vec
    pub kept_busy : pool.work_vec ≡ pool.ios_vec

  abbrev no_services : IoServicePool I
  no_services = record { ios_vec = []; work_vec = []; ran = []; stopped = []; next_io_service = 0 }

  get_elem?-inside : (xs : List I) (i : ℕ) → i < length xs → get_elem? xs i ≢ none
  get_elem?-inside [] i h = elim h [ ]
  get_elem?-inside (x ∷ xs) zero h = λ e. cc
  get_elem?-inside (x ∷ xs) (suc i) h = get_elem?-inside xs i (omega arith)

  add_services-vec :
      (make : ℕ → I) (i rounds : ℕ) (pool : IoServicePool I)
      → pool.work_vec ≡ pool.ios_vec
      → (length (add_services make i rounds pool).ios_vec ≡ length pool.ios_vec + rounds)
        × ((add_services make i rounds pool).work_vec ≡ (add_services make i rounds pool).ios_vec)
        × ((add_services make i rounds pool).next_io_service ≡ pool.next_io_service)
  unfolding add_services
  add_services-vec make i zero pool e = (omega arith, e, refl)
  add_services-vec make i (suc rounds) pool e =
      let (n, same, next) =
        add_services-vec make (suc i) rounds
          (record pool {
            ios_vec = pool.ios_vec ++ make i ∷ [];
            work_vec = pool.work_vec ++ make i ∷ [];
          })
          (ap (λ v. v ++ make i ∷ []) e) in
      (omega (arith, n, length-append pool.ios_vec (make i ∷ [])), same, next)

  -- Once `n` io_services were handed out, the index has moved on by `n`, modulo their number.
  pub taken_from : ℕ → IoServicePool I → IoServicePool I
  taken_from zero pool = pool
  taken_from (suc n) pool = taken_from n (get_io_service pool).1

  -- A pool of a positive number of io_services is made: it has that many, each with its work, and
  -- its first index is one of the vector.
  pub create-IsPool :
      (make : ℕ → I) (n : ℕ)
      → 0 < n
      → (pool : IoServicePool I) × (create make n ≡ ok pool)
        × IsPool pool
        × (length pool.ios_vec ≡ n)
  unfolding create
  create-IsPool make n pos =
      let (size, same, next) = add_services-vec make 0 n no_services refl in
      (
        add_services make 0 n no_services,
        ground arith,
        record { inside = omega (arith, size, next); kept_busy = same },
        omega (arith, size),
      )

  -- The index stays inside of the vector, so that no call reads outside of it.
  pub get_io_service-IsPool :
      (pool : IoServicePool I)
      → IsPool pool
      → IsPool (get_io_service pool).1 × ((get_io_service pool).0 ≢ none)
  unfolding get_io_service
  get_io_service-IsPool pool v = (
    record {
      inside =
          next_inside (pool.next_io_service + 1) (length pool.ios_vec) (omega (arith, v.inside))
            (omega (arith, v.inside));
      kept_busy = v.kept_busy;
    },
    get_elem?-inside pool.ios_vec pool.next_io_service v.inside,
  )

  pub taken_from-index :
      (n : ℕ) (pool : IoServicePool I)
      → IsPool pool
      → (taken_from n pool).next_io_service ≡ (pool.next_io_service + n) % length pool.ios_vec
  unfolding taken_from get_io_service
  taken_from-index zero pool v = sym (mod-eq_of_lt (omega (arith, v.inside)) ∙ omega arith)
  taken_from-index (suc n) pool v =
      taken_from-index n (get_io_service pool).1 (get_io_service-IsPool pool v).0
      ∙ next_mod pool.next_io_service (length pool.ios_vec) n v.inside

  taken_from-ios_vec : (n : ℕ) (pool : IoServicePool I) → (taken_from n pool).ios_vec ≡ pool.ios_vec
  unfolding taken_from get_io_service
  taken_from-ios_vec zero pool = refl
  taken_from-ios_vec (suc n) pool = taken_from-ios_vec n (get_io_service pool).1

  -- On a pool whose index is inside of its vector, the call after `n` calls gives the io_service
  -- that stands `n` places further on, counted around the vector, and there is one.
  pub round_robin :
      (n : ℕ) (pool : IoServicePool I)
      → IsPool pool
      → ((get_io_service (taken_from n pool)).0
          ≡ get_elem? pool.ios_vec ((pool.next_io_service + n) % length pool.ios_vec))
        × ((get_io_service (taken_from n pool)).0 ≢ none)
  unfolding get_io_service
  round_robin n pool v =
      let same = given n pool v in
      (
        same,
        λ e.
            get_elem?-inside pool.ios_vec _
              (mod-lt (pool.next_io_service + n) (omega (arith, v.inside))) (sym same ∙ e),
      )
    where
      given :
          (n : ℕ) (pool : IoServicePool I)
          → IsPool pool
          → get_elem? (taken_from n pool).ios_vec (taken_from n pool).next_io_service
            ≡ get_elem? pool.ios_vec ((pool.next_io_service + n) % length pool.ios_vec)
      given n pool v = rw (taken_from-ios_vec n pool, taken_from-index n pool v)
