-- ===== src/Timer.antt =====
-- easyrpc/base/atimer.hpp: callbacks that run when a deadline passes, once or again and again.
use easyrpc.Prelude.{ℕ, ◌≡◌, Bool, false, List, [], ◌∷◌, ◌++◌, if◌then◌else◌}
use easyrpc.Asio.{Asio}

-- `F` stands for the closures that the owner binds.
pub record Timer (a : Asio) (F : Type 0) : Type 0 where
  pub timer : a.Deadline
  pub func_vec : List F
  pub is_single_shot : Bool

module _ {a : Asio} {F : Type 0} where
  abbrev pub create : Timer a F
  create = record { timer = a.new_deadline; func_vec = []; is_single_shot = false }

  abbrev pub start : ℕ → Timer a F → Timer a F
  start duration t = record t { timer = a.arm duration t.timer }

  abbrev pub stop : Timer a F → Timer a F
  stop t = record t { timer = a.cancel t.timer }

  abbrev pub destroy : Timer a F → Timer a F
  destroy t = stop t

  abbrev pub bind : F → Timer a F → Timer a F
  bind func t = record t { func_vec = t.func_vec ++ func ∷ [] }

  abbrev pub set_single_shot : Bool → Timer a F → Timer a F
  set_single_shot b t = record t { is_single_shot = b }

-- The loop over `func_vec_`.
unfoldable pub run_all : {F S : Type 0} → (F → S → S) → List F → S → S
run_all run [] s = s
run_all run (func ∷ fs) s = run_all run fs (run func s)

-- The handler of `async_wait`, on the state `S` of the timer's owner; `failed` is `ec`.
module _ {a : Asio} {F S : Type 0} (run : F → S → S) (get : S → Timer a F)
    (put : Timer a F → S → S) where
  unfoldable pub on_wait : ℕ → Bool → S → S
  on_wait duration failed s =
      let s' = run_all run (get s).func_vec s in
      if failed then s else if (get s').is_single_shot then s' else put (start duration (get s')) s'

-- Callbacks that all do the same idempotent thing do it once, however many there are.
pub run_all_idempotent :
    {F S : Type 0} (run : F → S → S) (act : S → S)
    → ((f : F) (s : S) → run f s ≡ act s)
    → ((s : S) → act (act s) ≡ act s)
    → (f : F) (fs : List F) (s : S) → run_all run (f ∷ fs) s ≡ act s
unfolding run_all
run_all_idempotent run act same once f [] s = same f s
run_all_idempotent run act same once f (g ∷ fs) s =
    rw (run_all_idempotent run act same once g fs (run f s), same f s) (once s)

-- The same where the last callback is known.
pub run_all_append :
    {F S : Type 0} (run : F → S → S) (act : S → S)
    → ((f : F) (s : S) → run f s ≡ act s)
    → ((s : S) → act (act s) ≡ act s)
    → (fs : List F) (f : F) (s : S) → run_all run (fs ++ f ∷ []) s ≡ act s
run_all_append run act same once [] f s = run_all_idempotent run act same once f [] s
run_all_append run act same once (g ∷ fs) f s =
    run_all_idempotent run act same once g (fs ++ f ∷ []) s
