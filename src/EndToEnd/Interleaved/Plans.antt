-- ===== src/EndToEnd/Interleaved/Plans.antt =====
-- How the plan of the workers goes on, and what it asks for.
use easyrpc.Prelude.{ℕ, ◌≡◌, true, false, none, some, List, ◌∷◌, ◌++◌, [], ltb, length}
use easyrpc.Asio.{Asio}
use easyrpc.EasyPack.{EasyPack}
use easyrpc.Connection.{Connection}
use easyrpc.Router.{Router}
use easyrpc.EndToEnd.Interleaved.{Arrival, Event, begins, finishes}
use easyrpc.EndToEnd.Interleaved.Picks.{pick}
use easyrpc.EndToEnd.Interleaved.Schedule.{schedule, Admits}

module _ {a : Asio} {p : EasyPack} {W C : Type 0} (r : Router p W C) (hs : List (Arrival a C)) where
  module _ (q : Arrival a C) (qs : List (Arrival a C)) (xs : List (Event a p W C)) where
    pub schedule-free :
        ltb (length hs) r.threadpool.threads ≡ true
        → schedule r hs (q ∷ qs) (begins ∷ xs) ≡ record (schedule r (hs ++ q ∷ []) qs xs) {
          taken = q ∷ (schedule r (hs ++ q ∷ []) qs xs).taken;
        }
    unfolding schedule
    schedule-free free = rw (free, schedule)

    pub schedule-full :
        ltb (length hs) r.threadpool.threads ≡ false
        → schedule r hs (q ∷ qs) (begins ∷ xs) ≡ schedule r hs (q ∷ qs) xs
    unfolding schedule
    schedule-full full = rw (full, schedule)

    pub Admits-free :
        ltb (length hs) r.threadpool.threads ≡ true
        → Admits r hs (q ∷ qs) (begins ∷ xs)
        → Admits r (hs ++ q ∷ []) qs xs
    unfolding Admits
    Admits-free free h = rw (free, Admits) at h

    pub Admits-full :
        ltb (length hs) r.threadpool.threads ≡ false
        → Admits r hs (q ∷ qs) (begins ∷ xs)
        → Admits r hs (q ∷ qs) xs
    unfolding Admits
    Admits-full full h = rw (full, Admits) at h

  module _ (i : ℕ) (conns : C → Connection a) (qs : List (Arrival a C))
      (xs : List (Event a p W C)) where
    pub schedule-missing :
        pick i hs ≡ none → schedule r hs qs (finishes i conns ∷ xs) ≡ schedule r hs qs xs
    unfolding schedule
    schedule-missing missing = rw (missing, schedule)

    pub schedule-found :
        (h : Arrival a C) (others : List (Arrival a C))
        → pick i hs ≡ some (h, others)
        → schedule r hs qs (finishes i conns ∷ xs) ≡ record (schedule r others qs xs) {
          called =
              record { arrival = h; conn = conns h.self; router = r }
              ∷ (schedule r others qs xs).called;
        }
    unfolding schedule
    schedule-found h others found = rw (found, schedule)

    pub Admits-missing :
        pick i hs ≡ none → Admits r hs qs (finishes i conns ∷ xs) → Admits r hs qs xs
    unfolding Admits
    Admits-missing missing h = rw (missing, Admits) at h

    pub Admits-found :
        (one : Arrival a C) (others : List (Arrival a C))
        → pick i hs ≡ some (one, others)
        → Admits r hs qs (finishes i conns ∷ xs)
        → Admits r others qs xs
    unfolding Admits
    Admits-found one others found h = rw (found, Admits) at h
