-- ===== src/EndToEnd/Interleaved/Rounds.antt =====
-- Events of workers alone, behind any others (easyrpc/base/thread_pool.hpp).
use easyrpc.Prelude.{
  ℕ, zero, suc, ◌≡◌, refl, ap, ◌∙◌, inl, inr, List, [], ◌∷◌, ◌++◌, length, ltb, Bool-cases,
}
use easyrpc.Asio.{Asio}
use easyrpc.EasyPack.{EasyPack}
use easyrpc.Connection.{Connection}
use easyrpc.Router.{Router}
use easyrpc.EndToEnd.Interleaved.{Arrival, Event, arrives, begins, finishes, changes, change}
use easyrpc.EndToEnd.Interleaved.Picks.{pick_cases}
use easyrpc.EndToEnd.Interleaved.Plans.{Admits-free, Admits-full, Admits-missing, Admits-found}
use easyrpc.EndToEnd.Interleaved.Schedule.{arrivals, rebind, Admits}
use easyrpc.EndToEnd.Interleaved.Changes.{threadpool-change}
use easyrpc.EndToEnd.Interleaved.Fifo.{Any, All-Any}

module _ {a : Asio} {p : EasyPack} {W C : Type 0} where
  -- A worker that takes a task and is done with it, again and again.
  abbrev pub turns : ℕ → (C → Connection a) → List (Event a p W C)
  turns zero conns = []
  turns (suc n) conns = begins ∷ finishes 0 conns ∷ turns n conns

  -- The workers are done with their `m` tasks, and then with `n` others, one after the other.
  abbrev pub drain : ℕ → ℕ → (C → Connection a) → List (Event a p W C)
  drain zero n conns = turns n conns
  drain (suc m) n conns = finishes 0 conns ∷ drain m n conns

  -- Events of workers only.
  abbrev pub AreRounds : List (Event a p W C) → Type 0
  AreRounds [] = Unit
  AreRounds (arrives x ∷ xs) = ⊥
  AreRounds (begins ∷ xs) = AreRounds xs
  AreRounds (finishes i conns ∷ xs) = AreRounds xs
  AreRounds (changes x ∷ xs) = ⊥

module _ {a : Asio} (p : EasyPack) (W : Type 0) {C : Type 0} where
  turns-AreRounds : (n : ℕ) (conns : C → Connection a) → AreRounds {p = p} {W = W} (turns n conns)
  turns-AreRounds zero conns = tt
  turns-AreRounds (suc n) conns = turns-AreRounds n conns

  pub drain-AreRounds :
      (m n : ℕ) (conns : C → Connection a) → AreRounds {p = p} {W = W} (drain m n conns)
  drain-AreRounds zero n conns = turns-AreRounds n conns
  drain-AreRounds (suc m) n conns = drain-AreRounds m n conns

module _ {a : Asio} {p : EasyPack} {W C : Type 0} where
  pub arrivals-rounds :
      (xs ys : List (Event a p W C)) → AreRounds ys → arrivals (xs ++ ys) ≡ arrivals xs
  unfolding arrivals
  arrivals-rounds [] [] h = refl
  arrivals-rounds [] (begins ∷ ys) h = arrivals-rounds [] ys h
  arrivals-rounds [] (finishes i conns ∷ ys) h = arrivals-rounds [] ys h
  arrivals-rounds [] (arrives x ∷ ys) h = absurd h
  arrivals-rounds [] (changes x ∷ ys) h = absurd h
  arrivals-rounds (arrives x ∷ xs) ys h = ap (λ l. x ∷ l) (arrivals-rounds xs ys h)
  arrivals-rounds (begins ∷ xs) ys h = arrivals-rounds xs ys h
  arrivals-rounds (finishes i conns ∷ xs) ys h = arrivals-rounds xs ys h
  arrivals-rounds (changes x ∷ xs) ys h = arrivals-rounds xs ys h

  pub rebind-rounds :
      (xs ys : List (Event a p W C)) (r : Router p W C)
      → AreRounds ys
      → rebind (xs ++ ys) r ≡ rebind xs r
  unfolding rebind
  rebind-rounds [] [] r h = refl
  rebind-rounds [] (begins ∷ ys) r h = rebind-rounds [] ys r h
  rebind-rounds [] (finishes i conns ∷ ys) r h = rebind-rounds [] ys r h
  rebind-rounds [] (arrives x ∷ ys) r h = absurd h
  rebind-rounds [] (changes x ∷ ys) r h = absurd h
  rebind-rounds (arrives x ∷ xs) ys r h = rebind-rounds xs ys r h
  rebind-rounds (begins ∷ xs) ys r h = rebind-rounds xs ys r h
  rebind-rounds (finishes i conns ∷ xs) ys r h = rebind-rounds xs ys r h
  rebind-rounds (changes x ∷ xs) ys r h = rebind-rounds xs ys (change x r) h

  pub threadpool-rebind :
      (xs : List (Event a p W C)) (r : Router p W C) → (rebind xs r).threadpool ≡ r.threadpool
  unfolding rebind
  threadpool-rebind [] r = refl
  threadpool-rebind (arrives x ∷ xs) r = threadpool-rebind xs r
  threadpool-rebind (begins ∷ xs) r = threadpool-rebind xs r
  threadpool-rebind (finishes i conns ∷ xs) r = threadpool-rebind xs r
  threadpool-rebind (changes x ∷ xs) r = threadpool-rebind xs (change x r) ∙ threadpool-change x r

  -- Workers alone ask for nothing.
  Admits-rounds_alone :
      (r : Router p W C) (hs qs : List (Arrival a C)) (ys : List (Event a p W C))
      → AreRounds ys
      → Admits r hs qs ys
  unfolding Admits
  Admits-rounds_alone r hs qs [] h = tt
  Admits-rounds_alone r hs [] (begins ∷ ys) h = Admits-rounds_alone r hs [] ys h
  Admits-rounds_alone r hs (q ∷ qs) (begins ∷ ys) h =
      elim (Bool-cases (ltb (length hs) r.threadpool.threads)) [
        | inl free ↦ rw (free, Admits) (Admits-rounds_alone r (hs ++ q ∷ []) qs ys h)
        | inr full ↦ rw (full, Admits) (Admits-rounds_alone r hs (q ∷ qs) ys h)
      ]
  Admits-rounds_alone r hs qs (finishes i conns ∷ ys) h =
      elim (pick_cases (λ x. x) Any i hs (All-Any hs)) [
        | inl (missing, _) ↦ rw (missing, Admits) (Admits-rounds_alone r hs qs ys h)
        | inr k ↦ rw (k.found, Admits) (Admits-rounds_alone r k.others qs ys h)
      ]
  Admits-rounds_alone r hs qs (arrives x ∷ ys) h = absurd h
  Admits-rounds_alone r hs qs (changes x ∷ ys) h = absurd h

  pub Admits-rounds :
      (r : Router p W C) (hs qs : List (Arrival a C)) (xs ys : List (Event a p W C))
      → AreRounds ys
      → Admits r hs qs xs
      → Admits r hs qs (xs ++ ys)
  unfolding Admits
  Admits-rounds r hs qs [] ys h g = Admits-rounds_alone r hs qs ys h
  Admits-rounds r hs qs (arrives x ∷ xs) ys h (fits, room, g) =
      (fits, room, Admits-rounds r hs (qs ++ x ∷ []) xs ys h g)
  Admits-rounds r hs qs (changes x ∷ xs) ys h (untouched, spared, g) =
      (untouched, spared, Admits-rounds (change x r) hs qs xs ys h g)
  Admits-rounds r hs [] (begins ∷ xs) ys h g = Admits-rounds r hs [] xs ys h g
  Admits-rounds r hs (q ∷ qs) (begins ∷ xs) ys h g =
      elim (Bool-cases (ltb (length hs) r.threadpool.threads)) [
        | inl free ↦
            rw (free, Admits)
              (Admits-rounds r (hs ++ q ∷ []) qs xs ys h (Admits-free r hs q qs xs free g))
        | inr full ↦
            rw (full, Admits)
              (Admits-rounds r hs (q ∷ qs) xs ys h (Admits-full r hs q qs xs full g))
      ]
  Admits-rounds r hs qs (finishes i conns ∷ xs) ys h g =
      elim (pick_cases (λ x. x) Any i hs (All-Any hs)) [
        | inl (missing, _) ↦
            rw (missing, Admits)
              (Admits-rounds r hs qs xs ys h (Admits-missing r hs i conns qs xs missing g))
        | inr k ↦
            rw (k.found, Admits)
              (Admits-rounds r k.others qs xs ys h
                (Admits-found r hs i conns qs xs k.one k.others k.found g))
      ]
