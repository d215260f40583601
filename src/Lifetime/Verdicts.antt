-- ===== src/Lifetime/Verdicts.antt =====
-- What the router does to the number of tasks (easyrpc/server/router.hpp, `route`).
use easyrpc.Prelude.{
  ℕ, suc, ◌≡◌, sym, ap, ◌∙◌, ◌⊎◌, inl, inr, Bool, true, false, [], ◌∷◌, Bytes, length, arith,
  Bool-cases, if◌then◌else◌, length-append,
}
use native.Mathlib.Decide.{ℕ_discrete}
use easyrpc.Prelude.Outcome.{Outcome, done, waits}
use easyrpc.Header.{CallMode}
use easyrpc.EasyPack.{EasyPack}
use easyrpc.ThreadPool.{max_task_queue_size}
use easyrpc.Router.{Router, Task, route}
use easyrpc.Router.Routing.{HasRoom, is_bound, enqueue, route_bound, route_not_queued}
use easyrpc.Lifetime.{Verdict, refused, dropped, queued, verdict}

module _ {p : EasyPack} {W C : Type 0} where
  abbrev tasks_of : Router p W C → ℕ
  tasks_of r = length r.threadpool.task_queue

  room_or_full : (r : Router p W C) → HasRoom r ⊎ (¬ HasRoom r)
  room_or_full r = elim (Bool-cases r.threadpool.is_stopped) [
    | inl stopped ↦ inr (λ h. cc (h.running, stopped))
    | inr runs ↦ elim (ℕ_discrete (tasks_of r) max_task_queue_size) [
      | yes e ↦ inr (λ h. h.room e)
      | no ne ↦ inl (record { running = runs; room = ne })
    ]
  ]

  not_queued_verdict :
      (protocol body : Bytes) (mode : CallMode) (bound stopped b : Bool) (r r' : Router p W C)
      → (if◌then◌else◌ {A = Outcome (Bool × Router p W C)} bound
          (if stopped then done (true, r) else waits)
          (done (false, r)))
        ≡ done (b, r')
      → (v : Verdict) × (verdict v protocol body mode (tasks_of r) ≡ done (b, tasks_of r'))
  unfolding verdict
  not_queued_verdict protocol body mode false stopped b r r' e = (refused, cc)
  not_queued_verdict protocol body mode true true b r r' e = (dropped, cc)
  not_queued_verdict protocol body mode true false b r r' e = absurd cc

  enqueued :
      (task : Task C) (b : Bool) (r r' : Router p W C)
      → ◌≡◌ {A = Outcome (Bool × Router p W C)} (done (true, enqueue task r)) (done (b, r'))
      → (true ≡ b) × (suc (tasks_of r) ≡ tasks_of r')
  enqueued task b r r' e =
      let same : enqueue task r ≡ r' = cc in
      let first : true ≡ b = cc in
      (
        first,
        sym (omega (arith, length-append r.threadpool.task_queue (task ∷ []))) ∙ ap tasks_of same,
      )

  -- Whatever the router does with a request, one of the three verdicts says it.
  route-verdict :
      (conn : C) (protocol body : Bytes) (mode : CallMode) (b : Bool) (r r' : Router p W C)
      → route conn protocol body mode r ≡ done (b, r')
      → (v : Verdict) × (verdict v protocol body mode (tasks_of r) ≡ done (b, tasks_of r'))
  unfolding verdict
  route-verdict conn protocol body mode b r r' e = elim (Bool-cases (is_bound mode protocol r)) [
    | inr unbound ↦
        not_queued_verdict protocol body mode _ _ b r r'
          (sym (route_not_queued conn protocol body mode r (inl unbound)) ∙ e)
    | inl bound ↦ elim (room_or_full r) [
      | inr full ↦
          not_queued_verdict protocol body mode _ _ b r r'
            (sym (route_not_queued conn protocol body mode r (inr full)) ∙ e)
      | inl room ↦
          let (callee, _, went) = route_bound conn protocol body mode r bound room in
          let (yes_, one_more) = enqueued _ b r r' (sym went ∙ e) in (queued, rw (one_more, yes_))
    ]
  ]
