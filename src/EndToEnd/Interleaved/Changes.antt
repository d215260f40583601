-- ===== src/EndToEnd/Interleaved/Changes.antt =====
-- What binding and unbinding does to requests that wait (easyrpc/server/router.hpp).
use easyrpc.Prelude.{◌≡◌, refl, ap, sym, ◌∙◌, List, [], ◌∷◌, Bytes, map, All}
use easyrpc.Header.{CallMode, raw, non_raw, unnamed}
use easyrpc.Asio.{Asio}
use easyrpc.EasyPack.{EasyPack}
use easyrpc.Router.{
  Router, Task, bind, unbind, bind_raw, unbind_raw, bind_non_member_func, bind_non_member_func_raw,
}
use easyrpc.Router.Slots.Laws.{IsMap, assign-IsMap, erase-IsMap}
use easyrpc.Router.Slots.References.{assigns, erases, edit-finds}
use easyrpc.Router.Invoker.Invoke.{bound, bound_raw}
use easyrpc.EndToEnd.Interleaved.{Arrival, Change, binds, unbinds, binds_raw, unbinds_raw, change}
use easyrpc.EndToEnd.Interleaved.Schedule.{
  BoundIn, Spared, Untouched, address_of, callee_of, queued, waiting,
}

module _ {p : EasyPack} {W C : Type 0} where
  -- Both maps of handlers are well formed.
  abbrev pub AreMaps : Router p W C → Type 0
  AreMaps r = IsMap r.invoker_map × IsMap r.invoker_raw_map

  pub change-AreMaps : (x : Change p W) (r : Router p W C) → AreMaps r → AreMaps (change x r)
  unfolding change bind unbind bind_raw unbind_raw bind_non_member_func bind_non_member_func_raw
  change-AreMaps (binds name f) r (v, v') = (assign-IsMap name (bound f) r.invoker_map v, v')
  change-AreMaps (unbinds name) r (v, v') = (erase-IsMap name r.invoker_map v, v')
  change-AreMaps (binds_raw name f) r (v, v') =
      (v, assign-IsMap name (bound_raw f) r.invoker_raw_map v')
  change-AreMaps (unbinds_raw name) r (v, v') = (v, erase-IsMap name r.invoker_raw_map v')

  pub threadpool-change :
      (x : Change p W) (r : Router p W C) → (change x r).threadpool ≡ r.threadpool
  unfolding change bind unbind bind_raw unbind_raw bind_non_member_func bind_non_member_func_raw
  threadpool-change (binds name f) r = refl
  threadpool-change (unbinds name) r = refl
  threadpool-change (binds_raw name f) r = refl
  threadpool-change (unbinds_raw name) r = refl

  -- A change leaves the queue alone.
  change-queue :
      (x : Change p W) (r : Router p W C) (queue : List (Task C))
      → change x (record r { threadpool = record r.threadpool { task_queue = queue } })
        ≡ record (change x r) { threadpool = record (change x r).threadpool { task_queue = queue } }
  unfolding change bind unbind bind_raw unbind_raw bind_non_member_func bind_non_member_func_raw
  change-queue (binds name f) r queue = refl
  change-queue (unbinds name) r queue = refl
  change-queue (binds_raw name f) r queue = refl
  change-queue (unbinds_raw name) r queue = refl

  -- A change that does not unbind a name keeps it bound, and keeps the reference to its element.
  change-callee_of :
      (x : Change p W) (mode : CallMode) (n : Bytes) (r : Router p W C)
      → BoundIn mode n r
      → Spared x mode n
      → BoundIn mode n (change x r) × (callee_of mode n (change x r) ≡ callee_of mode n r)
  unfolding change bind unbind bind_raw unbind_raw bind_non_member_func bind_non_member_func_raw
      callee_of address_of
  change-callee_of x (unnamed w) n r never spared = absurd never
  change-callee_of (binds name f) non_raw n r (e, found) spared =
      let (e', found', same) = edit-finds n e r.invoker_map (assigns name (bound f)) found tt in
      ((e', found'), rw (found, found', same))
  change-callee_of (unbinds name) non_raw n r (e, found) spared =
      let (e', found', same) = edit-finds n e r.invoker_map (erases name) found spared in
      ((e', found'), rw (found, found', same))
  change-callee_of (binds_raw name f) non_raw n r h spared = (h, refl)
  change-callee_of (unbinds_raw name) non_raw n r h spared = (h, refl)
  change-callee_of (binds name f) raw n r h spared = (h, refl)
  change-callee_of (unbinds name) raw n r h spared = (h, refl)
  change-callee_of (binds_raw name f) raw n r (e, found) spared =
      let (e', found', same) =
        edit-finds n e r.invoker_raw_map (assigns name (bound_raw f)) found tt in
      ((e', found'), rw (found, found', same))
  change-callee_of (unbinds_raw name) raw n r (e, found) spared =
      let (e', found', same) = edit-finds n e r.invoker_raw_map (erases name) found spared in
      ((e', found'), rw (found, found', same))

module _ {p : EasyPack} {W : Type 0} where
  -- What is not written is not unbound.
  Untouched-Spared :
      (x : Change p W) (mode : CallMode) (n : Bytes) → Untouched x mode n → Spared x mode n
  Untouched-Spared (binds name f) mode n h = tt
  Untouched-Spared (unbinds name) mode n h = h
  Untouched-Spared (binds_raw name f) mode n h = tt
  Untouched-Spared (unbinds_raw name) mode n h = h

module _ {a : Asio} {p : EasyPack} {W C : Type 0} where
  -- The name of a request is bound, for its mode of call.
  abbrev pub IsBound : Router p W C → Arrival a C → Type 0
  IsBound r x = BoundIn x.mode x.request.name r

  pub All-Untouched-Spared :
      (x : Change p W) (hs : List (Arrival a C))
      → All (λ h. Untouched x h.mode h.request.name) hs
      → All (λ h. Spared x h.mode h.request.name) hs
  All-Untouched-Spared x [] u = tt
  All-Untouched-Spared x (h ∷ hs) (u, us) =
      (Untouched-Spared x h.mode h.request.name u, All-Untouched-Spared x hs us)

  -- A change that unbinds no name that waiting requests have keeps these requests bound, and keeps
  -- the references of their tasks.
  pub change-queued :
      (x : Change p W) (qs : List (Arrival a C)) (r : Router p W C)
      → All (IsBound r) qs
      → All (λ q. Spared x q.mode q.request.name) qs
      → All (IsBound (change x r)) qs × (map (queued (change x r)) qs ≡ map (queued r) qs)
  change-queued x [] r hs spared = (tt, refl)
  change-queued x (q ∷ qs) r (h, hs) (spares, spared) =
      let (h', same) = change-callee_of x q.mode q.request.name r h spares in
      let (hs', kept) = change-queued x qs r hs spared in ((h', hs'), rw (same, kept))

  pub change-waiting :
      (x : Change p W) (qs : List (Arrival a C)) (r : Router p W C)
      → map (queued (change x r)) qs ≡ map (queued r) qs
      → change x (waiting qs r) ≡ waiting qs (change x r)
  change-waiting x qs r kept =
      change-queue x r (map (queued r) qs)
      ∙ ap
          (λ queue. record (change x r) {
            threadpool = record (change x r).threadpool { task_queue = queue };
          })
          (sym kept)
