-- ===== src/Router/Slots/References.antt =====
-- References into the map of handlers, which queued tasks hold (easyrpc/server/router.hpp,
-- easyrpc/base/thread_pool.hpp): how long they are good, and what they read.
use easyrpc.Prelude.{
  ℕ, ◌<◌, ◌≡◌, ◌≢◌, refl, inl, inr, none, some, List, [], ◌∷◌, Bytes, bytes_eq, bytes_eq_iff,
  if◌then◌else◌, All, arith, Option-cases,
}
use easyrpc.Router.Slots.{
  Slot, SlotMap, find_in, value_at, erase_in, write_in, assign_at, find, assign, erase, deref,
}
use easyrpc.Router.Slots.Laws.{
  Apart, Distinct, IsMap, value_of, find-assign, Apart-erase_in, assign-IsMap, erase-IsMap,
  find_in-erase_in,
}

-- What `bind` and `unbind` do to the map.
pub data Edit (V : Type 0) : Type 0 where
  assigns : Bytes → V → Edit V
  erases : Bytes → Edit V

module _ {V : Type 0} where
  abbrev pub edit : Edit V → SlotMap V → SlotMap V
  edit (assigns k v) m = assign k v m
  edit (erases k) m = erase k m

  abbrev pub edits : List (Edit V) → SlotMap V → SlotMap V
  edits [] m = m
  edits (e ∷ es) m = edits es (edit e m)

  -- An edit that does not remove the key.
  abbrev pub Spares : Bytes → Edit V → Type 0
  Spares k (assigns j v) = Unit
  Spares k (erases j) = j ≢ k

  Apart-find_in :
      (d e : Slot V) (k : Bytes) (es : List (Slot V))
      → Apart d es
      → find_in k es ≡ some e
      → e.address ≢ d.address
  unfolding find_in
  Apart-find_in d e k [] h f = cc
  Apart-find_in d e k (x ∷ es) h f = ground (arith, Apart-find_in d e k es h.1)

  value_at-find_in :
      (k : Bytes) (e : Slot V) (es : List (Slot V))
      → Distinct es
      → find_in k es ≡ some e
      → value_at e.address es ≡ some e.value
  unfolding find_in value_at
  value_at-find_in k e [] h f = cc
  value_at-find_in k e (d ∷ es) h f =
      ground (arith, value_at-find_in k e es h.1, Apart-find_in d e k es h.0)

  -- A reference to the element of a key reads the key's value.
  pub deref-find :
      (k : Bytes) (e : Slot V) (m : SlotMap V)
      → IsMap m
      → find k m ≡ some e
      → deref e.address m ≡ some e.value
  unfolding find deref
  deref-find k e m h f = value_at-find_in k e m.elements h.distinct f

  value_at-Apart : (d : Slot V) (es : List (Slot V)) → Apart d es → value_at d.address es ≡ none
  unfolding value_at
  value_at-Apart d [] h = refl
  value_at-Apart d (x ∷ es) h = ground (arith, value_at-Apart d es h.1)

  erase_in_misses : (k : Bytes) (es : List (Slot V)) → find_in k es ≡ none → erase_in k es ≡ es
  unfolding find_in erase_in
  erase_in_misses k [] f = refl
  erase_in_misses k (d ∷ es) f = ground (arith, erase_in_misses k es)

  value_at-erase_in :
      (k : Bytes) (e : Slot V) (es : List (Slot V))
      → Distinct es
      → find_in k es ≡ some e
      → value_at e.address (erase_in k es) ≡ none
  unfolding find_in erase_in value_at
  value_at-erase_in k e [] h f = cc
  value_at-erase_in k e (d ∷ es) h f = ground (
    arith,
    value_at-erase_in k e es h.1,
    Apart-find_in d e k es h.0,
    value_at-Apart d (erase_in k es) (Apart-erase_in d k es h.0),
  )

  value_at-write_in :
      (i : ℕ) (k : Bytes) (v : V) (es : List (Slot V))
      → value_at i es ≡ none
      → value_at i (write_in k v es) ≡ none
  unfolding write_in value_at
  value_at-write_in i k v [] h = refl
  value_at-write_in i k v (d ∷ es) h = ground (arith, value_at-write_in i k v es)

  value_at-erase_in-none :
      (i : ℕ) (k : Bytes) (es : List (Slot V))
      → value_at i es ≡ none
      → value_at i (erase_in k es) ≡ none
  unfolding erase_in value_at
  value_at-erase_in-none i k [] h = refl
  value_at-erase_in-none i k (d ∷ es) h = ground (arith, value_at-erase_in-none i k es)

  -- A reference whose element is gone, of an address that was in use.
  pub record IsGone (i : ℕ) (m : SlotMap V) : Type 0 where
    pub unread : deref i m ≡ none
    pub used : i < m.fresh

  edit-IsGone : (i : ℕ) (x : Edit V) (m : SlotMap V) → IsGone i m → IsGone i (edit x m)
  unfolding assign erase deref find value_at
  edit-IsGone i (assigns k v) m g = elim (Option-cases (find_in k m.elements)) [
    | inl e ↦ rw (e, assign_at) (ground arith)
    | inr (d, e) ↦
        rw (e, assign_at)
          (record { unread = value_at-write_in i k v m.elements g.unread; used = g.used })
  ]
  edit-IsGone i (erases k) m g = record {
    unread = value_at-erase_in-none i k m.elements g.unread;
    used = g.used;
  }

  edits-IsGone : (i : ℕ) (xs : List (Edit V)) (m : SlotMap V) → IsGone i m → IsGone i (edits xs m)
  edits-IsGone i [] m g = g
  edits-IsGone i (x ∷ xs) m g = edits-IsGone i xs (edit x m) (edit-IsGone i x m g)

  find_in-old :
      (k : Bytes) (e : Slot V) (n : ℕ) (es : List (Slot V))
      → All (λ e. e.address < n) es
      → find_in k es ≡ some e
      → e.address < n
  unfolding find_in
  find_in-old k e n [] h f = cc
  find_in-old k e n (d ∷ es) h f = ground (arith, find_in-old k e n es h.1)

  erase-IsGone :
      (k : Bytes) (e : Slot V) (m : SlotMap V)
      → IsMap m
      → find k m ≡ some e
      → IsGone e.address (erase k m)
  unfolding erase deref find
  erase-IsGone k e m h f = record {
    unread = value_at-erase_in k e m.elements h.distinct f;
    used = find_in-old k e m.fresh m.elements h.old f;
  }

  -- A reference to the element of a key reads nothing once the key was removed, whatever is bound
  -- or removed after that, the same key included.
  pub reference_dangles :
      (k : Bytes) (e : Slot V) (m : SlotMap V) (xs : List (Edit V))
      → IsMap m
      → find k m ≡ some e
      → deref e.address (edits xs (erase k m)) ≡ none
  reference_dangles k e m xs h f =
      (edits-IsGone e.address xs (erase k m) (erase-IsGone k e m h f)).unread

  pub edit-finds :
      (k : Bytes) (e : Slot V) (m : SlotMap V) (x : Edit V)
      → find k m ≡ some e
      → Spares k x
      → (e' : Slot V) × (find k (edit x m) ≡ some e') × (e'.address ≡ e.address)
  unfolding find erase
  edit-finds k e m (assigns j v) f s =
      (if bytes_eq j k then record e { value = v } else e, find-assign k j v e m f, ground arith)
  edit-finds k e m (erases j) f s =
      (e, ground (arith, find_in-erase_in k j m.elements, bytes_eq_iff j k), refl)

  edit-IsMap : (x : Edit V) (m : SlotMap V) → IsMap m → IsMap (edit x m)
  edit-IsMap (assigns k v) m h = assign-IsMap k v m h
  edit-IsMap (erases k) m h = erase-IsMap k m h

  -- As long as the key is not removed, a reference to its element reads what the key is mapped to
  -- at that moment, and there is such a value.
  pub reference_follows :
      (k : Bytes) (e : Slot V) (m : SlotMap V) (xs : List (Edit V))
      → IsMap m
      → find k m ≡ some e
      → All (Spares k) xs
      → (v : V) × (deref e.address (edits xs m) ≡ some v) × (value_of k (edits xs m) ≡ some v)
  reference_follows k e m [] h f s = (e.value, deref-find k e m h f, rw f)
  reference_follows k e m (x ∷ xs) h f (s, ss) =
      let (e', f', same) = edit-finds k e m x f s in
      rw (← same) (reference_follows k e' (edit x m) xs (edit-IsMap x m h) f' ss)
