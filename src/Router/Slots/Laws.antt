-- ===== src/Router/Slots/Laws.antt =====
-- The map of handlers: what reads see after writes, and its well-formedness (`std::unordered_map` as
-- easyrpc/server/router.hpp uses it).
use easyrpc.Prelude.{
  ℕ, suc, ◌<◌, ◌≡◌, ◌≢◌, refl, inl, inr, Option, none, some, List, [], ◌∷◌, Bytes, bytes_eq,
  bytes_eq_iff, if◌then◌else◌, All, arith, Option-cases, Bool-cases,
}
use mathlib.Core.Option
use easyrpc.Router.Slots.{
  Slot, SlotMap, find_in, erase_in, write_in, assign_at, find, assign, erase,
}

module _ {V : Type 0} where
  -- No two elements have one address, or one key.
  abbrev pub Apart : Slot V → List (Slot V) → Type 0
  Apart e es = All (λ d. (d.address ≢ e.address) × (d.key ≢ e.key)) es

  abbrev pub Distinct : List (Slot V) → Type 0
  Distinct [] = Unit
  Distinct (e ∷ es) = Apart e es × Distinct es

  -- The invariant of a map: distinct elements, below the next address.
  pub record IsMap (m : SlotMap V) : Type 0 where
    pub distinct : Distinct m.elements
    pub old : All (λ e. e.address < m.fresh) m.elements

  -- What a key is mapped to.
  abbrev pub value_of : Bytes → SlotMap V → Option V
  value_of k m = Option.map (λ e. e.value) (find k m)

  find_in-write_in :
      (k j : Bytes) (v : V) (e : Slot V) (es : List (Slot V))
      → find_in k es ≡ some e
      → find_in k (write_in j v es) ≡ some (if bytes_eq j k then record e { value = v } else e)
  unfolding find_in write_in
  find_in-write_in k j v e [] h = cc
  find_in-write_in k j v e (d ∷ es) h = ground (
    arith,
    bytes_eq_iff d.key k,
    bytes_eq_iff d.key j,
    bytes_eq_iff j k,
    find_in-write_in k j v e es,
  )

  find_in-write_in-none :
      (k j : Bytes) (v : V) (es : List (Slot V))
      → find_in k es ≡ none
      → find_in k (write_in j v es) ≡ none
  unfolding find_in write_in
  find_in-write_in-none k j v [] h = refl
  find_in-write_in-none k j v (d ∷ es) h = ground (arith, find_in-write_in-none k j v es)

  pub find_in-erase_in :
      (k j : Bytes) (es : List (Slot V))
      → find_in k (erase_in j es) ≡ (if bytes_eq j k then none else find_in k es)
  unfolding find_in erase_in
  find_in-erase_in k j [] = ground arith
  find_in-erase_in k j (d ∷ es) =
      ground (
        arith,
        bytes_eq_iff d.key k,
        bytes_eq_iff d.key j,
        bytes_eq_iff j k,
        find_in-erase_in k j es,
      )

  -- An element that is found stays where it is when the map is written.
  pub find-assign :
      (k j : Bytes) (v : V) (e : Slot V) (m : SlotMap V)
      → find k m ≡ some e
      → find k (assign j v m) ≡ some (if bytes_eq j k then record e { value = v } else e)
  unfolding find assign
  find-assign k j v e m h = ground (arith, bytes_eq_iff j k, find_in-write_in k j v e m.elements)

  -- After a write a key is mapped to the value that was written, if it is the key of the write, and
  -- to what it was mapped to before, if it is not.
  pub value_of-assign :
      (k j : Bytes) (v : V) (m : SlotMap V)
      → value_of k (assign j v m) ≡ (if bytes_eq j k then some v else value_of k m)
  unfolding find assign
  value_of-assign k j v m = elim (Option-cases (find_in k m.elements)) [
    | inl e ↦ ground (arith, bytes_eq_iff j k, find_in-write_in-none k j v m.elements)
    | inr (d, e) ↦ ground (arith, find-assign k j v d m e)
  ]

  -- After a removal a key is mapped to nothing, if it is the key that was removed, and to what it
  -- was mapped to before, if it is not.
  pub value_of-erase :
      (k j : Bytes) (m : SlotMap V)
      → value_of k (erase j m) ≡ (if bytes_eq j k then none else value_of k m)
  unfolding find erase
  value_of-erase k j m = ground (arith, find_in-erase_in k j m.elements)

  Apart-write_in :
      (e : Slot V) (j : Bytes) (v : V) (es : List (Slot V)) → Apart e es → Apart e (write_in j v es)
  unfolding write_in
  Apart-write_in e j v [] h = tt
  Apart-write_in e j v (d ∷ es) h = ground (arith, Apart-write_in e j v es h.1)

  Distinct-write_in :
      (j : Bytes) (v : V) (es : List (Slot V)) → Distinct es → Distinct (write_in j v es)
  unfolding write_in
  Distinct-write_in j v [] h = tt
  Distinct-write_in j v (d ∷ es) h = elim (Bool-cases (bytes_eq d.key j)) [
    | inl e ↦ rw e (Apart-write_in d j v es h.0, Distinct-write_in j v es h.1)
    | inr e ↦ rw e (Apart-write_in d j v es h.0, Distinct-write_in j v es h.1)
  ]

  Below-write_in :
      (n : ℕ) (j : Bytes) (v : V) (es : List (Slot V))
      → All (λ e. e.address < n) es
      → All (λ e. e.address < n) (write_in j v es)
  unfolding write_in
  Below-write_in n j v [] h = tt
  Below-write_in n j v (d ∷ es) h = ground (arith, Below-write_in n j v es h.1)

  Apart-fresh :
      (n : ℕ) (j : Bytes) (v : V) (es : List (Slot V))
      → All (λ e. e.address < n) es
      → find_in j es ≡ none
      → Apart (record { address = n; key = j; value = v }) es
  unfolding find_in
  Apart-fresh n j v [] h e = tt
  Apart-fresh n j v (d ∷ es) h e = ground (arith, bytes_eq_iff d.key j, Apart-fresh n j v es h.1)

  Below-mono :
      (n : ℕ) (es : List (Slot V)) → All (λ e. e.address < n) es → All (λ e. e.address < suc n) es
  Below-mono n [] h = tt
  Below-mono n (d ∷ es) h = (omega arith, Below-mono n es h.1)

  pub Apart-erase_in :
      (e : Slot V) (j : Bytes) (es : List (Slot V)) → Apart e es → Apart e (erase_in j es)
  unfolding erase_in
  Apart-erase_in e j [] h = tt
  Apart-erase_in e j (d ∷ es) h = ground (arith, Apart-erase_in e j es h.1)

  Distinct-erase_in : (j : Bytes) (es : List (Slot V)) → Distinct es → Distinct (erase_in j es)
  unfolding erase_in
  Distinct-erase_in j [] h = tt
  Distinct-erase_in j (d ∷ es) h = elim (Bool-cases (bytes_eq d.key j)) [
    | inl e ↦ rw e (Distinct-erase_in j es h.1)
    | inr e ↦ rw e (Apart-erase_in d j es h.0, Distinct-erase_in j es h.1)
  ]

  Below-erase_in :
      (n : ℕ) (j : Bytes) (es : List (Slot V))
      → All (λ e. e.address < n) es
      → All (λ e. e.address < n) (erase_in j es)
  unfolding erase_in
  Below-erase_in n j [] h = tt
  Below-erase_in n j (d ∷ es) h = ground (arith, Below-erase_in n j es h.1)

  -- Writing a key keeps the elements of a map distinct, in their keys and in their addresses, and
  -- below the next address.
  pub assign-IsMap : (j : Bytes) (v : V) (m : SlotMap V) → IsMap m → IsMap (assign j v m)
  unfolding assign find
  assign-IsMap j v m h = elim (Option-cases (find_in j m.elements)) [
    | inl e ↦
        rw (e, assign_at)
          (record {
            distinct = (Apart-fresh m.fresh j v m.elements h.old e, h.distinct);
            old = (omega arith, Below-mono m.fresh m.elements h.old);
          })
    | inr (d, e) ↦
        rw (e, assign_at)
          (record {
            distinct = Distinct-write_in j v m.elements h.distinct;
            old = Below-write_in m.fresh j v m.elements h.old;
          })
  ]

  -- Removing a key keeps the elements of a map distinct, in their keys and in their addresses, and
  -- below the next address.
  pub erase-IsMap : (j : Bytes) (m : SlotMap V) → IsMap m → IsMap (erase j m)
  unfolding erase
  erase-IsMap j m h = record {
    distinct = Distinct-erase_in j m.elements h.distinct;
    old = Below-erase_in m.fresh j m.elements h.old;
  }
