-- ===== src/Router/Slots.antt =====
-- `std::unordered_map` as router.hpp uses it. A slot is an element of the map; tasks hold
-- references to elements, which stay good until the element is erased.
pub mod Laws
pub mod References
use easyrpc.Prelude.{
  ℕ, suc, Option, none, some, List, [], ◌∷◌, Bytes, bytes_eq, ◌==◌, if◌then◌else◌,
}

pub record Slot (V : Type 0) : Type 0 where
  pub address : ℕ
  pub key : Bytes
  pub value : V

-- `fresh` is an address that no element has had yet.
pub record SlotMap (V : Type 0) : Type 0 where
  pub elements : List (Slot V)
  pub fresh : ℕ

module _ {V : Type 0} where
  abbrev pub empty : SlotMap V
  empty = record { elements = []; fresh = 0 }

  pub find_in : Bytes → List (Slot V) → Option (Slot V)
  find_in k [] = none
  find_in k (e ∷ es) = if bytes_eq e.key k then some e else find_in k es

  pub value_at : ℕ → List (Slot V) → Option V
  value_at i [] = none
  value_at i (e ∷ es) = if e.address == i then some e.value else value_at i es

  pub erase_in : Bytes → List (Slot V) → List (Slot V)
  erase_in k [] = []
  erase_in k (e ∷ es) = let rest = erase_in k es in if bytes_eq e.key k then rest else e ∷ rest

  pub write_in : Bytes → V → List (Slot V) → List (Slot V)
  write_in k v [] = []
  write_in k v (e ∷ es) =
      let rest = write_in k v es in
      if bytes_eq e.key k then record e { value = v } ∷ rest else e ∷ rest

  -- `find`, where `none` is `end()`
  unfoldable pub find : Bytes → SlotMap V → Option (Slot V)
  unfolding find_in
  find k m = find_in k m.elements

  assign_at : Option (Slot V) → Bytes → V → SlotMap V → SlotMap V
  unfolding write_in
  assign_at none k v m = record {
    elements = record { address = m.fresh; key = k; value = v } ∷ m.elements;
    fresh = suc m.fresh;
  }
  assign_at (some e) k v m = record m { elements = write_in k v m.elements }

  -- `m[k] = v`: an element that is there keeps its place and is written over.
  unfoldable pub assign : Bytes → V → SlotMap V → SlotMap V
  unfolding assign_at find
  assign k v m = assign_at (find k m) k v m

  unfoldable pub erase : Bytes → SlotMap V → SlotMap V
  unfolding erase_in
  erase k m = record m { elements = erase_in k m.elements }

  -- What a reference to an element reads; `none` if the element is gone.
  unfoldable pub deref : ℕ → SlotMap V → Option V
  unfolding value_at
  deref i m = value_at i m.elements
