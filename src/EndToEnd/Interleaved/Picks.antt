-- ===== src/EndToEnd/Interleaved/Picks.antt =====
-- One element taken out of a list: the task of the worker that ends next.
use mathlib.Core.List.Perm
use easyrpc.Prelude.{
  ℕ, zero, suc, ◌≡◌, refl, ◌⊎◌, inl, inr, Option, none, some, List, [], ◌∷◌, map, All,
}
use mathlib.Core.List.{Perm}

keep {ℓ} : {A : Type ℓ} → A → Option (A × List A) → Option (A × List A)
keep x none = none
keep x (some (y, ys)) = some (y, x ∷ ys)

-- The element at an index, and the others.
unfoldable pub pick {ℓ} : {A : Type ℓ} → ℕ → List A → Option (A × List A)
unfolding keep
pick i [] = none
pick zero (x ∷ xs) = some (x, xs)
pick (suc i) (x ∷ xs) = keep x (pick i xs)

-- What `pick` leaves of a list, and of its image under `f`.
pub record Picked {A B : Type 0} (f : A → B) (P : A → Type 0) (i : ℕ) (xs : List A) : Type 0 where
  pub one : A
  pub others : List A
  pub found : pick i xs ≡ some (one, others)
  pub image : pick i (map f xs) ≡ some (f one, map f others)
  pub same : Perm (one ∷ others) xs
  pub holds : P one
  pub hold : All P others

pub pick_cases :
    {A B : Type 0} (f : A → B) (P : A → Type 0) (i : ℕ) (xs : List A)
    → All P xs
    → ((pick i xs ≡ none) × (pick i (map f xs) ≡ none)) ⊎ Picked f P i xs
unfolding pick keep
pick_cases f P i [] h = inl (refl, refl)
pick_cases f P zero (x ∷ xs) (h, hs) = inr (record {
  one = x;
  others = xs;
  found = refl;
  image = refl;
  same = Perm.refl _;
  holds = h;
  hold = hs;
})
pick_cases f P (suc i) (x ∷ xs) (h, hs) = elim (pick_cases f P i xs hs) [
  | inl (missing, missing') ↦ inl (rw missing, rw missing')
  | inr k ↦ inr (record {
    one = k.one;
    others = x ∷ k.others;
    found = rw (k.found);
    image = rw (k.image);
    same = Perm.trans (Perm.swap x k.one k.others) (Perm.cons x k.same);
    holds = k.holds;
    hold = (h, k.hold);
  })
]
