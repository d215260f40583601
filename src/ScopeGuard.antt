-- ===== src/ScopeGuard.antt =====
-- easyrpc/base/scope_guard.hpp: a guard holds an action that its destructor runs unless the guard
-- was dismissed. The action changes a state `S`, which the destructor takes and gives back.
use easyrpc.Prelude.{◌≡◌, refl, Bool, true, false, if◌then◌else◌}
use easyrpc.Prelude.Exec.{Exec}

pub record ScopeGuard {ℓ} (S : Type ℓ) : Type ℓ where
  pub func : S → S
  pub is_dismissed : Bool

module _ {ℓ} {S : Type ℓ} where
  abbrev pub make_guard : (S → S) → ScopeGuard S
  make_guard f = record { func = f; is_dismissed = false }

  abbrev pub dismiss : ScopeGuard S → ScopeGuard S
  dismiss g = record g { is_dismissed = true }

  -- The move constructor: the new guard, and the one that was moved from.
  unfoldable pub move : ScopeGuard S → ScopeGuard S × ScopeGuard S
  move other = (make_guard other.func, dismiss other)

  abbrev pub destruct : ScopeGuard S → S → S
  destruct g s = if g.is_dismissed then s else g.func s

  -- A block whose guard is destroyed at its end, also when the block throws.
  abbrev pub with_guard : {A : Type ℓ} → ScopeGuard S → Exec S A → Exec S A
  with_guard g m s = let (r, s') = m s in (r, destruct g s')

  -- A fresh guard that is moved runs its action once, in whatever order the two are destroyed.
  pub destruct-move :
      (f : S → S) (s : S)
      → (destruct (move (make_guard f)).0 (destruct (move (make_guard f)).1 s) ≡ f s)
        × (destruct (move (make_guard f)).1 (destruct (move (make_guard f)).0 s) ≡ f s)
  unfolding move
  destruct-move f s = (refl, refl)

  -- Moving a guard that was dismissed arms it again: the new one runs the action.
  pub destruct-move_dismissed :
      (f : S → S) (s : S) → destruct (move (dismiss (make_guard f))).0 s ≡ f s
  unfolding move
  destruct-move_dismissed f s = refl
