-- ===== src/Prelude/Exec.antt =====
-- C++ code that mutates an object and may throw: what was written before a throw stays written,
-- so the state comes back beside the exception too.
use Prim.Native.String.{String}
use mathlib.Core.Path.{◌≡◌, refl}
use mathlib.Core.Logic.{◌⊎◌, inl, inr}
use mathlib.Core.Bool.{Bool, true, false}
use mathlib.Core.Option.{Option, none, some}

-- What is thrown, by its class; `library` is an exception of code outside the repository.
pub data Exception : Type 0 where
  runtime_error : String → Exception
  invalid_argument : String → Exception
  out_of_range : String → Exception
  library : String → Exception

pub data Result {ℓ} (A : Type ℓ) : Type ℓ where
  ok : A → Result A
  throw : Exception → Result A

abbrev pub Exec {ℓ} : Type ℓ → Type ℓ → Type ℓ
Exec S A = S → Result A × S

module _ {ℓ} {S A : Type ℓ} where
  abbrev pub pure : A → Exec S A
  pure a s = (ok a, s)

  abbrev pub raise : Exception → Exec S A
  raise e s = (throw e, s)

  abbrev pub lift : Result A → Exec S A
  lift r s = (r, s)

  abbrev pub gets : (S → A) → Exec S A
  gets f s = (ok (f s), s)

module _ {ℓ} {S : Type ℓ} where
  abbrev pub modify : (S → S) → Exec S (Unit {ℓ})
  modify f s = (ok tt, f s)

  -- `if (ec) throw std::runtime_error(ec.message());`
  abbrev pub throw_on : Option String → Exec S (Unit {ℓ})
  throw_on none s = (ok tt, s)
  throw_on (some message) s = (throw (runtime_error message), s)

  -- `if (test) throw std::runtime_error(message);`
  abbrev pub refuse : Bool → String → Exec S (Unit {ℓ})
  refuse true message s = (throw (runtime_error message), s)
  refuse false message s = (ok tt, s)

module _ {ℓ} {S A B : Type ℓ} where
  abbrev pub continue : Result A → (A → Exec S B) → Exec S B
  continue (ok a) f s = f a s
  continue (throw e) f s = (throw e, s)

  infixl 10 ◌>>=◌ ◌>>◌
  abbrev pub ◌>>=◌ : Exec S A → (A → Exec S B) → Exec S B
  ◌>>=◌ m f s = let (r, s') = m s in continue r f s'

  abbrev pub ◌>>◌ : Exec S A → Exec S B → Exec S B
  m >> n = m >>= λ _. n

module _ {ℓ} {S A : Type ℓ} where
  abbrev recover : Result A → (Exception → Exec S A) → Exec S A
  recover (ok a) handler s = (ok a, s)
  recover (throw e) handler s = handler e s

  -- `try { m } catch (std::exception& e) { handler }`
  abbrev pub try_catch : Exec S A → (Exception → Exec S A) → Exec S A
  try_catch m handler s = let (r, s') = m s in recover r handler s'

pub Result-cases {ℓ} :
    {A : Type ℓ} (r : Result A) → ((a : A) × (r ≡ ok a)) ⊎ ((e : Exception) × (r ≡ throw e))
Result-cases (ok a) = inl (a, refl)
Result-cases (throw e) = inr (e, refl)

-- Inversion of a sequence that returns.
pub bind-ok {ℓ} :
    {S A B : Type ℓ} (m : Exec S A) (f : A → Exec S B) (s : S) {b : B}
    → ((m >>= f) s).0 ≡ ok b
    → (a : A) × (s' : S) × (m s ≡ (ok a, s'))
bind-ok {S} {A} {B} m f s {b} h = go (m s) refl h
  where
    go :
        (r : Result A × S)
        → m s ≡ r
        → (continue r.0 f r.1).0 ≡ ok b
        → (a : A) × (s' : S) × (m s ≡ (ok a, s'))
    go (ok a, s') e h = (a, s', e)
    go (throw x, s') e h = cc
