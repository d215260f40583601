-- ===== src/Number/Wrap.antt =====
-- The `int` that `std::stoi` gives, and the `unsigned short` that it is cast to.
use easyrpc.Prelude.{
  ℕ, zero, suc, ◌-◌, ◌%◌, ◌^◌, ◌≡◌, refl, inl, inr, Bool, true, false, some, arith, ltb, Bool-cases,
  if◌then◌else◌,
}
use easyrpc.Prelude.Exec.{ok, throw, out_of_range, invalid_argument}
use easyrpc.Number.{to_u16, in_range, with_sign}

-- The largest number of a sign that an `int` can be.
abbrev pub int_limit : Bool → ℕ
int_limit negative = if negative then 2 ^ 31 else 2 ^ 31 - 1

-- A number modulo 2^16.
abbrev pub wrapped : Bool → ℕ → ℕ
wrapped negative n = if negative then (2 ^ 16 - n % 2 ^ 16) % 2 ^ 16 else n % 2 ^ 16

pub to_u16-with_sign :
    (negative : Bool) (n : ℕ)
    → ltb (int_limit negative) n ≡ false
    → to_u16 (with_sign negative n) ≡ wrapped negative n
unfolding to_u16 with_sign
to_u16-with_sign false n h = refl
to_u16-with_sign true zero h = refl
to_u16-with_sign true (suc n) h = ground arith

pub in_range-some :
    (negative : Bool) (n : ℕ)
    → in_range negative (some n) ≡ (
        if ltb (int_limit negative) n
        then throw (out_of_range "stoi")
        else ok (with_sign negative n))
unfolding in_range
in_range-some negative n = refl

pub in_range-ne-invalid :
    (negative : Bool) (n : ℕ) → ¬ (in_range negative (some n) ≡ throw (invalid_argument "stoi"))
unfolding in_range
in_range-ne-invalid negative n e = elim (Bool-cases (ltb (int_limit negative) n)) [
  | inl big ↦ cc
  | inr small ↦ cc
]
