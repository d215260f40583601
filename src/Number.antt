-- ===== src/Number.antt =====
-- `std::stoi` and `std::to_string`, which turn ports into numbers and back.
pub mod RoundTrip
pub mod Value
pub mod Wrap
use easyrpc.Prelude.{
  ℕ, zero, suc, ◌+◌, ◌-◌, ◌*◌, ◌/◌, ◌%◌, ◌^◌, Bool, true, false, ◌&&◌, ◌||◌, Option, none, some, [],
  ◌∷◌, Bytes, ltb, leb, ◌==◌, if◌then◌else◌,
}
use easyrpc.Prelude.Exec.{Result, ok, throw, invalid_argument, out_of_range}

-- `isspace` of the "C" locale.
pub is_space : ℕ → Bool
is_space c = c == b' ' || (leb 9 c && leb c 13)

pub skip_spaces : Bytes → Bytes
unfolding is_space
skip_spaces [] = []
skip_spaces (c ∷ s) = if is_space c then skip_spaces s else c ∷ s

unfoldable pub is_digit : ℕ → Bool
is_digit c = leb b'0' c && leb c b'9'

-- The value of the digits at the front; `some` once there was one.
pub digits_value : Option ℕ → Bytes → Option ℕ
unfolding is_digit
digits_value found [] = found
digits_value found (c ∷ s) = elim (is_digit c) [
  | true ↦ digits_value (some (10 * (elim found [ none ↦ 0 | some n ↦ n ]) + (c - b'0'))) s
  | false ↦ found
]

-- An `int`: a natural number, or the negative of its successor.
pub data ℤ : Type 0 where
  pos negsuc : ℕ → ℤ

pub with_sign : Bool → ℕ → ℤ
with_sign true (suc n) = negsuc n
with_sign true zero = pos 0
with_sign false n = pos n

pub in_range : Bool → Option ℕ → Result ℤ
unfolding with_sign
in_range negative none = throw (invalid_argument "stoi")
in_range negative (some n) =
    if ltb (if negative then 2 ^ 31 else 2 ^ 31 - 1) n
    then throw (out_of_range "stoi")
    else ok (with_sign negative n)

pub signed : Bytes → Result ℤ
unfolding in_range digits_value
signed [] = throw (invalid_argument "stoi")
signed (c ∷ s) =
    if c == b'-'
    then in_range true (digits_value none s)
    else if c == b'+'
    then in_range false (digits_value none s)
    else in_range false (digits_value none (c ∷ s))

unfoldable pub stoi : Bytes → Result ℤ
unfolding signed skip_spaces
stoi s = signed (skip_spaces s)

-- `static_cast<unsigned short>`
unfoldable pub to_u16 : ℤ → ℕ
to_u16 (pos n) = n % 2 ^ 16
to_u16 (negsuc n) = (2 ^ 32 - suc n) % 2 ^ 16

-- `std::to_string` of a number below 10^fuel.
digits : ℕ → ℕ → Bytes → Bytes
digits zero n out = out
digits (suc fuel) n out =
    let rest = digits fuel (n / 10) ((b'0' + n % 10) ∷ out) in
    if ltb n 10 then (b'0' + n) ∷ out else rest

-- An `unsigned short` has at most five digits.
unfoldable pub to_string : ℕ → Bytes
unfolding digits
to_string n = digits 5 n []

-- `std::to_string` of an `unsigned long`, which has at most twenty digits.
unfoldable pub to_string_long : ℕ → Bytes
unfolding digits
to_string_long n = digits 20 n []
