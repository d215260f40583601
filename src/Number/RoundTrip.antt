-- ===== src/Number/RoundTrip.antt =====
-- Ports printed by `std::to_string` and read by `std::stoi` (easyrpc/client/client.hpp,
-- easyrpc/server/server.hpp).
use native.Mathlib.Nat.{pow-suc}
use easyrpc.Prelude.{
  ℕ, zero, suc, ◌+◌, ◌/◌, ◌%◌, ◌^◌, ◌<◌, ◌≡◌, ◌≢◌, refl, ap, ◌∙◌, true, false, none, some, [], ◌∷◌,
  Bytes, All, ltb, arith, inl, inr, lt→ltb, Bool-cases,
}
use easyrpc.Prelude.Exec.{ok}
use easyrpc.Number.{
  pos, is_digit, digits_value, in_range, with_sign, stoi, to_u16, digits, to_string,
}

abbrev pub IsDigits : Bytes → Type 0
IsDigits s = All (λ c. is_digit c ≡ true) s

last_digit : (n : ℕ) → is_digit (b'0' + n % 10) ≡ true
unfolding is_digit
last_digit n = ground arith

first_digit : (n : ℕ) → ltb n 10 ≡ true → is_digit (b'0' + n) ≡ true
unfolding is_digit
first_digit n h = ground arith

digits-IsDigits : (fuel n : ℕ) (out : Bytes) → IsDigits out → IsDigits (digits fuel n out)
unfolding digits
digits-IsDigits zero n out h = h
digits-IsDigits (suc fuel) n out h = elim (Bool-cases (ltb n 10)) [
  | inl e ↦ rw e (first_digit n e, h)
  | inr e ↦ rw e (digits-IsDigits fuel (n / 10) ((b'0' + n % 10) ∷ out) (last_digit n, h))
]

pub to_string-IsDigits : (n : ℕ) → IsDigits (to_string n)
unfolding to_string
to_string-IsDigits n = digits-IsDigits 5 n [] tt

digits-ne-nil : (fuel n : ℕ) (c : ℕ) (out : Bytes) → digits fuel n (c ∷ out) ≢ []
unfolding digits
digits-ne-nil zero n c out = λ e. cc
digits-ne-nil (suc fuel) n c out = elim (Bool-cases (ltb n 10)) [
  | inl e ↦ rw e (λ z. cc)
  | inr e ↦ rw e (digits-ne-nil fuel (n / 10) _ (c ∷ out))
]

pub to_string-ne-nil : (n : ℕ) → to_string n ≢ []
unfolding to_string digits
to_string-ne-nil n = elim (Bool-cases (ltb n 10)) [
  | inl e ↦ rw e (λ z. cc)
  | inr e ↦ rw e (digits-ne-nil 4 (n / 10) _ [])
]

value_step :
    (n : ℕ) (out : Bytes)
    → digits_value (some (n / 10)) ((b'0' + n % 10) ∷ out) ≡ digits_value (some n) out
unfolding digits_value
value_step n out =
    rw (last_digit n, digits_value) (ap (λ m. digits_value (some m) out) (omega arith))

value_first :
    (n : ℕ) (out : Bytes)
    → ltb n 10 ≡ true
    → digits_value none ((b'0' + n) ∷ out) ≡ digits_value (some n) out
unfolding digits_value
value_first n out h =
    rw (first_digit n h, digits_value) (ap (λ m. digits_value (some m) out) (omega arith))

-- Reading the digits of `n` and then the rest is reading the rest behind `n`.
digits_value-digits :
    (fuel n : ℕ) (out : Bytes)
    → n < 10 ^ suc fuel
    → digits_value none (digits (suc fuel) n out) ≡ digits_value (some n) out
unfolding digits
digits_value-digits zero n out h = let e = lt→ltb n 10 (omega arith) in rw e (value_first n out e)
digits_value-digits (suc fuel) n out h = elim (Bool-cases (ltb n 10)) [
  | inl e ↦ rw e (value_first n out e)
  | inr e ↦ rw e (
      digits_value-digits fuel (n / 10) ((b'0' + n % 10) ∷ out)
        (omega (arith, pow-suc 10 (suc fuel)))
      ∙ value_step n out)
]

-- A text of digits has no blank and no sign in front.
stoi-digits : (s : Bytes) → s ≢ [] → IsDigits s → stoi s ≡ in_range false (digits_value none s)
unfolding stoi is_digit
stoi-digits [] h _ = absurd (h refl)
stoi-digits (c ∷ s) h (d, _) = ground arith

digits_value-to_string : (n : ℕ) → n < 2 ^ 16 → digits_value none (to_string n) ≡ some n
unfolding to_string digits_value
digits_value-to_string n h = digits_value-digits 4 n [] (omega arith)

in_range_small : (n : ℕ) → n < 2 ^ 16 → in_range false (some n) ≡ ok (pos n)
unfolding in_range with_sign
in_range_small n h = ground arith

-- A port below 2^16 is read back from its decimal print, and converting it to an `unsigned short`
-- keeps it.
pub stoi-to_string : (n : ℕ) → n < 2 ^ 16 → (stoi (to_string n) ≡ ok (pos n)) × (to_u16 (pos n) ≡ n)
unfolding to_u16
stoi-to_string n h = (
  stoi-digits (to_string n) (to_string-ne-nil n) (to_string-IsDigits n)
      ∙ ap (in_range false) (digits_value-to_string n h)
      ∙ in_range_small n h,
  omega arith,
)
