-- ===== src/Number/Value.antt =====
-- Which texts `std::stoi` reads, and as which number.
use native.Mathlib.Nat.{pow-suc}
use easyrpc.Prelude.{
  ℕ, ◌+◌, ◌-◌, ◌*◌, ◌^◌, ◌≡◌, ◌≢◌, refl, ap, sym, ◌∙◌, ◌⊎◌, inl, inr, Bool, true, false, none, some,
  [], ◌∷◌, ◌++◌, Bytes, length, All, arith, Bool-cases, subst, ◌==◌, ==_iff,
}
use easyrpc.Prelude.Exec.{throw, invalid_argument}
use easyrpc.Number.{is_space, skip_spaces, is_digit, digits_value, in_range, signed, stoi}
use easyrpc.Number.RoundTrip.{IsDigits}

-- The number that digits stand for, each by its place.
abbrev pub decimal : Bytes → ℕ
decimal [] = 0
decimal (c ∷ s) = (c - b'0') * 10 ^ length s + decimal s

-- Nothing is read any further.
abbrev pub EndsDigits : Bytes → Type 0
EndsDigits [] = Unit
EndsDigits (c ∷ s) = is_digit c ≡ false

horner : (n c p v : ℕ) → (10 * n + c) * p + v ≡ n * (p * 10) + (c * p + v)
horner n c p v = omega arith

digits_value-some :
    (n : ℕ) (ds rest : Bytes)
    → IsDigits ds
    → EndsDigits rest
    → digits_value (some n) (ds ++ rest) ≡ some (n * 10 ^ length ds + decimal ds)
unfolding digits_value
digits_value-some n [] [] h e = ap some (omega arith)
digits_value-some n [] (c ∷ rest) h e = rw (e, digits_value) (ap some (omega arith))
digits_value-some n (d ∷ ds) rest (h, hs) e =
    rw (h, digits_value, pow-suc 10 (length ds))
      (digits_value-some (10 * n + (d - b'0')) ds rest hs e
        ∙ ap some (horner n (d - b'0') (10 ^ length ds) (decimal ds)))

-- The digits at the front are the number that is read.
digits_value-decimal :
    (ds rest : Bytes)
    → ds ≢ []
    → IsDigits ds
    → EndsDigits rest
    → digits_value none (ds ++ rest) ≡ some (decimal ds)
unfolding digits_value
digits_value-decimal [] rest ne h e = absurd (ne refl)
digits_value-decimal (d ∷ ds) rest ne (h, hs) e =
    rw (h, digits_value)
      (digits_value-some (10 * 0 + (d - b'0')) ds rest hs e ∙ ap some (omega arith))

digits_value-none : (s : Bytes) → EndsDigits s → digits_value none s ≡ none
unfolding digits_value
digits_value-none [] e = refl
digits_value-none (c ∷ s) e = rw (e, digits_value)

-- The sign that stands for a number below 0, or not.
abbrev pub IsSign : Bool → Bytes → Type 0
IsSign negative sign =
    ((negative ≡ true) × (sign ≡ b'-' ∷ []))
    ⊎ ((negative ≡ false) × ((sign ≡ []) ⊎ (sign ≡ b'+' ∷ [])))

-- Blanks, a sign or none, digits, and anything behind them.
pub record Numeral (text : Bytes) : Type 0 where
  pub blanks : Bytes
  pub negative : Bool
  pub sign : Bytes
  pub digits : Bytes
  pub rest : Bytes
  pub is_text : text ≡ blanks ++ (sign ++ (digits ++ rest))
  pub are_blank : All (λ c. is_space c ≡ true) blanks
  pub is_sign : IsSign negative sign
  pub are_digits : IsDigits digits
  pub some_digits : digits ≢ []
  pub ends : EndsDigits rest

skip_spaces-blanks :
    (bs s : Bytes) → All (λ c. is_space c ≡ true) bs → skip_spaces (bs ++ s) ≡ skip_spaces s
unfolding skip_spaces
skip_spaces-blanks [] s h = refl
skip_spaces-blanks (b ∷ bs) s (h, hs) = rw h (skip_spaces-blanks bs s hs)

signed-minus : (s : Bytes) → signed (skip_spaces (b'-' ∷ s)) ≡ in_range true (digits_value none s)
unfolding signed skip_spaces is_space
signed-minus s = refl

signed-plus : (s : Bytes) → signed (skip_spaces (b'+' ∷ s)) ≡ in_range false (digits_value none s)
unfolding signed skip_spaces is_space
signed-plus s = refl

signed-digits :
    (ds rest : Bytes)
    → ds ≢ []
    → IsDigits ds
    → signed (skip_spaces (ds ++ rest)) ≡ in_range false (digits_value none (ds ++ rest))
unfolding signed skip_spaces is_space is_digit
signed-digits [] rest ne h = absurd (ne refl)
signed-digits (d ∷ ds) rest ne (h, hs) = ground arith

-- A numeral is read as the number that its digits stand for, with its sign, if that is an `int`.
pub stoi-Numeral :
    (text : Bytes) (n : Numeral text) → stoi text ≡ in_range n.negative (some (decimal n.digits))
unfolding stoi
stoi-Numeral text n =
    ap (λ t. signed (skip_spaces t)) n.is_text
    ∙ ap signed (skip_spaces-blanks n.blanks (n.sign ++ (n.digits ++ n.rest)) n.are_blank)
    ∙ elim n.is_sign [
      | inl (neg, minus) ↦
          rw (neg, minus) (signed-minus (n.digits ++ n.rest) ∙ ap (in_range true) value)
      | inr (nonneg, inl none_) ↦
          rw (nonneg, none_)
            (signed-digits n.digits n.rest n.some_digits n.are_digits ∙ ap (in_range false) value)
      | inr (nonneg, inr plus) ↦
          rw (nonneg, plus) (signed-plus (n.digits ++ n.rest) ∙ ap (in_range false) value)
    ]
  where
    value : digits_value none (n.digits ++ n.rest) ≡ some (decimal n.digits)
    value = digits_value-decimal n.digits n.rest n.some_digits n.are_digits n.ends

-- The digits at the front of a text, and what is behind them.
front_of :
    (s : Bytes) → (ds : Bytes) × (rest : Bytes) × (s ≡ ds ++ rest) × IsDigits ds × EndsDigits rest
front_of [] = ([], [], refl, tt, tt)
front_of (c ∷ s) = elim (Bool-cases (is_digit c)) [
  | inl e ↦
      let (ds, rest, same, are, ends) = front_of s in
      (c ∷ ds, rest, ap (λ t. c ∷ t) same, (e, are), ends)
  | inr e ↦ ([], c ∷ s, refl, tt, e)
]

-- What is behind a sign begins with digits, or `stoi` throws.
after_sign :
    (negative : Bool) (sign s : Bytes)
    → IsSign negative sign
    → Numeral (sign ++ s)
      ⊎ (in_range negative (digits_value none s) ≡ throw (invalid_argument "stoi"))
unfolding in_range
after_sign negative sign s h =
    let (ds, rest, same, are, ends) = front_of s in go ds rest same are ends
  where
    go :
        (ds rest : Bytes)
        → s ≡ ds ++ rest
        → IsDigits ds
        → EndsDigits rest
        → Numeral (sign ++ s)
          ⊎ (in_range negative (digits_value none s) ≡ throw (invalid_argument "stoi"))
    go [] rest same are ends = inr (rw (same, digits_value-none rest ends))
    go (d ∷ ds) rest same are ends = inl (record {
      blanks = [];
      negative = negative;
      sign = sign;
      digits = d ∷ ds;
      rest = rest;
      is_text = ap (λ t. sign ++ t) same;
      are_blank = tt;
      is_sign = h;
      are_digits = are;
      some_digits = λ e. cc;
      ends = ends;
    })

behind_blank : (c : ℕ) (s : Bytes) → is_space c ≡ true → Numeral s → Numeral (c ∷ s)
behind_blank c s h n = record {
  blanks = c ∷ n.blanks;
  negative = n.negative;
  sign = n.sign;
  digits = n.digits;
  rest = n.rest;
  is_text = ap (λ t. c ∷ t) n.is_text;
  are_blank = (h, n.are_blank);
  is_sign = n.is_sign;
  are_digits = n.are_digits;
  some_digits = n.some_digits;
  ends = n.ends;
}

-- A text without a numeral is refused.
pub read-Numeral : (text : Bytes) → Numeral text ⊎ (stoi text ≡ throw (invalid_argument "stoi"))
unfolding stoi skip_spaces signed
read-Numeral [] = inr refl
read-Numeral (c ∷ s) = elim (Bool-cases (is_space c)) [
  | inl e ↦ elim (read-Numeral s) [ inl n ↦ inl (behind_blank c s e n) | inr bad ↦ inr (rw e bad) ]
  | inr e ↦ elim (Bool-cases (c == b'-')) [
    | inl minus ↦ elim (after_sign true (b'-' ∷ []) s (inl (refl, refl))) [
      | inl n ↦ inl (subst (λ d. Numeral (d ∷ s)) (sym ((==_iff c b'-').0 minus)) n)
      | inr bad ↦ inr (rw (e, minus) bad)
    ]
    | inr e' ↦ elim (Bool-cases (c == b'+')) [
      | inl plus ↦ elim (after_sign false (b'+' ∷ []) s (inr (refl, inr refl))) [
        | inl n ↦ inl (subst (λ d. Numeral (d ∷ s)) (sym ((==_iff c b'+').0 plus)) n)
        | inr bad ↦ inr (rw (e, e', plus) bad)
      ]
      | inr e'' ↦ elim (after_sign false [] (c ∷ s) (inr (refl, inl refl))) [
        | inl n ↦ inl n
        | inr bad ↦ inr (rw (e, e', e'') bad)
      ]
    ]
  ]
]
