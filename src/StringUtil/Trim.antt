-- ===== src/StringUtil/Trim.antt =====
-- Trimming (easyrpc/base/string_util.hpp), against a reference that goes over the text from its ends.
use easyrpc.Prelude.{
  ℕ, suc, ◌+◌, ◌<◌, ◌≤◌, ◌≡◌, ◌⊎◌, inl, inr, refl, ◌∙◌, Bool, true, Bool-cases, [], ◌∷◌, Bytes,
  if◌then◌else◌, length, take, drop, arith,
}
use easyrpc.StringUtil.{
  npos, u64, mem_byte, first_not_of, find_first_not_of, last_not_of, find_last_not_of, trim,
  trim_left, trim_right, erase_front, erase_back,
}

-- The text without the bytes of `token` in front.
unfoldable pub strip_left : Bytes → Bytes → Bytes
strip_left token [] = []
strip_left token (c ∷ s) = let rest = strip_left token s in if mem_byte c token then rest else c ∷ s

-- A byte in front of a text that was stripped: it falls away if it may and nothing is behind it.
strip_cons : Bool → ℕ → Bytes → Bytes
strip_cons true c [] = []
strip_cons b c s = c ∷ s

-- The text without the bytes of `token` at its end.
unfoldable pub strip_right : Bytes → Bytes → Bytes
unfolding strip_cons
strip_right token [] = []
strip_right token (c ∷ s) = strip_cons (mem_byte c token) c (strip_right token s)

first_not_of_lem :
    (token : Bytes) (i : ℕ) (s : Bytes)
    → (first_not_of token i s ≡ npos) × (strip_left token s ≡ [])
      ⊎ (k : ℕ) × (first_not_of token i s ≡ i + k)
        × (k < length s)
        × (drop k s ≡ strip_left token s)
unfolding first_not_of strip_left
first_not_of_lem token i [] = inl (refl, refl)
first_not_of_lem token i (c ∷ s) = elim (Bool-cases (mem_byte c token)) [
  | inl e ↦ elim (first_not_of_lem token (suc i) s) [
    | inl (none_, empty) ↦ inl (rw e none_, rw e empty)
    | inr (k, at, lt, rest) ↦ inr (suc k, rw e (at ∙ omega arith), omega arith, rw e rest)
  ]
  | inr e ↦ inr (0, rw e (omega arith), omega arith, rw e refl)
]

last_not_of_lem :
    (token : Bytes) (i found : ℕ) (s : Bytes)
    → (last_not_of token i found s ≡ found) × (strip_right token s ≡ [])
      ⊎ (k : ℕ) × (d : ℕ) × (rest : Bytes) × (last_not_of token i found s ≡ i + k)
        × (k < length s)
        × (take (suc k) s ≡ strip_right token s)
        × (strip_right token s ≡ d ∷ rest)
unfolding last_not_of strip_right strip_cons
last_not_of_lem token i found [] = inl (refl, refl)
last_not_of_lem token i found (c ∷ s) = elim (Bool-cases (mem_byte c token)) [
  | inl e ↦ elim (last_not_of_lem token (suc i) found s) [
    | inl (none_, empty) ↦ inl (rw e none_, rw (e, empty) refl)
    | inr (k, d, rest, at, lt, head, ne) ↦ inr (
      suc k,
      c,
      d ∷ rest,
      rw e (at ∙ omega arith),
      omega arith,
      rw (e, head, ne) refl,
      rw (e, ne) refl,
    )
  ]
  | inr e ↦ elim (last_not_of_lem token (suc i) i s) [
    | inl (none_, empty) ↦
        inr (
          0,
          c,
          [],
          rw e (none_ ∙ omega arith),
          omega arith,
          rw (e, empty) refl,
          rw (e, empty) refl,
        )
    | inr (k, d, rest, at, lt, head, ne) ↦ inr (
      suc k,
      c,
      d ∷ rest,
      rw e (at ∙ omega arith),
      omega arith,
      rw (e, head, ne) refl,
      rw (e, ne) refl,
    )
  ]
]

length-strip_left : (token s : Bytes) → length (strip_left token s) ≤ length s
unfolding strip_left
length-strip_left token [] = omega arith
length-strip_left token (c ∷ s) = ground (arith, length-strip_left token s)

erase_front-all : (n : ℕ) (t : Bytes) → length t ≤ n → erase_front n t ≡ []
erase_front-all n t le = ground arith

erase_front-drop : (n : ℕ) (t : Bytes) → n < length t → erase_front n t ≡ drop n t
erase_front-drop n t lt = ground arith

erase_front_first :
    (token s : Bytes)
    → length s < npos
    → erase_front (find_first_not_of s token) s ≡ strip_left token s
unfolding find_first_not_of
erase_front_first token s short = elim (first_not_of_lem token 0 s) [
  | inl (none_, empty) ↦ rw (none_, empty) (erase_front-all npos s (omega arith))
  | inr (k, at, lt, rest) ↦
      let same : first_not_of token 0 s ≡ k = omega arith in
      rw same (erase_front-drop k s lt ∙ rest)
]

erase_back_last :
    (token s : Bytes)
    → length s < npos
    → erase_back (u64 (find_last_not_of s token + 1)) s ≡ strip_right token s
unfolding find_last_not_of
erase_back_last token s short = elim (last_not_of_lem token 0 npos s) [
  | inl (none_, empty) ↦ rw (none_, empty) refl
  | inr (k, d, rest, at, lt, head, ne) ↦
      let same : u64 (last_not_of token 0 npos s + 1) ≡ suc k = omega arith in rw same head
]

-- On texts that are shorter than `npos`, `trim_left` takes away all bytes of `token` in front of the
-- first other byte and no more, `trim_right` all behind the last other byte and no more, and `trim`
-- both.
pub trim_lem :
    (str token : Bytes)
    → length str < npos
    → (trim_left str token ≡ strip_left token str)
      × (trim_right str token ≡ strip_right token str)
      × (trim str token ≡ strip_right token (strip_left token str))
unfolding trim_left trim_right trim
trim_lem str token short = (
  erase_front_first token str short,
  erase_back_last token str short,
  rw (erase_front_first token str short)
      (erase_back_last token (strip_left token str) (omega (arith, length-strip_left token str))),
)
