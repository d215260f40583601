-- ===== src/StringUtil/Search.antt =====
-- `starts_with` and `ends_with` against what they stand for (easyrpc/base/string_util.hpp).
use Prim.Native.Nat.{zero}
use easyrpc.Prelude.{
  ℕ, suc, ◌+◌, ◌-◌, ◌≤◌, ◌<◌, ◌≡◌, ◌≢◌, ◌↔◌, refl, ap, sym, ◌∙◌, inl, inr, true, [], ◌∷◌, ◌++◌,
  Bytes, length, length-append, arith, ◌==◌, ==_iff, if◌then◌else◌, Bool-cases, drop, take,
  take-append-drop, drop-append,
}
use mathlib.Core.Bool.{false≢true}
use easyrpc.StringUtil.{
  npos, mem_byte, is_prefix, find, find_from, rfind, rfind_from, starts_with, ends_with, contains,
}

-- `t` begins, or ends, the text.
abbrev pub Begins : Bytes → Bytes → Type 0
Begins t s = (rest : Bytes) × (s ≡ t ++ rest)

abbrev pub Ends : Bytes → Bytes → Type 0
Ends t s = (before : Bytes) × (s ≡ before ++ t)

pub is_prefix_sound : (t s : Bytes) → is_prefix t s ≡ true → Begins t s
unfolding is_prefix
is_prefix_sound [] s h = (s, refl)
is_prefix_sound (c ∷ t) [] h = cc
is_prefix_sound (c ∷ t) (d ∷ s) h = elim (Bool-cases (d == c)) [
  | inl e ↦ let (rest, e') = is_prefix_sound t s (rw e at h) in (rest, cc ((==_iff d c).0 e))
  | inr e ↦ absurd (ground arith)
]

pub is_prefix-append : (t rest : Bytes) → is_prefix t (t ++ rest) ≡ true
unfolding is_prefix
is_prefix-append [] rest = refl
is_prefix-append (c ∷ t) rest = ground (arith, is_prefix-append t rest)

-- A position that `find` gives is not before the one where it starts.
find_from-ge : (t : Bytes) (i : ℕ) (s : Bytes) → i + length s ≤ npos → i ≤ find_from t i s
unfolding find_from
find_from-ge t i [] h = ground arith
find_from-ge t i (c ∷ s) h = ground (arith, find_from-ge t (suc i) s)

find_from_zero : (t s : Bytes) → length s < npos → (find_from t 0 s == 0) ≡ is_prefix t s
unfolding find_from
find_from_zero t [] h = ground arith
find_from_zero t (c ∷ s) h = ground (arith, find_from-ge t 1 s)

pub starts_with_iff : (s t : Bytes) → length s < npos → (starts_with s t ≡ true) ↔ Begins t s
unfolding starts_with find
starts_with_iff s t h = (
  λ e. is_prefix_sound t s (sym (find_from_zero t s h) ∙ e),
  λ b. find_from_zero t s h ∙ rw (b.1) (is_prefix-append t b.0),
)

is_prefix-length : (t s : Bytes) → is_prefix t s ≡ true → length t ≤ length s
unfolding is_prefix
is_prefix-length [] s h = omega arith
is_prefix-length (c ∷ t) [] h = cc
is_prefix-length (c ∷ t) (d ∷ s) h = ground (arith, is_prefix-length t s)

-- A text that is too short holds no match.
rfind_from_short :
    (t : Bytes) (i found : ℕ) (s : Bytes) → length s < length t → rfind_from t i found s ≡ found
unfolding rfind_from
rfind_from_short t i found [] h = ground (arith, is_prefix-length t [])
rfind_from_short t i found (c ∷ s) h =
    ground (arith, is_prefix-length t (c ∷ s), rfind_from_short t (suc i) found s)

is_prefix_whole : (t s : Bytes) → length t ≡ length s → (is_prefix t s ≡ true) ↔ (s ≡ t)
unfolding is_prefix
is_prefix_whole [] [] h = (λ e. refl, λ e. refl)
is_prefix_whole [] (d ∷ s) h = absurd (omega arith)
is_prefix_whole (c ∷ t) [] h = absurd (omega arith)
is_prefix_whole (c ∷ t) (d ∷ s) h = ground (arith, is_prefix_whole t s)

-- The last match is at the end exactly when the end is the text that is looked for.
rfind_from_end :
    (t : Bytes) (i found : ℕ) (s : Bytes) (k : ℕ)
    → length s ≡ k + length t
    → found ≢ i + k
    → (rfind_from t i found s ≡ i + k) ↔ (drop k s ≡ t)
unfolding rfind_from is_prefix
rfind_from_end [] i found [] zero h ne = (λ e. refl, λ e. omega arith)
rfind_from_end (c ∷ t) i found [] zero h ne = absurd (omega arith)
rfind_from_end t i found [] (suc k) h ne = absurd (omega arith)
rfind_from_end t i found (c ∷ s) zero h ne = elim (Bool-cases (is_prefix t (c ∷ s))) [
  | inl e ↦
      let short = rfind_from_short t (suc i) i s (omega arith) in
      (λ _. (is_prefix_whole t (c ∷ s) (omega arith)).0 e, λ _. rw e (short ∙ omega arith))
  | inr e ↦
      let short = rfind_from_short t (suc i) found s (omega arith) in
      (
        λ last. absurd (ne (sym short ∙ (rw e at last))),
        λ whole. absurd (false≢true (sym e ∙ (is_prefix_whole t (c ∷ s) (omega arith)).1 whole)),
      )
]
rfind_from_end t i found (c ∷ s) (suc k) h ne =
    let (to, from) =
      rfind_from_end t (suc i) (if is_prefix t (c ∷ s) then i else found) s k (omega arith)
        (ground arith) in
    (λ last. to (last ∙ omega arith), λ end_. from end_ ∙ omega arith)

Ends-iff-drop : (s t : Bytes) (k : ℕ) → length s ≡ k + length t → (drop k s ≡ t) ↔ Ends t s
Ends-iff-drop s t k h =
    (λ e. (take k s, sym (take-append-drop k s) ∙ rw e), λ b. drop_end b.0 (b.1))
  where
    drop_end : (before : Bytes) → s ≡ before ++ t → drop k s ≡ t
    drop_end before e =
        let n : k ≡ length before = omega (arith, ap length e, length-append before t) in
        rw (e, n) (drop-append before t)

pub ends_with_iff :
    (s t : Bytes) → length s < npos → length t ≤ length s → (ends_with s t ≡ true) ↔ Ends t s
unfolding ends_with rfind
ends_with_iff s t h le =
    let k = length s - length t in
    let (to, from) = rfind_from_end t 0 npos s k (omega arith) (omega arith) in
    let (there, back) = Ends-iff-drop s t k (omega arith) in
    (λ e. there (to (ground arith)), λ b. ground (arith, from (back b)))

-- `ends_with` holds of any two texts of which the second is longer by one byte, the first shorter
-- than `npos`, although the second cannot be an end of the first: `rfind` gives `npos`, and the
-- difference of the lengths wraps around to the same number.
pub ends_with_longer :
    (s t : Bytes) → length s < npos → length t ≡ length s + 1 → (ends_with s t ≡ true) × ¬ Ends t s
unfolding ends_with rfind
ends_with_longer s t h longer = (
  ground (arith, rfind_from_short t 0 npos s),
  λ b. absurd (omega (arith, ap length (b.1), length-append (b.0) t)),
)

find_from_byte :
    (c i : ℕ) (s : Bytes)
    → mem_byte c s ≡ true
    → i + length s < npos
    → find_from (c ∷ []) i s < i + length s
unfolding find_from is_prefix mem_byte
find_from_byte c i [] m h = cc
find_from_byte c i (d ∷ s) m h = ground (arith, find_from_byte c (suc i) s)

-- A byte of the text is found in it.
pub contains_byte :
    (c : ℕ) (s : Bytes) → mem_byte c s ≡ true → length s < npos → contains s (c ∷ []) ≡ true
unfolding contains find
contains_byte c s m h = ground (arith, find_from_byte c 0 s)

pub mem_byte-append : (c : ℕ) (s t : Bytes) → mem_byte c (s ++ c ∷ t) ≡ true
unfolding mem_byte
mem_byte-append c [] t = ground arith
mem_byte-append c (d ∷ s) t = ground (arith, mem_byte-append c s t)
