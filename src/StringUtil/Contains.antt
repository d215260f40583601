-- ===== src/StringUtil/Contains.antt =====
-- `contains` against what it stands for (easyrpc/base/string_util.hpp).
use easyrpc.Prelude.{
  ℕ, suc, ◌+◌, ◌<◌, ◌≤◌, ◌≡◌, ◌↔◌, refl, ap, inl, inr, true, false, [], ◌∷◌, ◌++◌, Bytes, length,
  arith, ◌==◌, Bool-cases,
}
use easyrpc.StringUtil.{npos, is_prefix, find, find_from, contains, starts_with, ends_with}
use easyrpc.StringUtil.Search.{
  Begins, Ends, starts_with_iff, ends_with_iff, is_prefix_sound, is_prefix-append,
}

-- `t` stands somewhere in the text.
abbrev pub Holds : Bytes → Bytes → Type 0
Holds t s = (before : Bytes) × (after : Bytes) × (s ≡ before ++ t ++ after)

prefix_Holds : (t s : Bytes) → is_prefix t s ≡ true → Holds t s
prefix_Holds t s e = let (rest, e') = is_prefix_sound t s e in ([], rest, e')

Holds-tail :
    (t : Bytes) (c : ℕ) (s : Bytes) → is_prefix t (c ∷ s) ≡ false → Holds t (c ∷ s) → Holds t s
Holds-tail t c s miss ([], after, e) = absurd (cc (is_prefix-append t after))
Holds-tail t c s miss (d ∷ before, after, e) = (before, after, cc)

Holds-nil : (t : Bytes) → Holds t [] → is_prefix t [] ≡ true
unfolding is_prefix
Holds-nil [] h = refl
Holds-nil (c ∷ t) ([], after, e) = cc
Holds-nil (c ∷ t) (d ∷ before, after, e) = cc

find_from-Holds :
    (t : Bytes) (i : ℕ) (s : Bytes)
    → i + length s < npos
    → (find_from t i s == npos ≡ false) ↔ Holds t s
unfolding find_from
find_from-Holds t i [] h = elim (Bool-cases (is_prefix t [])) [
  | inl e ↦ (λ _. prefix_Holds t [] e, λ _. rw e (ground arith))
  | inr e ↦ (λ found. absurd (ground arith), λ holds. absurd (cc (Holds-nil t holds)))
]
find_from-Holds t i (c ∷ s) h = elim (Bool-cases (is_prefix t (c ∷ s))) [
  | inl e ↦ (λ _. prefix_Holds t (c ∷ s) e, λ _. rw e (ground arith))
  | inr e ↦
      let (to, from) = find_from-Holds t (suc i) s (omega arith) in
      (
        λ found. let (before, after, e') = to (rw e at found) in (c ∷ before, after, ap (◌∷◌ c) e'),
        λ holds. rw e (from (Holds-tail t c s e holds)),
      )
]

contains_iff : (s t : Bytes) → length s < npos → (contains s t ≡ true) ↔ Holds t s
unfolding contains find
contains_iff s t h =
    let (to, from) = find_from-Holds t 0 s (omega arith) in
    (λ e. to (ground arith), λ holds. ground (arith, from holds))

-- Of texts shorter than `npos`, `starts_with` holds of exactly those that begin with the other text,
-- `contains` of exactly those in which it stands somewhere, and `ends_with`, where the other text is
-- not longer, of exactly those that end with it.
pub searches_iff :
    (s t : Bytes)
    → length s < npos
    → length t ≤ length s
    → ((starts_with s t ≡ true) ↔ Begins t s)
      × ((contains s t ≡ true) ↔ Holds t s)
      × ((ends_with s t ≡ true) ↔ Ends t s)
searches_iff s t h le = (starts_with_iff s t h, contains_iff s t h, ends_with_iff s t h le)
