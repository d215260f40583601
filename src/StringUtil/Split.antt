-- ===== src/StringUtil/Split.antt =====
-- `split` (easyrpc/base/string_util.hpp), the loop over `strtok_r`.
use easyrpc.Prelude.{
  ℕ, ◌≡◌, ◌≢◌, refl, ap, sym, ◌∙◌, inl, inr, true, false, List, [], ◌∷◌, ◌++◌, append_assoc,
  append-nil, Bytes, All, Bool-cases, arith, if◌then◌else◌,
}
use mathlib.Core.List.{flatten}
use easyrpc.StringUtil.{mem_byte, c_str, close_token, tokens, split}

-- A text with no byte of the delimiter, and one with no terminator.
abbrev pub IsWord : Bytes → Bytes → Type 0
IsWord delimiter s = All (λ c. mem_byte c delimiter ≡ false) s

abbrev pub IsCText : Bytes → Type 0
IsCText s = All (λ c. c ≢ 0) s

pub c_str-IsCText : (s : Bytes) → IsCText s → c_str s ≡ s
unfolding c_str
c_str-IsCText [] h = refl
c_str-IsCText (c ∷ s) h = ground (arith, c_str-IsCText s h.1)

-- A token: not empty, and free of the delimiter.
abbrev pub IsToken : Bytes → Bytes → Type 0
IsToken delimiter t = (t ≢ []) × IsWord delimiter t

IsWord-append : (d s t : Bytes) → IsWord d s → IsWord d t → IsWord d (s ++ t)
IsWord-append d [] t hs ht = ht
IsWord-append d (c ∷ s) t hs ht = (hs.0, IsWord-append d s t hs.1 ht)

close_token-IsToken :
    (d t : Bytes) (ts : List Bytes)
    → IsWord d t
    → All (IsToken d) ts
    → All (IsToken d) (close_token t ts)
unfolding close_token
close_token-IsToken d [] ts h hs = hs
close_token-IsToken d (c ∷ t) ts h hs = ((λ e. cc, h), hs)

tokens-IsToken : (d t s : Bytes) → IsWord d t → All (IsToken d) (tokens d t s)
unfolding tokens
tokens-IsToken d t [] h = close_token-IsToken d t [] h tt
tokens-IsToken d t (c ∷ s) h = elim (Bool-cases (mem_byte c d)) [
  | inl e ↦ rw (e, tokens) (close_token-IsToken d t _ h (tokens-IsToken d [] s tt))
  | inr e ↦ rw (e, tokens) (tokens-IsToken d (t ++ c ∷ []) s (IsWord-append d t (c ∷ []) h (e, tt)))
]

split-IsToken : (s d : Bytes) → IsCText d → All (IsToken d) (split s d)
unfolding split
split-IsToken s d h = rw (c_str-IsCText d h) (tokens-IsToken d [] (c_str s) tt)

-- The bytes of a text that are not in the delimiter, in order.
abbrev pub without : Bytes → Bytes → Bytes
without d [] = []
without d (c ∷ s) = if mem_byte c d then without d s else c ∷ without d s

flatten-close_token : (t : Bytes) (ts : List Bytes) → flatten (close_token t ts) ≡ t ++ flatten ts
unfolding close_token flatten
flatten-close_token [] ts = refl
flatten-close_token (c ∷ t) ts = refl

flatten-tokens : (d t s : Bytes) → flatten (tokens d t s) ≡ t ++ without d s
unfolding tokens flatten
flatten-tokens d t [] = flatten-close_token t []
flatten-tokens d t (c ∷ s) = elim (Bool-cases (mem_byte c d)) [
  | inl e ↦
      rw (e, tokens) (flatten-close_token t (tokens d [] s) ∙ ap (◌++◌ t) (flatten-tokens d [] s))
  | inr e ↦
      rw (e, tokens) (flatten-tokens d (t ++ c ∷ []) s ∙ append_assoc t (c ∷ []) (without d s))
]

flatten-split : (s d : Bytes) → IsCText s → IsCText d → flatten (split s d) ≡ without d s
unfolding split
flatten-split s d hs hd = rw (c_str-IsCText s hs, c_str-IsCText d hd) (flatten-tokens d [] s)

-- Of a text and a delimiter that hold no terminator: every token that `split` gives is not empty and
-- has no byte of the delimiter, and nothing else than delimiters is lost: the tokens, one after the
-- other, are the text without its delimiters.
pub split_lem :
    (s d : Bytes)
    → IsCText s
    → IsCText d
    → All (IsToken d) (split s d) × (flatten (split s d) ≡ without d s)
split_lem s d hs hd = (split-IsToken s d hd, flatten-split s d hs hd)

tokens_word : (d t word s : Bytes) → IsWord d word → tokens d t (word ++ s) ≡ tokens d (t ++ word) s
unfolding tokens
tokens_word d t [] s h = rw append-nil
tokens_word d t (c ∷ word) s h =
    rw (h.0, tokens) (tokens_word d (t ++ c ∷ []) word s h.1 ∙ rw append_assoc)

close_token-ne : (t : Bytes) (ts : List Bytes) → t ≢ [] → close_token t ts ≡ t ∷ ts
unfolding close_token
close_token-ne [] ts h = absurd (h refl)
close_token-ne (c ∷ t) ts h = refl

tokens_one : (d t : Bytes) → IsToken d t → tokens d [] t ≡ t ∷ []
tokens_one d t h = ap (tokens d []) (sym (append-nil t)) ∙ tokens_word d [] t [] h.1 ∙ tokens_end
  where
    tokens_end : tokens d t [] ≡ t ∷ []
    tokens_end = unfold tokens in close_token-ne t [] h.0

tokens_cut :
    (d t : Bytes) (c : ℕ) (s : Bytes)
    → mem_byte c d ≡ true
    → tokens d t (c ∷ s) ≡ close_token t (tokens d [] s)
unfolding tokens
tokens_cut d t c s e = rw (e, tokens)

-- Two tokens with one byte of the delimiter between them are split into these two, if neither text
-- holds a terminator.
pub split_pair :
    (s t d : Bytes) (c : ℕ)
    → IsToken d s
    → IsToken d t
    → IsCText (s ++ c ∷ t)
    → IsCText d
    → mem_byte c d ≡ true
    → split (s ++ c ∷ t) d ≡ s ∷ t ∷ []
unfolding split
split_pair s t d c hs ht h hd e =
    rw (c_str-IsCText (s ++ c ∷ t) h, c_str-IsCText d hd, tokens_word d [] s (c ∷ t) hs.1)
      (tokens_cut d s c t e ∙ rw (tokens_one d t ht) (close_token-ne s _ hs.0))
