-- ===== src/StringUtil/Overwrite.antt =====
-- What `split` leaves of the text of its caller (easyrpc/base/string_util.hpp).
use easyrpc.Prelude.{
  ℕ, ◌≡◌, ◌≢◌, refl, ap, sym, ◌∙◌, true, false, [], ◌∷◌, ◌++◌, Bytes, arith, suc, Bool, append-nil,
}
use easyrpc.StringUtil.{npos, mem_byte, is_prefix, find, find_from, contains, overwrite, split_text}
use easyrpc.StringUtil.Split.{IsWord, IsCText, IsToken, c_str-IsCText}

overwrite_byte :
    (d : Bytes) (is_open : Bool) (c : ℕ) (s : Bytes)
    → mem_byte c d ≡ false
    → c ≢ 0
    → overwrite d is_open (c ∷ s) ≡ c ∷ overwrite d true s
unfolding overwrite
overwrite_byte d is_open c s e h = ground arith

-- A token is left as it is.
overwrite_word :
    (d word s : Bytes)
    → IsWord d word
    → IsCText word
    → overwrite d true (word ++ s) ≡ word ++ overwrite d true s
overwrite_word d [] s h hc = refl
overwrite_word d (c ∷ word) s h hc =
    overwrite_byte d true c (word ++ s) h.0 hc.0 ∙ ap (◌∷◌ c) (overwrite_word d word s h.1 hc.1)

overwrite_token :
    (d word s : Bytes)
    → IsToken d word
    → IsCText word
    → overwrite d false (word ++ s) ≡ word ++ overwrite d true s
overwrite_token d [] s h hc = absurd (h.0 refl)
overwrite_token d (c ∷ word) s h hc =
    overwrite_byte d false c (word ++ s) h.1.0 hc.0
    ∙ ap (◌∷◌ c) (overwrite_word d word s h.1.1 hc.1)

overwrite_cut :
    (d : Bytes) (c : ℕ) (s : Bytes)
    → mem_byte c d ≡ true
    → c ≢ 0
    → overwrite d true (c ∷ s) ≡ 0 ∷ overwrite d false s
unfolding overwrite
overwrite_cut d c s e h = ground arith

overwrite_nil : (d : Bytes) → overwrite d true [] ≡ []
unfolding overwrite
overwrite_nil d = refl

-- Two tokens with one byte of the delimiter between them: a terminator takes its place.
pub split_text_pair :
    (s t d : Bytes) (c : ℕ)
    → IsToken d s
    → IsToken d t
    → IsCText s
    → IsCText t
    → IsCText d
    → mem_byte c d ≡ true
    → c ≢ 0
    → split_text (s ++ c ∷ t) d ≡ s ++ 0 ∷ t
unfolding split_text
split_text_pair s t d c hs ht cs ct cd e h = rw (c_str-IsCText d cd) (
    overwrite_token d s (c ∷ t) hs cs
    ∙ ap (◌++◌ s) (
        overwrite_cut d c t e h
        ∙ ap (◌∷◌ 0) (
            ap (overwrite d false) (sym (append-nil t))
            ∙ overwrite_token d t [] ht ct
            ∙ ap (◌++◌ t) (overwrite_nil d)
            ∙ append-nil t)))

find_from_missing : (c i : ℕ) (s : Bytes) → IsWord (c ∷ []) s → find_from (c ∷ []) i s ≡ npos
unfolding find_from is_prefix mem_byte
find_from_missing c i [] h = refl
find_from_missing c i (b ∷ s) h = ground (arith, find_from_missing c (suc i) s)

-- A byte that a text does not have is not found in it.
pub contains_missing : (c : ℕ) (s : Bytes) → IsWord (c ∷ []) s → contains s (c ∷ []) ≡ false
unfolding contains find
contains_missing c s h = let missing = find_from_missing c 0 s h in ground arith
