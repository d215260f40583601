-- ===== src/StringUtil.antt =====
-- easyrpc/base/string_util.hpp. A `std::size_t` position is a number below 2^64, and `npos` is
-- the largest one; `find` and its relatives of `std::string` are written out as loops.
pub mod Search
pub mod Split
pub mod Contains
pub mod Trim
pub mod Overwrite
use easyrpc.Prelude.{
  ℕ, suc, ◌+◌, ◌-◌, ◌%◌, ◌^◌, Bool, true, false, ◌&&◌, ◌||◌, List, [], ◌∷◌, ◌++◌, map, Bytes,
  bytes_eq, leb, ◌==◌, if◌then◌else◌, length, take, drop,
}

abbrev pub npos : ℕ
npos = 2 ^ 64 - 1

-- Arithmetic on `std::size_t`.
abbrev pub u64 : ℕ → ℕ
u64 n = n % 2 ^ 64

unfoldable pub mem_byte : ℕ → Bytes → Bool
mem_byte c [] = false
mem_byte c (d ∷ ds) = d == c || mem_byte c ds

-- `str.find_first_not_of(token)`, for the part of the text from position `i` on
pub first_not_of : Bytes → ℕ → Bytes → ℕ
unfolding mem_byte
first_not_of token i [] = npos
first_not_of token i (c ∷ s) =
    let rest = first_not_of token (suc i) s in if mem_byte c token then rest else i

unfoldable pub find_first_not_of : Bytes → Bytes → ℕ
unfolding first_not_of
find_first_not_of s token = first_not_of token 0 s

-- `str.find_last_not_of(token)`: the last position found so far is `found`
pub last_not_of : Bytes → ℕ → ℕ → Bytes → ℕ
unfolding mem_byte
last_not_of token i found [] = found
last_not_of token i found (c ∷ s) =
    last_not_of token (suc i) (if mem_byte c token then found else i) s

unfoldable pub find_last_not_of : Bytes → Bytes → ℕ
unfolding last_not_of
find_last_not_of s token = last_not_of token 0 npos s

-- `t.erase(0, n)` and `t.erase(n)`, where a count beyond the end is cut off
abbrev pub erase_front : ℕ → Bytes → Bytes
erase_front n t = if leb (length t) n then [] else drop n t

abbrev pub erase_back : ℕ → Bytes → Bytes
erase_back n t = take n t

unfoldable pub trim_left : Bytes → Bytes → Bytes
unfolding find_first_not_of
trim_left str token = erase_front (find_first_not_of str token) str

unfoldable pub trim_right : Bytes → Bytes → Bytes
unfolding find_last_not_of
trim_right str token = erase_back (u64 (find_last_not_of str token + 1)) str

unfoldable pub trim : Bytes → Bytes → Bytes
unfolding find_first_not_of find_last_not_of
trim str token =
    let t = erase_front (find_first_not_of str token) str in
    erase_back (u64 (find_last_not_of t token + 1)) t

-- `::tolower` and `::toupper` of the "C" locale
pub lower : ℕ → ℕ
lower c = if leb b'A' c && leb c b'Z' then c + 32 else c

pub upper : ℕ → ℕ
upper c = if leb b'a' c && leb c b'z' then c - 32 else c

unfoldable pub tolower : Bytes → Bytes
unfolding lower
tolower str = map lower str

unfoldable pub toupper : Bytes → Bytes
unfolding upper
toupper str = map upper str

pub is_prefix : Bytes → Bytes → Bool
is_prefix [] s = true
is_prefix (c ∷ t) [] = false
is_prefix (c ∷ t) (d ∷ s) = d == c && is_prefix t s

-- `str.find(token)` and `str.rfind(token)`, for the part of the text from position `i` on
find_from : Bytes → ℕ → Bytes → ℕ
unfolding is_prefix
find_from token i [] = if is_prefix token [] then i else npos
find_from token i (c ∷ s) =
    let rest = find_from token (suc i) s in if is_prefix token (c ∷ s) then i else rest

unfoldable pub find : Bytes → Bytes → ℕ
unfolding find_from
find str token = find_from token 0 str

rfind_from : Bytes → ℕ → ℕ → Bytes → ℕ
unfolding is_prefix
rfind_from token i found [] = if is_prefix token [] then i else found
rfind_from token i found (c ∷ s) =
    rfind_from token (suc i) (if is_prefix token (c ∷ s) then i else found) s

unfoldable pub rfind : Bytes → Bytes → ℕ
unfolding rfind_from
rfind str token = rfind_from token 0 npos str

unfoldable pub starts_with : Bytes → Bytes → Bool
unfolding find
starts_with str substr = find str substr == 0

unfoldable pub ends_with : Bytes → Bytes → Bool
unfolding rfind
ends_with str substr = rfind str substr == (length str + 2 ^ 64 - length substr) % 2 ^ 64

unfoldable pub equals_ignore_case : Bytes → Bytes → Bool
unfolding tolower
equals_ignore_case str1 str2 = bytes_eq (tolower str1) (tolower str2)

unfoldable pub contains : Bytes → Bytes → Bool
unfolding find
contains str token = if find str token == npos then false else true

-- The bytes up to the terminator that `c_str()` shows to C.
unfoldable pub c_str : Bytes → Bytes
c_str [] = []
c_str (c ∷ s) = let rest = c_str s in if c == 0 then [] else c ∷ rest

-- The loop over `strtok_r`: `token` is the token under way, none if it is empty.
close_token : Bytes → List Bytes → List Bytes
close_token [] rest = rest
close_token (c ∷ token) rest = (c ∷ token) ∷ rest

tokens : Bytes → Bytes → Bytes → List Bytes
unfolding mem_byte close_token
tokens delimiter token [] = close_token token []
tokens delimiter token (c ∷ s) = elim (mem_byte c delimiter) [
  | true ↦ close_token token (tokens delimiter [] s)
  | false ↦ tokens delimiter (token ++ c ∷ []) s
]

unfoldable pub split : Bytes → Bytes → List Bytes
unfolding tokens c_str
split str delimiter = tokens (c_str delimiter) [] (c_str str)

-- What `strtok_r` leaves of the text itself: a terminator in place of the delimiter behind each
-- token; `is_open` says that a token is under way.
pub overwrite : Bytes → Bool → Bytes → Bytes
unfolding mem_byte
overwrite delimiter is_open [] = []
overwrite delimiter is_open (c ∷ s) = elim (c == 0) [
  | true ↦ c ∷ s
  | false ↦ elim (mem_byte c delimiter) [
    | true ↦ (if is_open then 0 else c) ∷ overwrite delimiter false s
    | false ↦ c ∷ overwrite delimiter true s
  ]
]

-- The text of the caller after `split`.
pub split_text : Bytes → Bytes → Bytes
unfolding overwrite c_str
split_text str delimiter = overwrite (c_str delimiter) false str
