-- ===== src/FileUtil/Paths.antt =====
-- The directory and the name of the executable (easyrpc/base/file_util.hpp).
use easyrpc.Prelude.{
  ℕ, zero, suc, ◌+◌, ◌-◌, ◌^◌, ◌<◌, ◌≤◌, ◌≡◌, refl, ap, ◌∙◌, false, some, [], ◌∷◌, ◌++◌, Bytes,
  codes, ◌==◌, if◌then◌else◌, length, take, drop, length-append, take-append, All, arith,
}
use easyrpc.StringUtil.{npos}
use easyrpc.StringUtil.Split.{IsCText, c_str-IsCText}
use easyrpc.Posix.{Posix}
use easyrpc.FileUtil.{
  last_slash, find_last_slash, dir_part, file_part, exe_link, link_text, current_exe_path,
  current_exe_name,
}

-- A name with no separator.
abbrev pub IsFileName : Bytes → Type 0
IsFileName s = All (λ c. (c == b'/') ≡ false) s

last_slash_none : (i found : ℕ) (s : Bytes) → IsFileName s → last_slash i found s ≡ found
unfolding last_slash
last_slash_none i found [] h = refl
last_slash_none i found (c ∷ s) (h, hs) = rw h (last_slash_none (suc i) found s hs)

last_slash-append :
    (i found : ℕ) (dir name : Bytes)
    → IsFileName name
    → last_slash i found (dir ++ b'/' ∷ name) ≡ i + length dir
unfolding last_slash
last_slash-append i found [] name h = last_slash_none (suc i) i name h ∙ omega arith
last_slash-append i found (c ∷ dir) name h =
    last_slash-append (suc i) (if c == b'/' then i else found) dir name h ∙ omega arith

pub find_last_slash-append :
    (dir name : Bytes) → IsFileName name → find_last_slash (dir ++ b'/' ∷ name) ≡ length dir
unfolding find_last_slash
find_last_slash-append dir name h = last_slash-append 0 npos dir name h ∙ omega arith

dir_part-append :
    (dir name : Bytes) → IsFileName name → length dir < npos → dir_part (dir ++ b'/' ∷ name) ≡ dir
unfolding dir_part
dir_part-append dir name h short =
    rw (find_last_slash-append dir name h) (ground (arith, take-append dir (b'/' ∷ name)))

take_long : (n : ℕ) (s : Bytes) → length s ≤ n → take n s ≡ s
take_long zero [] h = refl
take_long (suc n) [] h = refl
take_long zero (c ∷ s) h = absurd (omega arith)
take_long (suc n) (c ∷ s) h = ap (◌∷◌ c) (take_long n s (omega arith))

pub drop_after :
    (dir : Bytes) (c : ℕ) (name : Bytes) → drop (length dir + 1) (dir ++ c ∷ name) ≡ name
drop_after [] c name = refl
drop_after (d ∷ dir) c name =
    let e : length (d ∷ dir) + 1 ≡ suc (length dir + 1) = omega arith in
    rw e (drop_after dir c name)

file_part-append :
    (dir name : Bytes) → IsFileName name → length dir < npos → file_part (dir ++ b'/' ∷ name) ≡ name
unfolding file_part
file_part-append dir name h short =
    rw (find_last_slash-append dir name h, drop_after dir b'/' name)
      (ground
        (arith, take_long (length (dir ++ b'/' ∷ name) - 1) name, length-append dir (b'/' ∷ name)))

-- The link to the executable, where it fits into the buffer.
exe_link_fits :
    (p : Posix) (f : p.Files) (path : Bytes)
    → p.readlink (codes "/proc/self/exe") p.path_max f ≡ some path
    → IsCText path
    → length path < p.path_max
    → exe_link p f ≡ some path
unfolding exe_link
exe_link_fits p f path e h fits = rw (e, link_text, c_str-IsCText path h) (ground arith)

-- If the link to the executable is a directory, a separator and a name with no separator, holds no
-- terminator and is shorter than the buffer, and the directory is shorter than 2^31 bytes, then the
-- two functions give this directory and this name.
pub current_exe_parts :
    (p : Posix) (f : p.Files) (dir name : Bytes)
    → p.readlink (codes "/proc/self/exe") p.path_max f ≡ some (dir ++ b'/' ∷ name)
    → IsCText (dir ++ b'/' ∷ name)
    → IsFileName name
    → length (dir ++ b'/' ∷ name) < p.path_max
    → length dir < 2 ^ 31
    → (current_exe_path p f ≡ dir) × (current_exe_name p f ≡ name)
unfolding current_exe_path current_exe_name
current_exe_parts p f dir name e h plain fits short =
    rw (current_exe_path, current_exe_name, exe_link_fits p f (dir ++ b'/' ∷ name) e h fits)
      (dir_part-append dir name plain (omega arith), file_part-append dir name plain (omega arith))
