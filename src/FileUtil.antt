-- ===== src/FileUtil.antt =====
-- easyrpc/base/file_util.hpp, the branches outside of Windows: the process's paths, and directories.
pub mod Paths
pub mod Directories
use easyrpc.Prelude.{
  ℕ, suc, ◌-◌, ◌+◌, Bool, true, false, not, ◌||◌, ◌&&◌, Option, none, some, [], ◌∷◌, ◌++◌, Bytes,
  codes, ltb, ◌==◌, if◌then◌else◌, length, take, drop,
}
use easyrpc.StringUtil.{npos, c_str}
use easyrpc.Posix.{Posix}

abbrev pub is_empty : Bytes → Bool
is_empty [] = true
is_empty (c ∷ s) = false

-- `path.find_last_of("/")`, for the part of the text from position `i` on; the last position found
-- so far is `found`.
last_slash : ℕ → ℕ → Bytes → ℕ
last_slash i found [] = found
last_slash i found (c ∷ s) = last_slash (suc i) (if c == b'/' then i else found) s

unfoldable pub find_last_slash : Bytes → ℕ
unfolding last_slash
find_last_slash path = last_slash 0 npos path

-- `dir_path[i] == '/' || dir_path[i] == '\\'`
abbrev pub is_separator : ℕ → Bool
is_separator c = c == b'/' || c == b'\x5c'

-- `path.substr(0, pos)` and `path.substr(pos + 1, path.size() - 1)`, with what comes before them
dir_part : Bytes → Bytes
unfolding find_last_slash
dir_part path = let pos = find_last_slash path in if pos == npos then [] else take pos path

file_part : Bytes → Bytes
unfolding find_last_slash
file_part path =
    let pos = find_last_slash path in
    if pos == npos then [] else take (length path - 1) (drop (pos + 1) path)

abbrev part_or_empty : (Bytes → Bytes) → Option Bytes → Bytes
part_or_empty part none = []
part_or_empty part (some path) = part path

module _ (p : Posix) where
  pub current_work_path : p.Files → Bytes
  current_work_path f = elim (p.getcwd (p.path_max - 1) f) [ none ↦ [] | some buf ↦ c_str buf ]

  pub set_current_work_path : Bytes → p.Files → Bool × p.Files
  set_current_work_path path f = p.chdir (c_str path) f

  -- What `readlink` placed in the buffer, which was filled with zeros, as a string; `none` if it
  -- failed or filled the buffer.
  link_text : Option Bytes → Option Bytes
  link_text none = none
  link_text (some buf) = if ltb (length buf) p.path_max then some (c_str buf) else none

  exe_link : p.Files → Option Bytes
  unfolding link_text
  exe_link f = link_text (p.readlink (codes "/proc/self/exe") p.path_max f)

  unfoldable pub current_exe_path : p.Files → Bytes
  unfolding exe_link dir_part
  current_exe_path f = part_or_empty dir_part (exe_link f)

  unfoldable pub current_exe_name : p.Files → Bytes
  unfolding exe_link file_part
  current_exe_name f = part_or_empty file_part (exe_link f)

  unfoldable pub is_exists : Bytes → p.Files → Bool
  is_exists path f = p.access (c_str path) f

  -- `if (!is_exists(temp_path)) { if (::mkdir(temp_path.c_str(), 0755) != 0) return false; }`
  unfoldable pub ensure : Bytes → p.Files → Bool × p.Files
  unfolding is_exists
  ensure temp_path f = if is_exists temp_path f then (true, f) else p.mkdir (c_str temp_path) f

  -- A round of the loop at the byte `c` of `dir_path`, behind `before`; at position 0 it goes on.
  round : Bytes → ℕ → p.Files → Bool × p.Files
  unfolding ensure
  round before c f = if is_separator c && not (is_empty before) then ensure before f else (true, f)

  -- The loop, where `before` was gone over and `rest` is left.
  make_dirs : Bytes → Bytes → p.Files → Bool × p.Files
  unfolding round
  make_dirs before [] f = (true, f)
  make_dirs before (c ∷ rest) f =
      let (made, f') = round before c f in
      elim made [ true ↦ make_dirs (before ++ c ∷ []) rest f' | false ↦ (false, f') ]

  -- The test before the loop is true of every byte, so that the `/` is always added.
  unfoldable pub mkdir : Bytes → p.Files → Bool × p.Files
  unfolding is_exists make_dirs
  mkdir path f =
      if is_empty path
      then (false, f)
      else if is_exists path f
      then (true, f)
      else make_dirs [] (path ++ b'/' ∷ []) f

  pub remove : Bytes → p.Files → Bool × p.Files
  unfolding is_exists
  remove path f =
      if is_empty path
      then (false, f)
      else if is_exists path f
      then p.remove (c_str path) f
      else (false, f)
