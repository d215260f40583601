-- ===== src/Posix.antt =====
-- The calls of the operating system that easyrpc/base/file_util.hpp makes outside of Windows, as an
-- interface with the documented behaviour that is relied on. A path is given up to its terminator.
use easyrpc.Prelude.{ℕ, ◌≡◌, Bool, true, Option, Bytes}

pub record Posix : Type 1 where
  -- the file system and the process
  pub Files : Type 0
  -- `PATH_MAX` of the system's headers, or 1024
  pub path_max : ℕ
  -- `getcwd(buf, size)`; `none` is a null pointer
  pub getcwd : ℕ → Files → Option Bytes
  -- `chdir(path) != -1`
  pub chdir : Bytes → Files → Bool × Files
  -- the bytes that `readlink(path, buf, size)` places, at most `size`; `none` if it fails
  pub readlink : Bytes → ℕ → Files → Option Bytes
  -- `access(path, F_OK) == 0`
  pub access : Bytes → Files → Bool
  -- `mkdir(path, 0755) == 0` and `remove(path) == 0`
  pub mkdir : Bytes → Files → Bool × Files
  pub remove : Bytes → Files → Bool × Files

-- A directory that was made is there, and making one takes nothing away and changes no link.
pub record PosixLaws (p : Posix) : Type 0 where
  pub mkdir_makes :
      (d : Bytes) (f : p.Files) → (p.mkdir d f).0 ≡ true → p.access d (p.mkdir d f).1 ≡ true
  pub mkdir_keeps :
      (d e : Bytes) (f : p.Files) → p.access e f ≡ true → p.access e (p.mkdir d f).1 ≡ true
  pub mkdir_links :
      (d path : Bytes) (size : ℕ) (f : p.Files)
      → p.readlink path size (p.mkdir d f).1 ≡ p.readlink path size f
