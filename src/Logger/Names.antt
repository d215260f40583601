-- ===== src/Logger/Names.antt =====
-- The names of the log file and of the files in its lines (easyrpc/base/logger.hpp,
-- easyrpc/base/file_util.hpp).
use easyrpc.Prelude.{
  ◌+◌, ◌-◌, ◌^◌, ◌<◌, ◌≡◌, ◌∙◌, true, false, some, [], ◌∷◌, ◌++◌, Bytes, codes, length, arith,
}
use easyrpc.Prelude.Outcome.{fault}
use easyrpc.StringUtil.{u64}
use easyrpc.StringUtil.Split.{IsCText}
use easyrpc.Number.{to_string_long}
use easyrpc.Posix.{Posix, PosixLaws}
use easyrpc.Spdlog.{Spdlog}
use easyrpc.FileUtil.{is_empty, is_separator, is_exists, current_exe_path, current_exe_name, mkdir}
use easyrpc.FileUtil.Paths.{IsFileName, current_exe_parts, find_last_slash-append, drop_after}
use easyrpc.FileUtil.Directories.{mkdir_makes, mkdir_links}
use easyrpc.Logger.{
  LoggerImpl, Line, logs_path, log_name, create_log_file, init, log, make_content, last_byte,
  logger_name,
}
use easyrpc.Logger.Lines.{log_faults_iff}

-- The link to the executable, as the functions of `file_util` can take it apart.
pub record IsExe (p : Posix) (f : p.Files) (dir name : Bytes) : Type 0 where
  pub link : p.readlink (codes "/proc/self/exe") p.path_max f ≡ some (dir ++ b'/' ∷ name)
  pub text : IsCText (dir ++ b'/' ∷ name)
  pub plain : IsFileName name
  pub fits : length (dir ++ b'/' ∷ name) < p.path_max
  pub short : length dir < 2 ^ 31

module _ (p : Posix) where
  exe_parts :
      (f : p.Files) (dir name : Bytes)
      → IsExe p f dir name
      → (current_exe_path p f ≡ dir) × (current_exe_name p f ≡ name)
  exe_parts f dir name e = current_exe_parts p f dir name e.link e.text e.plain e.fits e.short

  create_log_file_empty : (f : p.Files) → current_exe_path p f ≡ [] → create_log_file p f ≡ ([], f)
  unfolding create_log_file
  create_log_file_empty f e = rw e

  -- An executable `name` in a directory `dir` that is not empty and does not end with a separator:
  -- the log is named `dir/logs/name_easyrpc`, and its directory is there, if it could be made.
  pub create_log_file_names :
      (laws : PosixLaws p) (f : p.Files) (dir name : Bytes)
      → IsExe p f dir name
      → is_empty dir ≡ false
      → is_separator (last_byte dir) ≡ false
      → is_empty name ≡ false
      → (mkdir p (dir ++ codes "/logs") f).0 ≡ true
      → (create_log_file p f ≡ (
        (dir ++ codes "/logs") ++ codes "/" ++ name ++ codes "_" ++ logger_name,
        (mkdir p (dir ++ codes "/logs") f).1,
      ))
        × (is_exists p (dir ++ codes "/logs") (mkdir p (dir ++ codes "/logs") f).1 ≡ true)
  unfolding create_log_file logs_path log_name
  create_log_file_names laws f dir name e full plain named made =
      let later : IsExe p (mkdir p (dir ++ codes "/logs") f).1 dir name = record {
        link =
            mkdir_links laws (dir ++ codes "/logs") (codes "/proc/self/exe") p.path_max f ∙ e.link;
        text = e.text;
        plain = e.plain;
        fits = e.fits;
        short = e.short;
      } in
      (
        rw ((exe_parts f dir name e).0, plain, full, made, (exe_parts _ dir name later).1, named),
        (mkdir_makes laws (dir ++ codes "/logs") f made).0,
      )

-- If the executable lies in the root directory, the first line that the process logs calls through a
-- null pointer.
pub log_in_root_faults :
    {p : Posix} {l : Spdlog} (this : Line l) (fmt : Bytes) (args : l.Arguments) (s : LoggerImpl p l)
    (name : Bytes)
    → s.is_made ≡ false
    → IsExe p s.files [] name
    → log this fmt args s ≡ fault
unfolding init
log_in_root_faults {p} this fmt args s name fresh e =
    (log_faults_iff this fmt args s fresh).1
      (rw (create_log_file_empty p s.files (exe_parts p s.files [] name e).0))

-- A line begins with the name of its file, without the directories in front of it, if their names
-- are shorter than 2^31 - 1 bytes together.
pub make_content_names :
    {l : Spdlog} (this : Line l) (dir name fmt : Bytes)
    → this.file_path ≡ dir ++ b'/' ∷ name
    → IsFileName name
    → length dir < 2 ^ 31 - 1
    → make_content this fmt
      ≡ name
        ++ codes " "
        ++ this.file_name
        ++ codes "("
        ++ to_string_long this.line
        ++ codes ") "
        ++ fmt
unfolding make_content
make_content_names this dir name fmt e plain short =
    let after : u64 (length dir + 1) ≡ length dir + 1 = omega arith in
    rw (e, find_last_slash-append dir name plain, after, drop_after dir b'/' name)
