-- ===== src/Tests/Files.antt =====
-- A small file system, and a logger that prints lists of lines.
use easyrpc.Prelude.{
  ◌≡◌, ◌↔◌, refl, Bool, true, false, ◌||◌, none, some, List, [], ◌∷◌, ◌++◌, Bytes, codes, bytes_eq,
  bytes_eq_iff, take, arith,
}
use easyrpc.Prelude.Exec.{ok}
use easyrpc.Prelude.Outcome.{fault}
use easyrpc.StringUtil.{c_str}
use easyrpc.Posix.{Posix, PosixLaws}
use easyrpc.Spdlog.{Spdlog}
use easyrpc.FileUtil.{is_exists, mkdir}
use easyrpc.FileUtil.Directories.{mkdir_parents}
use easyrpc.Logger.{LoggerImpl, Line, log, init}
use easyrpc.Logger.Lines.{log_faults_iff, unmade}
use easyrpc.Logger.Names.{IsExe}

-- The directories, and the link to the executable.
record Disk : Type 0 where
  paths : List Bytes
  exe : Bytes

abbrev has : Bytes → List Bytes → Bool
has d [] = false
has d (e ∷ es) = bytes_eq e d || has d es

abbrev disks : Posix
disks = record {
  Files = Disk;
  path_max = 1024;
  getcwd = λ n f. some (codes "/");
  chdir = λ d f. (true, f);
  readlink = λ d n f. some (take n f.exe);
  access = λ d f. has d f.paths;
  mkdir = λ d f. (true, record f { paths = d ∷ f.paths });
  remove = λ d f. (false, f);
}

disks_laws : PosixLaws disks
disks_laws = record {
  mkdir_makes = λ d f h. rw ((bytes_eq_iff d d).1 refl);
  mkdir_keeps = λ d e f h. ground (arith, h);
  mkdir_links = λ d path size f. refl;
}

abbrev usr_disk : Disk
usr_disk = record { paths = codes "/usr" ∷ []; exe = codes "/usr/app" }

mkdir_parents_example :
    (is_exists disks (codes "/a") (mkdir disks (codes "/a" ++ b'/' ∷ codes "b") usr_disk).1 ≡ true)
    × (is_exists disks
          (codes "/a" ++ b'/' ∷ codes "b")
          (mkdir disks (codes "/a" ++ b'/' ∷ codes "b") usr_disk).1
        ≡ true)
    × (mkdir disks
          (codes "/a" ++ b'/' ∷ codes "b")
          (mkdir disks (codes "/a" ++ b'/' ∷ codes "b") usr_disk).1
        ≡ (true, (mkdir disks (codes "/a" ++ b'/' ∷ codes "b") usr_disk).1))
unfolding is_exists mkdir bytes_eq c_str
mkdir_parents_example =
    mkdir_parents disks_laws (codes "/a") (codes "b") b'/' usr_disk refl (λ e. cc) refl refl

-- What was printed.
abbrev lists : Spdlog
lists = record {
  Logger = Bytes;
  Level = Unit {0};
  Arguments = Unit {0};
  Output = List Bytes;
  debug = tt;
  stdout_logger_mt = λ name out. (ok name, out);
  rotating_logger_mt = λ name file size files out. (ok file, out);
  set_level = λ logger level out. out;
  log = λ logger level content args out. content ∷ out;
}

abbrev process : Disk → LoggerImpl disks lists
process f = record {
  is_made = false;
  console_logger = none;
  file_logger = none;
  files = f;
  output = [];
}

abbrev line : Line lists
line = record { file_path = codes "/src/a.hpp"; file_name = codes "f"; line = 7; level = tt }

-- An executable in `/usr`, and one in the root directory.
usr_app : IsExe disks usr_disk (codes "/usr") (codes "app")
usr_app = record {
  link = refl;
  text = ground arith;
  plain = ground arith;
  fits = omega arith;
  short = omega arith;
}

abbrev root_disk : Disk
root_disk = record { paths = []; exe = codes "/app" }

root_app : IsExe disks root_disk [] (codes "app")
root_app = record {
  link = refl;
  text = ground arith;
  plain = ground arith;
  fits = omega arith;
  short = omega arith;
}

log_faults_iff_example :
    (log line (codes "hi") tt (process usr_disk) ≡ fault)
    ↔ ((init (unmade (process usr_disk))).0 ≡ ok false)
log_faults_iff_example = log_faults_iff line (codes "hi") tt (process usr_disk) refl
