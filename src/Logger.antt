-- ===== src/Logger.antt =====
-- easyrpc/base/logger.hpp: the two loggers of the process, which its one `logger_impl` holds, and a
-- line of the log. `none` is a null `shared_ptr`.
pub mod Lines
pub mod Names
use easyrpc.Prelude.{
  ℕ, ◌+◌, ◌*◌, Bool, true, false, Option, none, some, [], ◌++◌, Bytes, codes, if◌then◌else◌, drop,
  length, ◌-◌, get_or,
}
use easyrpc.Prelude.Exec.{Exec, ok, pure, modify, ◌>>=◌, ◌>>◌, try_catch}
use easyrpc.Prelude.Outcome.{Outcome, done, waits, fault}
use easyrpc.StringUtil.{u64, c_str}
use easyrpc.Number.{to_string_long}
use easyrpc.Posix.{Posix}
use easyrpc.Spdlog.{Spdlog}
use easyrpc.FileUtil
use easyrpc.FileUtil.{is_empty, is_separator, find_last_slash}

abbrev pub logger_name : Bytes
logger_name = codes "easyrpc"

abbrev pub max_file_size : ℕ
max_file_size = 3 * 1024 * 1024

abbrev pub max_files : ℕ
max_files = 30

-- `is_made`: the object of `instance()` was constructed.
pub record LoggerImpl (p : Posix) (l : Spdlog) : Type 0 where
  pub is_made : Bool
  pub console_logger : Option l.Logger
  pub file_logger : Option l.Logger
  pub files : p.Files
  pub output : l.Output

-- `exe_path[exe_path.size() - 1]` of a text that is not empty
abbrev last_byte : Bytes → ℕ
last_byte s = get_or s (length s - 1) 0

logs_path : Bytes → Bytes
logs_path exe_path =
    if is_separator (last_byte exe_path)
    then exe_path ++ codes "logs"
    else exe_path ++ codes "/logs"

module _ (p : Posix) where
  log_name : Bytes → Bytes → Bytes
  log_name log_path exe_name =
      if is_empty exe_name
      then []
      else log_path ++ codes "/" ++ exe_name ++ codes "_" ++ logger_name

  unfoldable pub create_log_file : p.Files → Bytes × p.Files
  unfolding logs_path log_name
  create_log_file f =
      let exe_path = FileUtil.current_exe_path p f in
      let log_path = logs_path exe_path in
      let (made, f') = FileUtil.mkdir p log_path f in
      if is_empty exe_path
      then ([], f)
      else if made
      then (log_name log_path (FileUtil.current_exe_name p f'), f')
      else ([], f')

module _ {p : Posix} {l : Spdlog} where
  abbrev on_output : {A : Type 0} → Exec l.Output A → Exec (LoggerImpl p l) A
  on_output m s = let (r, output) = m s.output in (r, record s { output = output })

  unfoldable pub init_log_core : Bytes → Exec (LoggerImpl p l) Bool
  init_log_core file_name =
      try_catch
        (do
          console ← on_output (l.stdout_logger_mt (codes "console"))
          modify (λ s. record s { console_logger = some console })
          file ← on_output (l.rotating_logger_mt (codes "file") file_name max_file_size max_files)
          modify (λ s. record s { file_logger = some file })
          modify (λ s. record s { output = l.set_level console l.debug s.output })
          modify (λ s. record s { output = l.set_level file l.debug s.output })
          pure true)
        (λ e. pure false)

  unfoldable pub init : Exec (LoggerImpl p l) Bool
  unfolding create_log_file init_log_core
  init s =
      let (file_name, f) = create_log_file p s.files in
      if is_empty file_name
      then (ok false, record s { files = f })
      else init_log_core file_name (record s { files = f })

  -- The constructor runs `init` and ignores what it returns; the object is made once.
  unfoldable pub instance_of : LoggerImpl p l → LoggerImpl p l
  unfolding init
  instance_of s =
      if s.is_made
      then s
      else record (init (record s { console_logger = none; file_logger = none })).1 {
        is_made = true;
      }

-- The place of a line in the source, and its level.
pub record Line (l : Spdlog) : Type 0 where
  pub file_path : Bytes
  pub file_name : Bytes
  pub line : ℕ
  pub level : l.Level

module _ {l : Spdlog} where
  -- The constructor, which the macros call with the place and the level.
  abbrev create : Bytes → Bytes → ℕ → l.Level → Line l
  create file_path func_name line level = record {
    file_path = file_path;
    file_name = func_name;
    line = line;
    level = level;
  }

  -- `int pos` is -1 where there is no separator, and `pos + 1` is then 0; the name of a source file is
  -- taken to be shorter than 2^31 bytes, so that every other position is an `int`.
  unfoldable pub make_content : Line l → Bytes → Bytes
  make_content this fmt =
      let pos = find_last_slash this.file_path in
      drop (u64 (pos + 1)) this.file_path
      ++ codes " "
      ++ this.file_name
      ++ codes "("
      ++ to_string_long this.line
      ++ codes ") "
      ++ fmt

module _ {p : Posix} {l : Spdlog} where
  -- A call through a logger's pointer.
  log_to :
      Option l.Logger → l.Level → Bytes → l.Arguments → LoggerImpl p l → Outcome (LoggerImpl p l)
  log_to none level content args s = fault
  log_to (some logger) level content args s =
      done (record s { output = l.log logger level content args s.output })

  log_file : l.Level → Bytes → l.Arguments → Outcome (LoggerImpl p l) → Outcome (LoggerImpl p l)
  unfolding log_to
  log_file level content args (done s) = log_to s.file_logger level content args s
  log_file level content args waits = waits
  log_file level content args fault = fault

  unfoldable pub log : Line l → Bytes → l.Arguments → LoggerImpl p l → Outcome (LoggerImpl p l)
  unfolding instance_of make_content log_file log_to
  log this fmt args s =
      let content = make_content this fmt in
      let s' = instance_of s in
      log_file this.level content args (log_to s'.console_logger this.level content args s')

  -- `log` of a `std::string`, which hands on its `c_str()`
  pub log_string : Line l → Bytes → l.Arguments → LoggerImpl p l → Outcome (LoggerImpl p l)
  unfolding log
  log_string this fmt args s = log this (c_str fmt) args s
