-- ===== src/Spdlog.antt =====
-- What the program uses of spdlog, the logging library, which is not part of the repository.
use easyrpc.Prelude.{ℕ, Bytes}
use easyrpc.Prelude.Exec.{Exec}

pub record Spdlog : Type 1 where
  pub Logger : Type 0
  pub Level : Type 0
  -- the arguments that a message is formatted with
  pub Arguments : Type 0
  -- what was printed, and the registry of loggers
  pub Output : Type 0
  pub debug : Level
  -- `stdout_logger_mt(name, false)` and `rotating_logger_mt(name, file, size, files)`
  pub stdout_logger_mt : Bytes → Exec Output Logger
  pub rotating_logger_mt : Bytes → Bytes → ℕ → ℕ → Exec Output Logger
  pub set_level : Logger → Level → Output → Output
  -- `log(level, content, args...)`
  pub log : Logger → Level → Bytes → Arguments → Output → Output
