-- ===== src/Logger/Lines.antt =====
-- What a line of the log does before and after the loggers were made (easyrpc/base/logger.hpp,
-- easyrpc/base/file_util.hpp).
use easyrpc.Prelude.{
  Option-cases, ◌≡◌, ◌≢◌, ◌↔◌, ◌⊎◌, refl, inl, inr, Bool, true, false, none, some, Bytes, codes,
  Bool-cases,
}
use easyrpc.Prelude.Exec.{Result, ok, Result-cases}
use easyrpc.Prelude.Outcome.{fault}
use easyrpc.Posix.{Posix}
use easyrpc.Spdlog.{Spdlog}
use easyrpc.FileUtil.{is_empty}
use easyrpc.Logger.{
  LoggerImpl, Line, create_log_file, init_log_core, init, instance_of, log, log_to, log_file,
  max_file_size, max_files,
}

module _ {p : Posix} {l : Spdlog} where
  -- How `init` may leave the loggers.
  abbrev Inited : Result Bool × LoggerImpl p l → Type 0
  Inited (r, s) =
      ((r ≡ ok true)
        × ((console : l.Logger) × (s.console_logger ≡ some console))
        × ((file : l.Logger) × (s.file_logger ≡ some file)))
      ⊎ ((r ≡ ok false) × (s.file_logger ≡ none))

  init_log_core-Inited :
      (name : Bytes) (s : LoggerImpl p l) → s.file_logger ≡ none → Inited (init_log_core name s)
  unfolding init_log_core
  init_log_core-Inited name s none_yet =
      let (r, o) = l.stdout_logger_mt (codes "console") s.output in
      let (r', o') = l.rotating_logger_mt (codes "file") name max_file_size max_files o in
      elim (Result-cases r) [
        | inr (x, e) ↦ rw e (inr (refl, none_yet))
        | inl (console, e) ↦ elim (Result-cases r') [
          | inr (x, e') ↦ rw (e, e') (inr (refl, none_yet))
          | inl (file, e') ↦ rw (e, e') (inl (refl, (console, refl), (file, refl)))
        ]
      ]

  -- The state in which the constructor of the loggers runs.
  abbrev pub unmade : LoggerImpl p l → LoggerImpl p l
  unmade s = record s { console_logger = none; file_logger = none }

  init-Inited : (s : LoggerImpl p l) → Inited (init (unmade s))
  unfolding init
  init-Inited s =
      let (name, f) = create_log_file p s.files in
      elim (Bool-cases (is_empty name)) [
        | inl e ↦ rw e (inr (refl, refl))
        | inr e ↦ rw e (init_log_core-Inited name (record (unmade s) { files = f }) refl)
      ]

  instance_of_fresh :
      (s : LoggerImpl p l)
      → s.is_made ≡ false
      → instance_of s ≡ record (init (unmade s)).1 { is_made = true }
  unfolding instance_of
  instance_of_fresh s fresh = rw fresh

  log_done :
      (this : Line l) (fmt : Bytes) (args : l.Arguments) (s : LoggerImpl p l)
      (console file : l.Logger)
      → (instance_of s).console_logger ≡ some console
      → (instance_of s).file_logger ≡ some file
      → log this fmt args s ≢ fault
  unfolding log
  log_done this fmt args s console file c f = rw (c, log_to, log_file, f, log_to) (λ e. cc)

  log_fault :
      (this : Line l) (fmt : Bytes) (args : l.Arguments) (s : LoggerImpl p l)
      → (instance_of s).file_logger ≡ none
      → log this fmt args s ≡ fault
  unfolding log
  log_fault this fmt args s f = elim (Option-cases (instance_of s).console_logger) [
    | inl e ↦ rw (e, log_to, log_file)
    | inr (console, e) ↦ rw (e, log_to, log_file, f, log_to)
  ]

  -- A line, once the loggers were made or not.
  log_made :
      (this : Line l) (fmt : Bytes) (args : l.Arguments) (s : LoggerImpl p l)
      → s.is_made ≡ false
      → Inited (init (unmade s))
      → (log this fmt args s ≡ fault) ↔ ((init (unmade s)).0 ≡ ok false)
  log_made this fmt args s fresh (inl (r, (console, c), (file, f))) =
      let same = instance_of_fresh s fresh in
      (λ e. absurd (log_done this fmt args s console file (rw same c) (rw same f) e), λ e. cc)
  log_made this fmt args s fresh (inr (r, f)) =
      (λ e. r, λ e. log_fault this fmt args s (rw (instance_of_fresh s fresh) f))

  -- The first line that a process logs calls through a null pointer exactly if `init` returned false,
  -- which the constructor does not look at.
  pub log_faults_iff :
      (this : Line l) (fmt : Bytes) (args : l.Arguments) (s : LoggerImpl p l)
      → s.is_made ≡ false
      → (log this fmt args s ≡ fault) ↔ ((init (unmade s)).0 ≡ ok false)
  log_faults_iff this fmt args s fresh = log_made this fmt args s fresh (init-Inited s)
