-- ===== src/Logging.antt =====
-- logging.c and include/logging.h: which messages are printed, and with which heading.
--
-- A message is the text that `vfprintf` makes of its format and arguments. `logger_endpoint` is a
-- value; the default one appends to the bytes of the standard error, and its result, which no caller
-- reads, is left out.
use sftfs.Prelude.{ℕ, ◌≡◌, refl, Bool, true, false, List, [], ◌∷◌, ◌++◌, if◌then◌else◌, leb}

pub data Severity : Type 0 where
  trace debug info warn error fatal off : Severity

unfoldable pub severity_value : Severity → ℕ
severity_value trace = 0
severity_value debug = 1
severity_value info = 2
severity_value warn = 3
severity_value error = 4
severity_value fatal = 5
severity_value off = 6

-- SFTFS_ACTIVE_LOGGING_SEVERITY where it is not set from outside; `ndebug` is whether NDEBUG is
-- defined.
unfoldable pub active_severity : (ndebug : Bool) → Severity
active_severity ndebug = if ndebug then info else trace

abbrev word_of : Severity → List ℕ
word_of trace = b'T' ∷ b'R' ∷ b'A' ∷ b'C' ∷ b'E' ∷ []
word_of debug = b'D' ∷ b'E' ∷ b'B' ∷ b'U' ∷ b'G' ∷ []
word_of info = b'I' ∷ b'N' ∷ b'F' ∷ b'O' ∷ []
word_of warn = b'W' ∷ b'A' ∷ b'R' ∷ b'N' ∷ []
word_of error = b'E' ∷ b'R' ∷ b'R' ∷ b'O' ∷ b'R' ∷ []
word_of fatal = b'F' ∷ b'A' ∷ b'T' ∷ b'A' ∷ b'L' ∷ []
word_of off = []

abbrev color_of : Severity → List ℕ
color_of trace = b'3' ∷ b'4' ∷ []
color_of debug = b'3' ∷ b'6' ∷ []
color_of info = b'3' ∷ b'2' ∷ []
color_of warn = b'3' ∷ b'3' ∷ []
color_of error = b'3' ∷ b'1' ∷ []
color_of fatal = b'3' ∷ b'7' ∷ b';' ∷ b'4' ∷ b'1' ∷ []
color_of off = []

-- The escape sequence `\033[...m`.
abbrev escape : List ℕ → List ℕ
escape code = 27 ∷ b'[' ∷ (code ++ (b'm' ∷ []))

abbrev bracketed : List ℕ → List ℕ
bracketed text = b'[' ∷ (text ++ (b']' ∷ b' ' ∷ []))

unfoldable pub uncolored_headings : Severity → List ℕ
uncolored_headings off = []
uncolored_headings trace = bracketed (word_of trace)
uncolored_headings debug = bracketed (word_of debug)
uncolored_headings info = bracketed (word_of info)
uncolored_headings warn = bracketed (word_of warn)
uncolored_headings error = bracketed (word_of error)
uncolored_headings fatal = bracketed (word_of fatal)

abbrev colored : Severity → List ℕ
colored s = bracketed (escape (color_of s) ++ (word_of s ++ escape (b'0' ∷ [])))

unfoldable pub colored_headings : Severity → List ℕ
colored_headings off = []
colored_headings trace = colored trace
colored_headings debug = colored debug
colored_headings info = colored info
colored_headings warn = colored warn
colored_headings error = colored error
colored_headings fatal = colored fatal

-- `is_tty` is `isatty(fileno(stderr))`, `printed` what was printed so far.
unfoldable pub default_logger_endpoint : (is_tty : Bool) → Severity → List ℕ → List ℕ → List ℕ
unfolding colored_headings uncolored_headings
default_logger_endpoint is_tty severity message printed =
    let heading = if is_tty then colored_headings severity else uncolored_headings severity in
    printed ++ (heading ++ message)

-- The global `logger_endpoint`, and what it acts on. An endpoint does not set another one.
pub record Logger (W : Type 0) : Type 0 where
  pub logger_endpoint : Severity → List ℕ → W → W
  pub world : W

unfoldable pub get_logger_endpoint : {W : Type 0} → Logger W → Severity → List ℕ → W → W
get_logger_endpoint logger = logger.logger_endpoint

unfoldable pub set_logger_endpoint :
    {W : Type 0} → (Severity → List ℕ → W → W) → Logger W → Logger W
set_logger_endpoint endpoint logger = record logger { logger_endpoint = endpoint }

-- `sftfs_trace` to `sftfs_fatal`, and `sftfs_print`, which is the severity `off`.
unfoldable pub log : {W : Type 0} → (ndebug : Bool) → Severity → List ℕ → Logger W → Logger W
unfolding severity_value active_severity
log ndebug severity message logger =
    if leb (severity_value (active_severity ndebug)) (severity_value severity)
    then record logger { world = logger.logger_endpoint severity message logger.world }
    else logger

unfoldable pub log_all : {W : Type 0} → Bool → List (Severity × List ℕ) → Logger W → Logger W
unfolding log
log_all ndebug [] logger = logger
log_all ndebug (m ∷ ms) logger = log_all ndebug ms (log ndebug m.0 m.1 logger)

-- The messages of a release build.
abbrev kept : List (Severity × List ℕ) → List (Severity × List ℕ)
kept [] = []
kept ((trace, text) ∷ ms) = kept ms
kept ((debug, text) ∷ ms) = kept ms
kept ((info, text) ∷ ms) = (info, text) ∷ kept ms
kept ((warn, text) ∷ ms) = (warn, text) ∷ kept ms
kept ((error, text) ∷ ms) = (error, text) ∷ kept ms
kept ((fatal, text) ∷ ms) = (fatal, text) ∷ kept ms
kept ((off, text) ∷ ms) = (off, text) ∷ kept ms

-- A release build passes on what a debug build does without the traces and the debug messages, in
-- the same order.
log_all-kept :
    {W : Type 0} (ms : List (Severity × List ℕ)) (logger : Logger W)
    → log_all true ms logger ≡ log_all false (kept ms) logger
unfolding log_all log severity_value active_severity
log_all-kept [] logger = refl
log_all-kept ((trace, text) ∷ ms) logger = log_all-kept ms logger
log_all-kept ((debug, text) ∷ ms) logger = log_all-kept ms logger
log_all-kept ((info, text) ∷ ms) logger = log_all-kept ms (log true info text logger)
log_all-kept ((warn, text) ∷ ms) logger = log_all-kept ms (log true warn text logger)
log_all-kept ((error, text) ∷ ms) logger = log_all-kept ms (log true error text logger)
log_all-kept ((fatal, text) ∷ ms) logger = log_all-kept ms (log true fatal text logger)
log_all-kept ((off, text) ∷ ms) logger = log_all-kept ms (log true off text logger)
