-- ===== src/Logger.antt =====
-- include/common/Logger.hpp and src/common/Logger.cpp: the level below which the Boost logger drops
-- what it is given, and the lines that the program logs. A line is kept as the pieces that `<<` puts
-- together; how a number is printed is not modelled.
pub mod Transform
pub mod Level
use Prim.Native.Char.{Char}
use Prim.Native.String.{String}
use text.Mathlib.Text.{◌==◌ as str_eq}
use memory_tiering.Base.{ℕ, Bool, Option, none, some, List, [], ◌∷◌, ◌||◌, leb, if◌then◌else◌}
use Transform.{transform}

pub data LogLevel : Type 0 where
  trace debug info warning error fatal : LogLevel

-- `getLogLevelFromEnv`, where `level` is what `std::getenv` finds.
unfoldable pub get_log_level_from_env : (tolower : Char → Char) → (level : Option String) → LogLevel
get_log_level_from_env tolower none = info
get_log_level_from_env tolower (some level) =
    let level_str = transform tolower level in
    if str_eq level_str "trace"
    then trace
    else if str_eq level_str "debug"
    then debug
    else if str_eq level_str "info"
    then info
    else if str_eq level_str "warning" || str_eq level_str "warn"
    then warning
    else if str_eq level_str "error"
    then error
    else if str_eq level_str "fatal"
    then fatal
    else info

-- `static_cast<severity_level>`: the levels of Boost have the same numbers.
abbrev pub severity : LogLevel → ℕ
severity trace = 0
severity debug = 1
severity info = 2
severity warning = 3
severity error = 4
severity fatal = 5

-- The filter of Boost's core, by the severity that it lets pass.
unfoldable pub set_log_level : LogLevel → ℕ → Bool
set_log_level level s = leb (severity level) s

-- `init`: the filter that it sets.
unfoldable pub init : (tolower : Char → Char) → (level : Option String) → ℕ → Bool
init tolower level = set_log_level (get_log_level_from_env tolower level)

-- What `<<` puts into a line: a text, an integer, a `double` or a `bool`.
pub data Piece (F : Type 0) : Type 0 where
  string : String → Piece F
  number : ℕ → Piece F
  real : F → Piece F
  flag : Bool → Piece F

pub record LogLine (F : Type 0) : Type 0 where
  pub level : LogLevel
  pub pieces : List (Piece F)

-- `LOG_INFO`
abbrev pub log_info : {F : Type 0} → List (Piece F) → LogLine F
log_info pieces = record { level = info; pieces = pieces }

-- `LOG_ERROR`
abbrev pub log_error : {F : Type 0} → List (Piece F) → LogLine F
log_error pieces = record { level = error; pieces = pieces }
