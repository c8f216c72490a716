-- ===== src/Logger/Level.antt =====
-- The level that the environment asks for.
use Prim.Native.Char.{Char}
use Prim.Native.String.{String}
use memory_tiering.Base.{ℕ, ◌≡◌, refl, ap, some, leb}
use memory_tiering.Logger.{
  LogLevel, trace, debug, info, warning, error, fatal, get_log_level_from_env, severity,
  set_log_level, init,
}
use memory_tiering.Logger.Transform.{transform}

-- The names that are documented for the levels.
pub data IsName : LogLevel → String → Type 0 where
  trace_name : IsName trace "trace"
  debug_name : IsName debug "debug"
  info_name : IsName info "info"
  warning_name : IsName warning "warning"
  warn_name : IsName warning "warn"
  error_name : IsName error "error"
  fatal_name : IsName fatal "fatal"

module _ (tolower : Char → Char) where
  -- In whatever case the name is written.
  named_level :
      (l : LogLevel) (name level : String)
      → IsName l name
      → transform tolower level ≡ name
      → get_log_level_from_env tolower (some level) ≡ l
  unfolding get_log_level_from_env
  named_level l _ level trace_name e = rw e refl
  named_level l _ level debug_name e = rw e refl
  named_level l _ level info_name e = rw e refl
  named_level l _ level warning_name e = rw e refl
  named_level l _ level warn_name e = rw e refl
  named_level l _ level error_name e = rw e refl
  named_level l _ level fatal_name e = rw e refl

  -- If the environment names a level, once its letters are lowered, then `init` sets a filter that
  -- lets pass what has this severity or a higher one, and nothing else.
  pub init-level :
      (l : LogLevel) (name level : String) (s : ℕ)
      → IsName l name
      → transform tolower level ≡ name
      → init tolower (some level) s ≡ leb (severity l) s
  unfolding init set_log_level
  init-level l name level s named e =
      ap (λ k. leb (severity k) s) (named_level l name level named e)
